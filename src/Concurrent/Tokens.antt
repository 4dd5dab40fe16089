-- ===== src/Concurrent/Tokens.antt =====
-- packages/core/src/concurrent/concurrency-token-provider.ts: the tokens, and how many there are at most.
use isep_mutation_levels.Prelude.{
  ℕ, zero, suc, ◌+◌, ◌/◌, ◌≤◌, ◌≡◌, ◌∙◌, ap, sym, refl, Bool, true, false, List, [], ◌∷◌, ◌++◌, inl,
  inr, ltb, if◌then◌else◌, Bool-cases, arith, length, length-append,
}
use Prim.Native.Nat.{max}
use isep_mutation_levels.Concurrent.Provider.{
  TokenProvider, no_tokens, next_token, next_tokens, new_provider, free_checkers, dispose_tokens,
  Call, freed, disposed, calls_on,
}

-- The first numbers.
abbrev pub upto : ℕ → List ℕ
upto zero = []
upto (suc n) = upto n ++ n ∷ []

upto_cong : (a b : ℕ) → a ≡ b → upto a ≡ upto b
upto_cong a b e = ap upto e

length-upto : (n : ℕ) → length (upto n) ≡ n
length-upto zero = refl
length-upto (suc n) = omega (arith, length-append (upto n) (n ∷ []), length-upto n)

-- What `next_tokens` does to the tokens.
stream : (n : ℕ) (is_complete : Bool) (count : ℕ) → List ℕ → List ℕ
stream zero is_complete count sent = sent
stream (suc n) is_complete count sent =
    stream n is_complete (count + 1) (if is_complete then sent else sent ++ count ∷ [])

stream_complete : (n count : ℕ) (sent : List ℕ) → stream n true count sent ≡ sent
unfolding stream
stream_complete zero count sent = refl
stream_complete (suc n) count sent = stream_complete n (count + 1) sent

stream-open : (n count : ℕ) → stream n false count (upto count) ≡ upto (n + count)
unfolding stream
stream-open zero count = upto_cong count (0 + count) (omega arith)
stream-open (suc n) count =
    ap (stream n false (count + 1)) (upto_cong (suc count) (count + 1) (omega arith))
    ∙ (stream-open n (count + 1) ∙ upto_cong (n + (count + 1)) (suc n + count) (omega arith))

stream-over :
    (n : ℕ) (is_complete : Bool) (count : ℕ) (sent : List ℕ)
    → is_complete ≡ true
    → stream n is_complete count sent ≡ sent
stream-over n is_complete count sent over = rw over (stream_complete n count sent)

stream-going :
    (n k : ℕ) (is_complete : Bool) (count : ℕ) (sent : List ℕ)
    → is_complete ≡ false
    → count ≡ k
    → sent ≡ upto k
    → stream n is_complete count sent ≡ upto (n + k)
stream-going n k is_complete count sent going counted order =
    rw (going, counted, order) (stream-open n k)

next_tokens-tokens :
    (n : ℕ) (p : TokenProvider)
    → (next_tokens n p).test_runner_tokens ≡ stream n p.is_complete p.count p.test_runner_tokens
unfolding next_tokens next_token stream
next_tokens-tokens zero p = refl
next_tokens-tokens (suc n) p = next_tokens-tokens n (next_token p)

next_tokens-is_complete :
    (n : ℕ) (p : TokenProvider) → (next_tokens n p).is_complete ≡ p.is_complete
unfolding next_tokens next_token
next_tokens-is_complete zero p = refl
next_tokens-is_complete (suc n) p = next_tokens-is_complete n (next_token p)

next_tokens-checkers :
    (n : ℕ) (p : TokenProvider) → (next_tokens n p).concurrency_checkers ≡ p.concurrency_checkers
unfolding next_tokens next_token
next_tokens-checkers zero p = refl
next_tokens-checkers (suc n) p = next_tokens-checkers n (next_token p)

next_tokens-count : (n : ℕ) (p : TokenProvider) → (next_tokens n p).count ≡ n + p.count
unfolding next_tokens next_token
next_tokens-count zero p = omega arith
next_tokens-count (suc n) p = omega (arith, next_tokens-count n (next_token p))

-- The tokens are the first numbers. `room`: those for the places of the checkers may still come.
record Streams (most : ℕ) (p : TokenProvider) : Type 0 where
  pub sent : ℕ
  pub in_order : p.test_runner_tokens ≡ upto sent
  pub few : sent ≤ most
  pub counted : p.is_complete ≡ false → p.count ≡ sent
  pub room : p.is_complete ≡ false → sent + p.concurrency_checkers ≤ most

closed :
    (most : ℕ) (p : TokenProvider) → Streams most p → Streams most (record p { is_complete = true })
closed most p s = record {
  sent = s.sent;
  in_order = s.in_order;
  few = s.few;
  counted = λ going. cc;
  room = λ going. cc;
}

-- The tokens of the checkers, and the end of the stream.
freed-Streams :
    (most : ℕ) (p : TokenProvider)
    → Streams most p
    → Streams most (record (next_tokens p.concurrency_checkers p) { is_complete = true })
freed-Streams most p s = elim (Bool-cases p.is_complete) [
  | inl over ↦ record {
    sent = s.sent;
    in_order =
        next_tokens-tokens p.concurrency_checkers p
        ∙ (stream-over p.concurrency_checkers p.is_complete p.count p.test_runner_tokens over
            ∙ s.in_order);
    few = s.few;
    counted = λ going. cc;
    room = λ going. cc;
  }
  | inr going ↦ record {
    sent = p.concurrency_checkers + s.sent;
    in_order =
        next_tokens-tokens p.concurrency_checkers p
        ∙ stream-going p.concurrency_checkers s.sent p.is_complete p.count p.test_runner_tokens
            going (s.counted going) s.in_order;
    few = omega (arith, s.room going);
    counted = λ going. cc;
    room = λ going. cc;
  }
]

free_checkers-Streams :
    (most : ℕ) (p : TokenProvider) → Streams most p → Streams most (free_checkers p)
unfolding free_checkers
free_checkers-Streams most p s = elim (Bool-cases (ltb 0 p.concurrency_checkers)) [
  | inl some_checkers ↦ rw some_checkers (freed-Streams most p s)
  | inr no_checkers ↦ rw no_checkers s
]

calls_on-Streams :
    (most : ℕ) (calls : List Call) (p : TokenProvider)
    → Streams most p
    → Streams most (calls_on calls p)
unfolding calls_on dispose_tokens
calls_on-Streams most [] p s = s
calls_on-Streams most (freed ∷ calls) p s =
    calls_on-Streams most calls (free_checkers p) (free_checkers-Streams most p s)
calls_on-Streams most (disposed ∷ calls) p s =
    calls_on-Streams most calls (record p { is_complete = true }) (closed most p s)

first_tokens :
    (most n : ℕ) (p : TokenProvider)
    → p.test_runner_tokens ≡ []
    → p.is_complete ≡ false
    → p.count ≡ 0
    → n + p.concurrency_checkers ≤ most
    → Streams most (next_tokens n p)
first_tokens most n p empty going counted few = record {
  sent = n;
  in_order =
      next_tokens-tokens n p
      ∙ (stream-going n 0 p.is_complete p.count p.test_runner_tokens going counted empty
          ∙ upto_cong (n + 0) n (omega arith));
  few = omega (arith, few);
  counted = λ _. omega (arith, next_tokens-count n p, counted);
  room = λ _. omega (arith, few, next_tokens-checkers n p);
}

-- The most processes at one time.
unfoldable pub most_tokens : (concurrency : ℕ) (has_checkers : Bool) → ℕ
most_tokens n has_checkers = if has_checkers then max n 2 else n

new_provider-Streams :
    (n : ℕ) (has_checkers : Bool)
    → Streams (most_tokens n has_checkers) (new_provider n has_checkers)
unfolding new_provider most_tokens
new_provider-Streams n true =
    first_tokens (max n 2) (max (n / 2) 1)
      (no_tokens (max ((n + 1) / 2) 1) (max (n / 2) 1) (max ((n + 1) / 2) 1)) refl refl refl
      (ground arith)
new_provider-Streams n false = first_tokens n n (no_tokens 0 n 1) refl refl refl (ground arith)

-- Whatever calls of `freeCheckers` and `dispose` follow on the constructor, in any order: the tokens for
-- the test runners are the first numbers, each streamed once and in order, and with checkers there are
-- at most as many as the concurrency (two, if that is less), without checkers at most the concurrency.
pub calls_on-tokens :
    (concurrency : ℕ) (has_checkers : Bool) (calls : List Call)
    → (calls_on calls (new_provider concurrency has_checkers)).test_runner_tokens
        ≡ upto (length (calls_on calls (new_provider concurrency has_checkers)).test_runner_tokens)
      × (length (calls_on calls (new_provider concurrency has_checkers)).test_runner_tokens
          ≤ most_tokens concurrency has_checkers)
calls_on-tokens n has_checkers calls =
    let s =
      calls_on-Streams (most_tokens n has_checkers) calls (new_provider n has_checkers)
        (new_provider-Streams n has_checkers) in
    let e = ap length s.in_order ∙ length-upto s.sent in
    (s.in_order ∙ ap upto (sym e), omega (arith, e, s.few))
