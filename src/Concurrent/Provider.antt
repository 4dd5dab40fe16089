-- ===== src/Concurrent/Provider.antt =====
-- packages/core/src/concurrent/concurrency-token-provider.ts: how many processes there may be.
use isep_mutation_levels.Prelude.{
  ℕ, zero, suc, ◌+◌, ◌-◌, ◌/◌, Bool, true, false, List, [], ◌∷◌, ◌++◌, Option, none, some, ltb,
  if◌then◌else◌,
}
use Prim.Native.Nat.{max}

-- The provider, with the tokens that its subject for the test runners has streamed.
pub record TokenProvider : Type 0 where
  pub concurrency_checkers : ℕ
  pub concurrency_test_runners : ℕ
  pub checker_tokens : ℕ
  pub test_runner_tokens : List ℕ
  pub is_complete : Bool
  pub count : ℕ

-- `testRunnerTokenSubject.next(this.tick())`.
unfoldable pub next_token : TokenProvider → TokenProvider
next_token p = record p {
  count = p.count + 1;
  test_runner_tokens =
      if p.is_complete then p.test_runner_tokens else p.test_runner_tokens ++ p.count ∷ [];
}

unfoldable pub next_tokens : ℕ → TokenProvider → TokenProvider
unfolding next_token
next_tokens zero p = p
next_tokens (suc n) p = next_tokens n (next_token p)

-- `options.concurrency`, with what the number of processors gives for it.
abbrev pub concurrency_of : Option ℕ → (cpu_count : ℕ) → ℕ
concurrency_of (some n) cpu_count = n
concurrency_of none cpu_count = if ltb 4 cpu_count then cpu_count - 1 else cpu_count

abbrev pub no_tokens : (checkers test_runners checker_tokens : ℕ) → TokenProvider
no_tokens checkers test_runners checker_tokens = record {
  concurrency_checkers = checkers;
  concurrency_test_runners = test_runners;
  checker_tokens = checker_tokens;
  test_runner_tokens = [];
  is_complete = false;
  count = 0;
}

-- The constructor.
unfoldable pub new_provider : (concurrency : ℕ) (has_checkers : Bool) → TokenProvider
unfolding next_tokens
new_provider n true =
    next_tokens (max (n / 2) 1)
      (no_tokens (max ((n + 1) / 2) 1) (max (n / 2) 1) (max ((n + 1) / 2) 1))
new_provider n false = next_tokens n (no_tokens 0 n 1)

unfoldable pub free_checkers : TokenProvider → TokenProvider
unfolding next_tokens
free_checkers p =
    if ltb 0 p.concurrency_checkers
    then record (next_tokens p.concurrency_checkers p) { is_complete = true }
    else p

unfoldable pub dispose_tokens : TokenProvider → TokenProvider
dispose_tokens p = record p { is_complete = true }

pub data Call : Type 0 where
  freed disposed : Call

unfoldable pub calls_on : List Call → TokenProvider → TokenProvider
unfolding free_checkers dispose_tokens
calls_on [] p = p
calls_on (freed ∷ calls) p = calls_on calls (free_checkers p)
calls_on (disposed ∷ calls) p = calls_on calls (dispose_tokens p)
