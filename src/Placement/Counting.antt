-- ===== src/Placement/Counting.antt =====
-- What the helpers of the instrumentation header (packages/instrumenter/src/util/syntax-helpers.ts) count:
-- the coverage of each test, and the hits of the active mutant.
use isep_mutation_levels.Prelude.{
  ℕ, zero, suc, ◌+◌, ◌≤◌, ◌≡◌, String, Bool, true, false, List, [], ◌∷◌, Option, none, some, inl,
  inr, arith, ltb, ◌=s=◌, if◌then◌else◌, lookup, insert, lookup-insert, Bool-cases, Option-cases,
  eq_iff, eq_refl,
}
use isep_mutation_levels.Placement.Meaning.{
  Counters, Namespace, Outcome, normal, hit_limit_reached, boolean, bind, count_hits, cover,
  current_test, counters_of, is_active, count_active_hit,
}

abbrev pub counted : Option ℕ → ℕ
counted none = 0
counted (some n) = n

abbrev pub hits : String → Counters → ℕ
hits id c = counted (lookup id c)

abbrev pub occurrences : String → List String → ℕ
occurrences id [] = 0
occurrences id (j ∷ rest) = (if j =s= id then 1 else 0) + occurrences id rest

hits-count_hits :
    (id : String) (mutants : List String) (c : Counters)
    → hits id (count_hits mutants c) ≡ hits id c + occurrences id mutants
unfolding count_hits
hits-count_hits id [] c = omega arith
hits-count_hits id (j ∷ rest) c = ground (
  arith,
  hits-count_hits id rest (insert j (elim (lookup j c) [ none ↦ 1 | some n ↦ n + 1 ]) c),
  lookup-insert id j (elim (lookup j c) [ none ↦ 1 | some n ↦ n + 1 ]) c,
  eq_iff j id,
)

abbrev pub is_place : Option String → Option String → Bool
is_place none none = true
is_place (some a) (some b) = a =s= b
is_place _ _ = false

module _ {S : Type 0} where
  -- The counters of a test, or those of static code.
  abbrev pub counters_at : Namespace S → Option String → Counters
  counters_at ns none = ns.static
  counters_at ns (some test) = counters_of (lookup test ns.per_test)

  -- Covering mutants raises, under the test that is current (or among the static counters, if there is
  -- none), the count of each mutant by as often as it is named; every other count stays.
  pub cover-counters_at :
      (id : String) (mutants : List String) (place : Option String) (ns : Namespace S)
      → hits id (counters_at (cover mutants ns) place)
        ≡ hits id (counters_at ns place)
          + (if is_place (current_test ns.current_test_id) place then occurrences id mutants else 0)
  unfolding cover
  cover-counters_at id mutants none ns = ground (arith, hits-count_hits id mutants ns.static)
  cover-counters_at id mutants (some test) ns =
      elim (Option-cases (current_test ns.current_test_id)) [
        | inl static ↦ rw (static, cover) (omega arith)
        | inr (current, dynamic) ↦
            rw (dynamic, cover)
              (ground (
                arith,
                lookup-insert test current
                    (count_hits mutants (counters_of (lookup current ns.per_test))) ns.per_test,
                hits-count_hits id mutants (counters_of (lookup current ns.per_test)),
                eq_iff current test,
              ))
      ]

  abbrev pub counting : Namespace S → ℕ → ℕ → Namespace S
  counting ns count limit = record ns { hit_count = some count; hit_limit = some limit }

  module _ {V A : Type 0} where
    -- `isActive` called `n` times in a row.
    abbrev pub test_times : ℕ → String → Namespace S → Outcome V A × Namespace S
    test_times zero id ns = (normal (boolean true), ns)
    test_times (suc n) id ns = bind (is_active id ns) (λ _ ns'. test_times n id ns')

    -- A mutant that is reached over and over is stopped: with `count` of `limit` hits used, the tests
    -- that the active mutant passes through are answered as long as the limit allows, and the first one
    -- behind it ends the run with the count `limit + 1`.
    pub test_times-stops :
        (n : ℕ) (id : String) (ns : Namespace S) (count limit : ℕ)
        → count ≤ limit
        → (test_times n id (counting (record ns { active_mutant = some id }) count limit)).0
          ≡ (if ltb limit (count + n) then hit_limit_reached (limit + 1) else normal (boolean true))
    unfolding is_active count_active_hit
    test_times-stops zero id ns count limit h = ground arith
    test_times-stops (suc n) id ns count limit h =
        rw (eq_refl id) (elim (Bool-cases (ltb limit (count + 1))) [
          | inl over ↦ rw over (ground arith)
          | inr below ↦
              let shifted : count + suc n ≡ count + 1 + n = omega arith in
              rw (below, shifted) (test_times-stops n id ns (count + 1) limit (ground arith))
        ])
