-- ===== src/Runner/Verdicts.antt =====
-- What a run of the tests says of a mutant.
use isep_mutation_levels.Prelude.{
  ℕ, ◌≡◌, refl, String, Bool, true, false, not, List, [], ◌∷◌, map, any, keep, length, arith,
}
use isep_mutation_levels.Coverage.Defs.{TestResult, CompleteDryRunResult}
use isep_mutation_levels.Runner.Results.{
  complete, MutantRunResult, killed, survived, is_failed, is_skipped, to_mutant_run_result,
}

abbrev pub is_killed : MutantRunResult → Bool
is_killed (killed _ _ _) = true
is_killed _ = false

abbrev pub killers : MutantRunResult → List String
killers (killed _ by _) = by
killers _ = []

abbrev pub tests_run : MutantRunResult → ℕ
tests_run (killed _ _ n) = n
tests_run (survived n) = n
tests_run _ = 0

any-keep :
    (p : TestResult → Bool) (ts : List TestResult)
    → elim (keep p ts) [ [] ↦ false | _ ∷ _ ↦ true ] ≡ any p ts
any-keep p [] = refl
any-keep p (t ∷ ts) = ground (arith, any-keep p ts)

killed_of :
    (r : CompleteDryRunResult) (all_killers : Bool)
    → is_killed (to_mutant_run_result (complete r) all_killers)
      ≡ elim (keep is_failed r.tests) [ [] ↦ false | _ ∷ _ ↦ true ]
unfolding to_mutant_run_result
killed_of r all_killers = ground arith

killers_of :
    (r : CompleteDryRunResult)
    → killers (to_mutant_run_result (complete r) true) ≡ map (λ t. t.id) (keep is_failed r.tests)
unfolding to_mutant_run_result
killers_of r = ground arith

tests_of :
    (r : CompleteDryRunResult) (all_killers : Bool)
    → tests_run (to_mutant_run_result (complete r) all_killers)
      ≡ length (keep (λ t. not (is_skipped t)) r.tests)
unfolding to_mutant_run_result
tests_of r all_killers = ground arith

-- Where the run of the tests completes, the mutant is killed exactly if a test failed, the killing
-- tests are the failed ones in their order (if all are to be reported), and the number of tests is
-- that of the tests that were not skipped.
pub to_mutant_run_result-complete :
    (r : CompleteDryRunResult) (all_killers : Bool)
    → (is_killed (to_mutant_run_result (complete r) all_killers) ≡ any is_failed r.tests)
      × ((killers (to_mutant_run_result (complete r) true)
            ≡ map (λ t. t.id) (keep is_failed r.tests))
          × (tests_run (to_mutant_run_result (complete r) all_killers)
              ≡ length (keep (λ t. not (is_skipped t)) r.tests)))
to_mutant_run_result-complete r all_killers = (
  ground (arith, killed_of r all_killers, any-keep is_failed r.tests),
  (killers_of r, tests_of r all_killers),
)
