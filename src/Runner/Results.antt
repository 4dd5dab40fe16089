-- ===== src/Runner/Results.antt =====
-- run-result-helpers.ts of packages/api/src/test-runner: from the result of a run of the tests to
-- that of a mutant.
use isep_mutation_levels.Prelude.{
  ℕ, String, Bool, true, false, not, List, [], ◌∷◌, map, Option, none, some, length, keep, ltb,
  if◌then◌else◌,
}
use isep_mutation_levels.Coverage.Defs.{failed, skipped, TestResult, CompleteDryRunResult}

pub data DryRunResult : Type 0 where
  complete : CompleteDryRunResult → DryRunResult
  error : (error_message : String) → DryRunResult
  timeout : (reason : Option String) → DryRunResult

pub data MutantRunResult : Type 0 where
  killed :
      (failure_message : String) → (killed_by : List String) → (nr_of_tests : ℕ) → MutantRunResult
  survived : (nr_of_tests : ℕ) → MutantRunResult
  run_error : (error_message : String) → MutantRunResult
  run_timeout : (reason : Option String) → MutantRunResult

abbrev pub is_failed : TestResult → Bool
is_failed t = elim t.status [ failed ↦ true | _ ↦ false ]

abbrev pub is_skipped : TestResult → Bool
is_skipped t = elim t.status [ skipped ↦ true | _ ↦ false ]

-- The text of the reason is that of the two numbers.
unfoldable pub determine_hit_limit_reached :
    (reason : ℕ → ℕ → String) → (hit_count hit_limit : Option ℕ) → Option DryRunResult
determine_hit_limit_reached reason none hit_limit = none
determine_hit_limit_reached reason (some count) none = none
determine_hit_limit_reached reason (some count) (some limit) =
    if ltb limit count then some (timeout (some (reason count limit))) else none

unfoldable pub to_mutant_run_result : DryRunResult → (report_all_killers : Bool) → MutantRunResult
to_mutant_run_result (complete r) report_all_killers =
    let nr_of_tests = length (keep (λ t. not (is_skipped t)) r.tests) in
    elim (keep is_failed r.tests) [
      | [] ↦ survived nr_of_tests
      | t ∷ ts ↦
          killed t.failure_message
            (if report_all_killers then t.id ∷ map (λ u. u.id) ts else t.id ∷ []) nr_of_tests
    ]
to_mutant_run_result (error message) report_all_killers = run_error message
to_mutant_run_result (timeout reason) report_all_killers = run_timeout reason
