-- ===== src/Executor/Execute.antt =====
-- 4-mutation-test-executor.ts: `MutationTestExecutor.execute`. A stream is the list of what it emits;
-- the results are merged in an order that the program leaves to the runs.
use isep_mutation_levels.Prelude.{
  String, Bool, true, false, not, ◌&&◌, ◌||◌, List, [], ◌∷◌, ◌++◌, map, none, some, if◌then◌else◌,
}
use isep_mutation_levels.Api.{no_coverage, Mutant}
use isep_mutation_levels.Coverage.Defs.{TestResult}
use isep_mutation_levels.Planner.Defs.{MutantTestPlan, early_result, run, MutantRunOptions}
use isep_mutation_levels.Runner.Results.{MutantRunResult}
use isep_mutation_levels.Executor.Report.{
  CheckResult, passed, failed, to_report_location, report_mutant_status, report_check_failed,
  report_mutant_run_result,
}

-- `MutantRunPlan`, less its net time.
abbrev pub RunPlan : Type 0
RunPlan = Mutant × MutantRunOptions

-- The workers and the clock: what each checker answers for the plans that it is given, what the
-- test runners answer, and the buffers in which the plans arrive to be sorted.
pub record Workers : Type 0 where
  pub check : (checker_name : String) → List RunPlan → List (RunPlan × CheckResult)
  pub mutant_run : MutantRunOptions → MutantRunResult
  pub buffer_time : List RunPlan → List (List RunPlan)

pub record ExecutorOptions : Type 0 where
  pub dry_run_only : Bool
  pub allow_empty : Bool
  pub checkers : List String

-- `executeEarlyResult`: the results, and the plans to run.
unfoldable pub execute_early_result : List MutantTestPlan → List Mutant × List RunPlan
unfolding report_mutant_status to_report_location
execute_early_result [] = ([], [])
execute_early_result (early_result m ∷ plans) =
    let (results, runs) = execute_early_result plans in
    elim m.status [
      | none ↦ (record m { location = to_report_location m.location } ∷ results, runs)
      | some status ↦ (report_mutant_status m status ∷ results, runs)
    ]
execute_early_result (run net_time m options ∷ plans) =
    let (results, runs) = execute_early_result plans in (results, (m, options) ∷ runs)

-- `executeSingleChecker` and the partition of its answers.
unfoldable pub split_checked : List (RunPlan × CheckResult) → List Mutant × List RunPlan
unfolding report_check_failed
split_checked [] = ([], [])
split_checked ((plan, answer) ∷ answers) =
    let (results, runs) = split_checked answers in
    elim answer [
      | passed ↦ (results, plan ∷ runs)
      | failed reason ↦ (report_check_failed plan.0 reason ∷ results, runs)
    ]

-- One checker after the other, each for the plans that passed the ones before.
unfoldable pub execute_check : Workers → List String → List RunPlan → List Mutant × List RunPlan
unfolding split_checked
execute_check w [] plans = ([], plans)
execute_check w (name ∷ names) plans =
    let (failures, left) = split_checked (w.check name plans) in
    let (results, runs) = execute_check w names left in (failures ++ results, runs)

abbrev pub has_no_tests : MutantRunOptions → Bool
has_no_tests o = elim o.test_filter [ none ↦ false | some [] ↦ true | some (_ ∷ _) ↦ false ]

unfoldable pub execute_no_coverage : List RunPlan → List Mutant × List RunPlan
unfolding report_mutant_status
execute_no_coverage [] = ([], [])
execute_no_coverage ((m, options) ∷ plans) =
    let (results, runs) = execute_no_coverage plans in
    if has_no_tests options
    then (report_mutant_status m no_coverage ∷ results, runs)
    else (results, (m, options) ∷ runs)

-- `plans.sort(reloadEnvironmentLast)`: a plan moves behind another one only if it reloads the
-- environment and the other does not.
abbrev pub insert_plan : RunPlan → List RunPlan → List RunPlan
insert_plan p [] = p ∷ []
insert_plan p (q ∷ qs) =
    if p.1.reload_environment && not q.1.reload_environment
    then q ∷ insert_plan p qs
    else p ∷ q ∷ qs

unfoldable pub sort_reload_last : List RunPlan → List RunPlan
sort_reload_last [] = []
sort_reload_last (p ∷ ps) = insert_plan p (sort_reload_last ps)

abbrev pub sort_all : List (List RunPlan) → List RunPlan
sort_all [] = []
sort_all (buffer ∷ buffers) = sort_reload_last buffer ++ sort_all buffers

unfoldable pub execute_run_in_test_runner : Workers → List RunPlan → List Mutant
unfolding sort_reload_last report_mutant_run_result
execute_run_in_test_runner w plans =
    map (λ p. report_mutant_run_result p.0 (w.mutant_run p.1)) (sort_all (w.buffer_time plans))

abbrev pub is_empty {ℓ} : {A : Type ℓ} → List A → Bool
is_empty [] = true
is_empty (_ ∷ _) = false

unfoldable pub execute :
    Workers
    → ExecutorOptions
    → (dry_run_tests : List TestResult) → List MutantTestPlan
    → List Mutant
unfolding execute_early_result execute_check execute_no_coverage execute_run_in_test_runner
execute w options tests plans =
    if options.dry_run_only || (is_empty tests && options.allow_empty)
    then []
    else let (early, to_run) = execute_early_result plans in
      let (check_results, checked) = execute_check w options.checkers to_run in
      let (no_coverage_results, covered) = execute_no_coverage checked in
      execute_run_in_test_runner w covered ++ (check_results ++ (no_coverage_results ++ early))
