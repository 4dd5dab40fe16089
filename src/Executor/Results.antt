-- ===== src/Executor/Results.antt =====
-- The results of `execute`, counted by the ids of their mutants.
use isep_mutation_levels.Prelude.{
  ℕ, ◌+◌, ◌≡◌, refl, ap, String, Bool, false, ◌&&◌, ◌||◌, List, [], ◌∷◌, ◌++◌, map, arith,
  if◌then◌else◌, Bool-cases, inl, inr,
}
use isep_mutation_levels.Api.{Mutant}
use isep_mutation_levels.Coverage.Defs.{TestResult}
use isep_mutation_levels.Planner.Defs.{MutantTestPlan, early_result, run}
use isep_mutation_levels.Planner.Plans.{planned}
use isep_mutation_levels.Runner.Results.{MutantRunResult}
use isep_mutation_levels.Executor.Report.{
  CheckResult, report_mutant_status, report_check_failed, report_mutant_run_result,
}
use isep_mutation_levels.Executor.Execute.{
  RunPlan, Workers, ExecutorOptions, execute_early_result, split_checked, execute_check,
  execute_no_coverage, insert_plan, sort_reload_last, sort_all, execute_run_in_test_runner,
  is_empty, execute, has_no_tests,
}

abbrev pub one_if : Bool → ℕ
one_if b = if b then 1 else 0

abbrev pub concat : List (List RunPlan) → List RunPlan
concat [] = []
concat (buffer ∷ buffers) = buffer ++ concat buffers

module _ (p : String → Bool) where
  -- How many results, plans to run, answers and plans have an id that satisfies the predicate.
  abbrev pub result_count : List Mutant → ℕ
  result_count [] = 0
  result_count (m ∷ ms) = one_if (p m.id) + result_count ms

  abbrev pub run_count : List RunPlan → ℕ
  run_count [] = 0
  run_count (r ∷ rs) = one_if (p r.0.id) + run_count rs

  abbrev pub answer_count : List (RunPlan × CheckResult) → ℕ
  answer_count [] = 0
  answer_count (a ∷ answers) = one_if (p a.0.0.id) + answer_count answers

  abbrev pub plan_count : List MutantTestPlan → ℕ
  plan_count [] = 0
  plan_count (plan ∷ plans) = one_if (p (planned plan).id) + plan_count plans

  result-append :
      (xs ys : List Mutant) → result_count (xs ++ ys) ≡ result_count xs + result_count ys
  result-append [] ys = omega arith
  result-append (x ∷ xs) ys = omega (arith, result-append xs ys)

  run-append : (xs ys : List RunPlan) → run_count (xs ++ ys) ≡ run_count xs + run_count ys
  run-append [] ys = omega arith
  run-append (x ∷ xs) ys = omega (arith, run-append xs ys)

  count-early :
      (plans : List MutantTestPlan)
      → let r = execute_early_result plans in result_count r.0 + run_count r.1 ≡ plan_count plans
  unfolding execute_early_result report_mutant_status
  count-early [] = omega arith
  count-early (early_result m ∷ plans) = ground (arith, count-early plans)
  count-early (run net_time m options ∷ plans) = ground (arith, count-early plans)

  count-split :
      (answers : List (RunPlan × CheckResult))
      → let r = split_checked answers in result_count r.0 + run_count r.1 ≡ answer_count answers
  unfolding split_checked report_check_failed
  count-split [] = omega arith
  count-split ((plan, answer) ∷ answers) = ground (arith, count-split answers)

  count-no_coverage :
      (plans : List RunPlan)
      → let r = execute_no_coverage plans in result_count r.0 + run_count r.1 ≡ run_count plans
  unfolding execute_no_coverage report_mutant_status
  count-no_coverage [] = omega arith
  count-no_coverage ((m, options) ∷ plans) = elim (Bool-cases (has_no_tests options)) [
    | inl e ↦ rw (e, execute_no_coverage) (omega (arith, count-no_coverage plans))
    | inr e ↦ rw (e, execute_no_coverage) (omega (arith, count-no_coverage plans))
  ]

  count-insert :
      (r : RunPlan) (rs : List RunPlan) → run_count (insert_plan r rs) ≡ run_count (r ∷ rs)
  count-insert r [] = refl
  count-insert r (q ∷ qs) = ground (arith, count-insert r qs)

  count-sort : (rs : List RunPlan) → run_count (sort_reload_last rs) ≡ run_count rs
  unfolding sort_reload_last
  count-sort [] = refl
  count-sort (r ∷ rs) = omega (arith, count-insert r (sort_reload_last rs), count-sort rs)

  count-sort_all : (bs : List (List RunPlan)) → run_count (sort_all bs) ≡ run_count (concat bs)
  count-sort_all [] = refl
  count-sort_all (b ∷ bs) = omega (
    arith,
    run-append (sort_reload_last b) (sort_all bs),
    run-append b (concat bs),
    count-sort b,
    count-sort_all bs,
  )

  run_result-id : (m : Mutant) (r : MutantRunResult) → (report_mutant_run_result m r).id ≡ m.id
  unfolding report_mutant_run_result
  run_result-id m r = ground arith

  count-results :
      (w : Workers) (rs : List RunPlan)
      → result_count (map (λ r. report_mutant_run_result r.0 (w.mutant_run r.1)) rs) ≡ run_count rs
  count-results w [] = refl
  count-results w (r ∷ rs) = rw (run_result-id r.0 (w.mutant_run r.1), count-results w rs)

  -- Every checker answers for each of its plans, once.
  abbrev pub CheckersAnswer : Workers → Type 0
  CheckersAnswer w =
      (name : String) (plans : List RunPlan) → answer_count (w.check name plans) ≡ run_count plans

  count-check :
      (w : Workers) (names : List String) (plans : List RunPlan)
      → CheckersAnswer w
      → let r = execute_check w names plans in result_count r.0 + run_count r.1 ≡ run_count plans
  unfolding execute_check
  count-check w [] plans h = omega arith
  count-check w (name ∷ names) plans h =
      let (failures, left) = split_checked (w.check name plans) in
      omega (
        arith,
        result-append failures (execute_check w names left).0,
        count-check w names left h,
        count-split (w.check name plans),
        h name plans,
      )

  -- If the mutants are to be tested, the checkers answer for each plan once and no plan is lost in a
  -- buffer, then each plan leads to one result: of any kind of id there are as many results as
  -- plans.
  pub execute-count :
      (w : Workers) (options : ExecutorOptions) (tests : List TestResult)
      (plans : List MutantTestPlan)
      → (options.dry_run_only || (is_empty tests && options.allow_empty)) ≡ false
      → CheckersAnswer w
      → ((rs : List RunPlan) → concat (w.buffer_time rs) ≡ rs)
      → result_count (execute w options tests plans) ≡ plan_count plans
  unfolding execute execute_run_in_test_runner
  execute-count w options tests plans tested answer kept =
      let (early, to_run) = execute_early_result plans in
      let (check_results, checked) = execute_check w options.checkers to_run in
      let (no_coverage_results, covered) = execute_no_coverage checked in
      rw (tested, execute)
        (omega (
          arith,
          result-append (execute_run_in_test_runner w covered)
              (check_results ++ (no_coverage_results ++ early)),
          result-append check_results (no_coverage_results ++ early),
          result-append no_coverage_results early,
          count-results w (sort_all (w.buffer_time covered)),
          count-sort_all (w.buffer_time covered),
          ap run_count (kept covered),
          count-no_coverage checked,
          count-check w options.checkers to_run answer,
          count-early plans,
        ))
