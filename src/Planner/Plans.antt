-- ===== src/Planner/Plans.antt =====
-- What `planMutant` decides, on every branch.
use isep_mutation_levels.Prelude.{
  ◌∙◌, ◌++◌, ℕ, ◌+◌, ◌≡◌, refl, String, Bool, true, false, not, ◌&&◌, ◌||◌, List, [], ◌∷◌, map,
  Option, none, some, lookup, or_else, if◌then◌else◌, arith,
}
use isep_mutation_levels.Differ.Report.{IncrementalReport}
use isep_mutation_levels.Differ.Collect.{IncrementalDiffer}
use isep_mutation_levels.Differ.Diff.{diff}
use isep_mutation_levels.Differ.Kept.{forgotten, diff-ids}
use isep_mutation_levels.Coverage.Defs.{has_coverage, has_static_coverage}
use isep_mutation_levels.Api.{Mutant}
use isep_mutation_levels.Planner.Defs.{
  MutantTestPlan, early_result, run, MutantRunOptions, Planner, at_runtime, at_load,
  calculate_total_time, to_test_ids, is_set, is_nonempty, plan_mutant, make_plan,
}

abbrev pub is_early : MutantTestPlan → Bool
is_early (early_result _) = true
is_early (run _ _ _) = false

abbrev pub filter_of : MutantTestPlan → Option (List String)
filter_of (early_result _) = none
filter_of (run _ _ o) = o.test_filter

abbrev pub planned : MutantTestPlan → Mutant
planned (early_result m) = m
planned (run _ m _) = m

-- The tests that cover the mutant.
abbrev pub covering : Planner → Mutant → List String
covering p m = to_test_ids (or_else (lookup m.id p.coverage.tests_by_mutant_id) [])

-- A mutant is not run exactly if it has a status already, or if it is static with no test of its
-- own, coverage is known and static mutants are to be ignored.
pub plan_mutant-early :
    (p : Planner) (m : Mutant)
    → is_early (plan_mutant p m) ≡ (
        is_set m.status
        || (has_coverage p.coverage
            && has_static_coverage p.coverage m.id
            && p.options.ignore_static
            && not (is_nonempty (covering p m))))
unfolding plan_mutant
plan_mutant-early p m = ground arith

-- What holds of a plan's run: its tests, the time that they take, and how the mutant is switched
-- on.
pub record IsRunOf (p : Planner) (m : Mutant) (net_time : ℕ) (planned : Mutant)
    (o : MutantRunOptions) : Type 0 where
  pub same_mutant : planned.id ≡ m.id
  pub activates : o.active_mutant.id ≡ m.id
  pub timeout :
      o.timeout
      ≡ p.options.times_timeout_factor net_time + p.options.timeout_ms + p.time_overhead_ms
  pub reloads : o.reload_environment ≡ not (is_set o.test_filter)
  pub activation : o.mutant_activation ≡ (if is_set o.test_filter then at_runtime else at_load)
  pub time : net_time ≡ (
      if is_set o.test_filter
      then calculate_total_time (or_else (lookup m.id p.coverage.tests_by_mutant_id) [])
      else p.time_spent_all_tests)
  pub filter : o.test_filter ≡ (
      if has_coverage p.coverage
        && (not (has_static_coverage p.coverage m.id)
            || (p.options.ignore_static && is_nonempty (covering p m)))
      then some (covering p m)
      else none)

abbrev pub IsSound : Planner → Mutant → MutantTestPlan → Type 0
IsSound p m (early_result planned) = (planned.id ≡ m.id) × (is_set planned.status ≡ true)
IsSound p m (run net_time planned o) = IsRunOf p m net_time planned o

-- Every plan is for its mutant. An early result has a status. A run is filtered, to the covering
-- tests, exactly if coverage is known and the mutant is not static, or is covered by tests and
-- static mutants are ignored; the environment is reloaded and the mutant active at load exactly
-- in the other runs; and the timeout is built from the time of the tests that are run.
pub plan_mutant-IsSound : (p : Planner) (m : Mutant) → IsSound p m (plan_mutant p m)
unfolding plan_mutant
plan_mutant-IsSound p m = ground arith

planned_id : (p : Planner) (m : Mutant) → (planned (plan_mutant p m)).id ≡ m.id
unfolding plan_mutant
planned_id p m = ground arith

planned_ids :
    (p : Planner) (ms : List Mutant)
    → map (λ plan. (planned plan).id) (map (plan_mutant p) ms) ≡ map (λ m. m.id) ms
planned_ids p [] = refl
planned_ids p (m ∷ ms) = rw (planned_id p m, planned_ids p ms)

-- With an earlier report there is one plan for each mutant, in their order, and one for each old
-- result that the comparison keeps with no current mutant.
pub make_plan-incremental :
    (p : Planner) (d : IncrementalDiffer) (report : IncrementalReport) (ms : List Mutant)
    → map (λ plan. (planned plan).id) (make_plan p (some (d, report)) ms)
      ≡ map (λ m. m.id) ms ++ map (λ e. e.0) (forgotten d ms p.coverage report)
unfolding make_plan
make_plan-incremental p d report ms =
    planned_ids (record p { coverage = (diff d ms p.coverage report).coverage })
      (diff d ms p.coverage report).mutants
    ∙ diff-ids d ms p.coverage report
