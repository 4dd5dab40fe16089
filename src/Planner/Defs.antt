-- ===== src/Planner/Defs.antt =====
-- mutant-test-planner.ts: `planMutant` and what it calls, over the types of packages/api/src/core.
use isep_mutation_levels.Prelude.{
  ℕ, ◌+◌, ◌*◌, String, Bool, true, false, not, ◌&&◌, ◌||◌, List, [], ◌∷◌, map, Option, none, some,
  lookup, or_else, if◌then◌else◌,
}
use isep_mutation_levels.Differ.Positions.{Location}
use isep_mutation_levels.Api.{MutantStatus, ignored, Mutant}
use isep_mutation_levels.Differ.Report.{IncrementalReport}
use isep_mutation_levels.Differ.Collect.{IncrementalDiffer}
use isep_mutation_levels.Differ.Diff.{diff}
use isep_mutation_levels.Coverage.Defs.{TestResult, TestCoverage, has_coverage, has_static_coverage}

-- The numbers of `StrykerOptions`. The timeout factor is a float: it is the function that
-- multiplies by it.
pub record PlannerOptions : Type 0 where
  pub ignore_static : Bool
  pub disable_bail : Bool
  pub timeout_ms : ℕ
  pub times_timeout_factor : ℕ → ℕ

pub data MutantActivation : Type 0 where
  at_runtime at_load : MutantActivation

-- The fields that `activeMutant` copies.
pub record ActiveMutant : Type 0 where
  pub id : String
  pub file_name : String
  pub location : Location
  pub mutator_name : String
  pub replacement : String

pub record MutantRunOptions : Type 0 where
  pub active_mutant : ActiveMutant
  pub mutant_activation : MutantActivation
  pub timeout : ℕ
  pub test_filter : Option (List String)
  pub sandbox_file_name : String
  pub hit_limit : Option ℕ
  pub disable_bail : Bool
  pub reload_environment : Bool

pub data MutantTestPlan : Type 0 where
  early_result : Mutant → MutantTestPlan
  run : (net_time : ℕ) → Mutant → MutantRunOptions → MutantTestPlan

abbrev pub hit_limit_factor : ℕ
hit_limit_factor = 100

abbrev pub calculate_total_time : List TestResult → ℕ
calculate_total_time [] = 0
calculate_total_time (t ∷ ts) = t.time_spent_ms + calculate_total_time ts

abbrev pub to_test_ids : List TestResult → List String
to_test_ids ts = map (λ t. t.id) ts

-- What the planner holds, the sandbox being the function to a file's place in it.
pub record Planner : Type 0 where
  pub coverage : TestCoverage
  pub options : PlannerOptions
  pub time_overhead_ms : ℕ
  pub sandbox_file_for : String → String
  pub time_spent_all_tests : ℕ

-- The constructor.
unfoldable pub create_planner :
    TestCoverage
    → PlannerOptions
    → (time_overhead_ms : ℕ) → (sandbox_file_for : String → String) → Planner
create_planner coverage options time_overhead_ms sandbox_file_for = record {
  coverage = coverage;
  options = options;
  time_overhead_ms = time_overhead_ms;
  sandbox_file_for = sandbox_file_for;
  time_spent_all_tests = calculate_total_time (map (λ e. e.1) coverage.tests_by_id);
}

unfoldable pub create_mutant_early_result_plan :
    Mutant
    → (static : Option Bool) → MutantStatus
    → (status_reason : Option String) → (covered_by killed_by : Option (List String))
    → MutantTestPlan
create_mutant_early_result_plan m static status reason covered_by killed_by =
    early_result (record m {
      status = some status;
      static = static;
      status_reason = reason;
      covered_by = covered_by;
      killed_by = killed_by;
    })

abbrev pub is_set {ℓ} : {A : Type ℓ} → Option A → Bool
is_set none = false
is_set (some _) = true

unfoldable pub create_mutant_run_plan :
    Planner
    → Mutant
    → (net_time : ℕ) → (test_filter : Option (List String)) → (static : Option Bool)
    → (covered_by : Option (List String)) → MutantTestPlan
create_mutant_run_plan p m net_time test_filter static covered_by =
    run net_time (record m { covered_by = covered_by; static = static })
      (record {
        active_mutant = record {
          id = m.id;
          file_name = m.file_name;
          location = m.location;
          mutator_name = m.mutator_name;
          replacement = m.replacement;
        };
        mutant_activation = if is_set test_filter then at_runtime else at_load;
        timeout =
            p.options.times_timeout_factor net_time + p.options.timeout_ms + p.time_overhead_ms;
        test_filter = test_filter;
        sandbox_file_name = p.sandbox_file_for m.file_name;
        hit_limit = elim (lookup m.id p.coverage.hits_by_mutant_id) [
          | none ↦ none
          | some count ↦ some (count * hit_limit_factor)
        ];
        disable_bail = p.options.disable_bail;
        reload_environment = not (is_set test_filter);
      })

abbrev pub is_nonempty {ℓ} : {A : Type ℓ} → List A → Bool
is_nonempty [] = false
is_nonempty (_ ∷ _) = true

abbrev pub static_reason : String
static_reason = "Static mutant (and \"ignoreStatic\" was enabled)"

-- The branches of `planMutant` for a mutant with no status, with coverage reported.
unfoldable pub plan_covered : Planner → Mutant → MutantTestPlan
unfolding create_mutant_run_plan create_mutant_early_result_plan has_static_coverage
plan_covered p m =
    let is_static = has_static_coverage p.coverage m.id in
    let tests = or_else (lookup m.id p.coverage.tests_by_mutant_id) [] in
    let covered_by = to_test_ids tests in
    if not is_static || (p.options.ignore_static && is_nonempty covered_by)
    then create_mutant_run_plan p m (calculate_total_time tests) (some covered_by) (some is_static)
        (some covered_by)
    else if p.options.ignore_static
    then create_mutant_early_result_plan m (some is_static) ignored (some static_reason)
        (some covered_by) none
    else create_mutant_run_plan p m p.time_spent_all_tests none (some is_static) (some covered_by)

unfoldable pub plan_mutant : Planner → Mutant → MutantTestPlan
unfolding plan_covered has_coverage
plan_mutant p m = elim m.status [
  | some status ↦
      create_mutant_early_result_plan m (some (has_static_coverage p.coverage m.id)) status
        m.status_reason m.covered_by m.killed_by
  | none ↦
      if has_coverage p.coverage
      then plan_covered p m
      else create_mutant_run_plan p m p.time_spent_all_tests none none none
]

-- The mutants and the coverage behind the comparison with the earlier report, if there is one.
unfoldable pub incremental_diff :
    TestCoverage
    → Option (IncrementalDiffer × IncrementalReport)
    → List Mutant
    → List Mutant × TestCoverage
unfolding diff
incremental_diff coverage none mutants = (mutants, coverage)
incremental_diff coverage (some (d, report)) mutants =
    let r = diff d mutants coverage report in (r.mutants, r.coverage)

unfoldable pub make_plan :
    Planner → Option (IncrementalDiffer × IncrementalReport) → List Mutant → List MutantTestPlan
unfolding plan_mutant incremental_diff
make_plan p incremental mutants =
    let (mutants', coverage) = incremental_diff p.coverage incremental mutants in
    map (plan_mutant (record p { coverage = coverage })) mutants'
