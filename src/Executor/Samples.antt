-- ===== src/Executor/Samples.antt =====
-- Three plans: an early result, one with no tests and one that is run.
use isep_mutation_levels.Prelude.{
  ◌+◌, ap, ◌≡◌, refl, String, Bool, true, false, List, [], ◌∷◌, map, lookup, Option, none, some,
  ◌=s=◌, append-nil,
}
use isep_mutation_levels.Executor.Reports.{
  ProjectFiles, mutation_test_report, to_file_results, to_file_result, normalize_report_file_name,
  to_mutant_result, remap_test_id,
}
use isep_mutation_levels.Executor.Collected.{entries}
use isep_mutation_levels.Differ.Keys.{print}
use isep_mutation_levels.Differ.Report.{normalize_file_name}
use isep_mutation_levels.Api.{Mutant, ignored, no_coverage, survived}
use isep_mutation_levels.Coverage.Samples.{test_of}
use isep_mutation_levels.Planner.Samples.{mutant_of}
use isep_mutation_levels.Planner.Defs.{
  MutantTestPlan, early_result, run, MutantRunOptions, at_runtime,
}
use isep_mutation_levels.Runner.Results.{survived as run_survived}
use isep_mutation_levels.Executor.Report.{CheckResult, passed, failed}
use isep_mutation_levels.Executor.Execute.{RunPlan, Workers, ExecutorOptions, execute}
use isep_mutation_levels.Executor.Results.{
  result_count, run_count, answer_count, one_if, execute-count,
}
use isep_mutation_levels.Executor.Facade.{facade_check}
use isep_mutation_levels.Executor.Answers.{facade_check-answers}

abbrev options_of : String → Option (List String) → Bool → MutantRunOptions
options_of id test_filter reload = record {
  active_mutant = record {
    id = id;
    file_name = "a.js";
    location = (mutant_of id none).location;
    mutator_name = "BooleanLiteral";
    replacement = "false";
  };
  mutant_activation = at_runtime;
  timeout = 5000;
  test_filter = test_filter;
  sandbox_file_name = "a.js";
  hit_limit = none;
  disable_bail = false;
  reload_environment = reload;
}

abbrev plans : List MutantTestPlan
plans =
    early_result (mutant_of "0" (some ignored))
    ∷ run 0 (mutant_of "1" none) (options_of "1" (some []) false)
    ∷ run 9 (mutant_of "2" none) (options_of "2" (some ("t" ∷ [])) false)
    ∷ []

abbrev all_pass : List RunPlan → List (RunPlan × CheckResult)
all_pass [] = []
all_pass (r ∷ rs) = (r, passed) ∷ all_pass rs

abbrev workers : Workers
workers = record {
  check = λ name rs. all_pass rs;
  mutant_run = λ options. run_survived 1;
  buffer_time = λ rs. rs ∷ [];
}

abbrev options : ExecutorOptions
options = record { dry_run_only = false; allow_empty = false; checkers = "typescript" ∷ [] }

statuses :
    map (λ m. m.status) (execute workers options (test_of "t" 9 ∷ []) plans)
    ≡ some survived ∷ some no_coverage ∷ some ignored ∷ []
unfolding execute
statuses = refl

answers : (p : String → Bool) (rs : List RunPlan) → answer_count p (all_pass rs) ≡ run_count p rs
answers p [] = refl
answers p (r ∷ rs) = ap (λ n. one_if (p r.0.id) + n) (answers p rs)

execute-count_example :
    result_count (λ id. id =s= "2") (execute workers options (test_of "t" 9 ∷ []) plans) ≡ 1
execute-count_example =
    execute-count (λ id. id =s= "2") workers options (test_of "t" 9 ∷ []) plans refl
      (λ name rs. answers (λ id. id =s= "2") rs) (λ rs. append-nil rs)

abbrev buffer : List RunPlan
buffer =
    (mutant_of "1" none, options_of "1" none true)
    ∷ (mutant_of "2" none, options_of "2" none false)
    ∷ []

abbrev answered : List (String × CheckResult)
answered = ("2", passed) ∷ ("1", failed "no type") ∷ []

facade_check-answers_example :
    answer_count
      (λ id. id =s= "1")
      (((mutant_of "2" none, options_of "2" none false), passed)
        ∷ ((mutant_of "1" none, options_of "1" none true), failed "no type")
        ∷ [])
    ≡ 1
unfolding facade_check
facade_check-answers_example = facade_check-answers (λ id. id =s= "1") answered buffer _ refl refl

abbrev sources : ProjectFiles
sources = record {
  relative = λ name. name;
  extension = λ name. ".js";
  read_original = λ name. none;
}

abbrev reported : List Mutant
reported =
    record (mutant_of "1" (some survived)) { covered_by = some ("t" ∷ []) }
    ∷ mutant_of "2" (some survived)
    ∷ []

reported_ids :
    map
      (λ m. m.covered_by)
      (entries
        (λ f. f.mutants)
        (lookup "a.js"
          (mutation_test_report sources (test_of "s" 1 ∷ test_of "t" 1 ∷ []) reported).files))
    ≡ some ("1" ∷ []) ∷ none ∷ []
unfolding mutation_test_report to_file_results to_file_result normalize_report_file_name
    to_mutant_result remap_test_id print normalize_file_name
reported_ids = refl
