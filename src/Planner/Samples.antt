-- ===== src/Planner/Samples.antt =====
-- Plans for mutants of a dry run: a static one, one that a test covers and one that is ignored.
use isep_mutation_levels.Prelude.{◌+◌, ◌≡◌, refl, String, true, false, [], ◌∷◌, Option, none, some}
use isep_mutation_levels.Prelude.Int.{pos}
use isep_mutation_levels.Differ.Positions.{at}
use isep_mutation_levels.Coverage.Defs.{test_coverage_from}
use isep_mutation_levels.Coverage.Samples.{dry_run}
use isep_mutation_levels.Api.{MutantStatus, Mutant}
use isep_mutation_levels.Planner.Defs.{Planner, create_planner, plan_mutant}
use isep_mutation_levels.Planner.Plans.{filter_of, IsSound, plan_mutant-IsSound}

abbrev pub mutant_of : String → Option MutantStatus → Mutant
mutant_of id status = record {
  id = id;
  file_name = "a.js";
  location = record {
    start = at (pos 0) (pos 0);
    end = record { line = some (pos 0); column = pos 1 };
  };
  mutator_name = "BooleanLiteral";
  replacement = "false";
  status = status;
  status_reason = none;
  covered_by = none;
  killed_by = none;
  tests_completed = none;
  static = none;
}

abbrev planner : Planner
planner =
    create_planner (test_coverage_from dry_run)
      (record {
        ignore_static = true;
        disable_bail = false;
        timeout_ms = 5000;
        times_timeout_factor = λ n. n + n;
      })
      10 (λ name. name)

filter_of_hybrid : filter_of (plan_mutant planner (mutant_of "0" none)) ≡ some ("a" ∷ [])
unfolding plan_mutant create_planner test_coverage_from
filter_of_hybrid = refl

plan_mutant-IsSound_example :
    IsSound planner (mutant_of "1" none) (plan_mutant planner (mutant_of "1" none))
plan_mutant-IsSound_example = plan_mutant-IsSound planner (mutant_of "1" none)
