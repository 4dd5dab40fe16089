-- ===== src/Executor/Report.antt =====
-- mutation-test-report-helper.ts: the result of a mutant, as it is handed to the reporters.
use isep_mutation_levels.Prelude.{String, none, some}
use isep_mutation_levels.Prelude.Int.{pos, ◌+ℤ◌}
use isep_mutation_levels.Api.{
  MutantStatus, killed, survived, compile_error, runtime_error, timeout, Mutant,
}
use isep_mutation_levels.Differ.Positions.{Position, Location}
use isep_mutation_levels.Runner.Results.{
  MutantRunResult, run_error, run_timeout, killed as run_killed, survived as run_survived,
}

-- `CheckResult` of packages/api/src/check.
pub data CheckResult : Type 0 where
  passed : CheckResult
  failed : (reason : String) → CheckResult

-- Lines and columns begin with 1 in a report.
unfoldable pub to_report_position : Position → Position
unfolding ◌+ℤ◌
to_report_position p = record { line = p.line +ℤ pos 1; column = p.column +ℤ pos 1 }

unfoldable pub to_report_location : Location → Location
unfolding to_report_position
to_report_location l = record {
  start = to_report_position l.start;
  end = record {
    line = elim l.end.line [ none ↦ none | some line ↦ some (line +ℤ pos 1) ];
    column = l.end.column +ℤ pos 1;
  };
}

unfoldable pub report_mutant_status : Mutant → MutantStatus → Mutant
unfolding to_report_location
report_mutant_status m status = record m {
  status = some status;
  location = to_report_location m.location;
}

unfoldable pub report_check_failed : Mutant → (reason : String) → Mutant
unfolding to_report_location
report_check_failed m reason = record m {
  status = some compile_error;
  status_reason = some reason;
  location = to_report_location m.location;
}

unfoldable pub report_mutant_run_result : Mutant → MutantRunResult → Mutant
unfolding to_report_location
report_mutant_run_result m (run_error message) = record m {
  status = some runtime_error;
  status_reason = some message;
  location = to_report_location m.location;
}
report_mutant_run_result m (run_killed message by nr_of_tests) = record m {
  status = some killed;
  tests_completed = some nr_of_tests;
  killed_by = some by;
  status_reason = some message;
  location = to_report_location m.location;
}
report_mutant_run_result m (run_timeout reason) = record m {
  status = some timeout;
  status_reason = reason;
  location = to_report_location m.location;
}
report_mutant_run_result m (run_survived nr_of_tests) = record m {
  status = some survived;
  tests_completed = some nr_of_tests;
  location = to_report_location m.location;
}
