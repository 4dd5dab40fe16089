-- ===== src/Coverage/Samples.antt =====
-- A dry run of two tests, with coverage for a third that it does not know.
use isep_mutation_levels.Prelude.{ℕ, ◌≡◌, refl, String, ◌&&◌, [], ◌∷◌, none, some}
use isep_mutation_levels.Coverage.Defs.{
  TestResult, success, MutantCoverage, CompleteDryRunResult, test_coverage_from,
}
use isep_mutation_levels.Coverage.Laws.{hits, covers, is_known, reported, test_coverage_from-covers}

abbrev pub test_of : String → ℕ → TestResult
test_of id time = record {
  id = id;
  name = id;
  time_spent_ms = time;
  file_name = none;
  start_position = none;
  status = success;
  failure_message = "";
}

abbrev pub coverage : MutantCoverage
coverage = record {
  static = ("0", 2) ∷ [];
  per_test =
      ("a", ("0", 3) ∷ ("1", 1) ∷ []) ∷ ("b", ("1", 4) ∷ ("2", 0) ∷ []) ∷ ("c", ("2", 7) ∷ []) ∷ [];
}

abbrev pub dry_run : CompleteDryRunResult
dry_run = record { tests = test_of "a" 5 ∷ test_of "b" 6 ∷ []; mutant_coverage = some coverage }

hits_of_one : hits "1" (test_coverage_from dry_run).hits_by_mutant_id ≡ 5
unfolding test_coverage_from
hits_of_one = refl

test_coverage_from-covers_example :
    covers (test_coverage_from dry_run).tests_by_mutant_id "1" "b"
    ≡ (is_known (test_coverage_from dry_run).tests_by_id "b" && reported coverage.per_test "1" "b")
test_coverage_from-covers_example = test_coverage_from-covers dry_run coverage "1" "b" refl
