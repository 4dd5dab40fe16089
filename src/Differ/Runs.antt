-- ===== src/Differ/Runs.antt =====
-- An incremental run on one file: a mutant whose result is reused, one that is new, and one that is
-- out of the range to mutate.
use isep_mutation_levels.Prelude.{
  ℕ, ◌≡◌, refl, String, Bool, true, false, List, [], ◌∷◌, ◌++◌, map, none, some,
}
use isep_mutation_levels.Prelude.Int.{pos}
use isep_mutation_levels.Api.{killed, survived, Mutant}
use isep_mutation_levels.Coverage.Defs.{TestResult, success, TestCoverage, has_coverage, for_mutant}
use isep_mutation_levels.Differ.Positions.{Text, Location, at}
use isep_mutation_levels.Differ.FileDiff.{equal}
use isep_mutation_levels.Differ.Closing.{
  OpenTest, sort_by_line, close_open, unique_start_positions, close_locations,
}
use isep_mutation_levels.Differ.Report.{OldMutant, IncrementalReport, ranges}
use isep_mutation_levels.Differ.Reuse.{diff_test_coverage, mutant_can_be_reused}
use isep_mutation_levels.Differ.Decisions.{mutant_can_be_reused-diff}
use isep_mutation_levels.Differ.Collect.{IncrementalDiffer, killed_row, coverage_row}
use isep_mutation_levels.Differ.Diff.{mutant_key, diff}
use isep_mutation_levels.Differ.Kept.{forgotten, diff-ids, diff-decided}

program : Unit {0}
unfolding diff sort_by_line close_open unique_start_positions close_locations mutant_can_be_reused
    diff_test_coverage mutant_key has_coverage killed_row coverage_row for_mutant
program = tt

abbrev one_line : (line from to : ℕ) → Location
one_line line from to = record {
  start = at (pos line) (pos from);
  end = record { line = some (pos line); column = pos to };
}

abbrev mutant_at : String → Location → Mutant
mutant_at id l = record {
  id = id;
  file_name = "a.js";
  location = l;
  mutator_name = "BooleanLiteral";
  replacement = "false";
  status = none;
  status_reason = none;
  covered_by = none;
  killed_by = none;
  tests_completed = none;
  static = none;
}

abbrev old_mutant : OldMutant
old_mutant = record {
  id = "7";
  mutator_name = "BooleanLiteral";
  replacement = some "false";
  status = killed;
  status_reason = none;
  static = none;
  tests_completed = none;
  covered_by = some ("t" ∷ []);
  killed_by = some ("t" ∷ []);
}

abbrev test_a : TestResult
test_a = record {
  id = "0";
  name = "a works";
  time_spent_ms = 5;
  file_name = none;
  start_position = none;
  status = success;
  failure_message = "";
}

abbrev coverage : TestCoverage
coverage = record {
  tests_by_mutant_id = ("m", test_a ∷ []) ∷ [];
  tests_by_id = ("0", test_a) ∷ [];
  static_coverage = some [];
  hits_by_mutant_id = [];
}

abbrev text : Text
text = b't' ∷ []

abbrev pub report : IncrementalReport
report = record {
  files =
      (
        "a.js",
        record {
          source = text;
          mutants = (old_mutant, one_line 0 0 4) ∷ (old_mutant, one_line 5 0 4) ∷ [];
        },
      )
      ∷ [];
  test_files =
      (
        "",
        record {
          source = none;
          tests = record { id = "t"; name = "a works"; location = none } ∷ [];
        },
      )
      ∷ [];
}

abbrev pub differ : (force : Bool) → IncrementalDiffer
differ force = record {
  force = force;
  mutate_descriptions = ("a.js", ranges (one_line 0 0 9 ∷ [])) ∷ [];
  paths = record { relative = λ name. name; resolve = λ name. name };
  diff_main = λ old current. (equal, old) ∷ [];
  current_relative_files = ("a.js", text) ∷ [];
}

abbrev pub mutants : List Mutant
mutants = mutant_at "m" (one_line 0 0 4) ∷ mutant_at "n" (one_line 0 5 9) ∷ []

-- The first result is reused, and the one outside of the range kept.
statuses :
    map (λ m. m.status) (diff (differ false) mutants coverage report).mutants
    ≡ some killed ∷ none ∷ some killed ∷ []
unfolding program
statuses = refl

diff-ids_example :
    map (λ m. m.id) (diff (differ false) mutants coverage report).mutants
    ≡ map (λ m. m.id) mutants ++ map (λ e. e.0) (forgotten (differ false) mutants coverage report)
diff-ids_example = diff-ids (differ false) mutants coverage report

-- Retesting is forced: the second mutant stands in its place, without the result that it has in the report.
diff-decided_example :
    (xs ys : List Mutant) × ((diff (differ true) mutants coverage report).mutants
      ≡ xs ++ mutant_at "n" (one_line 0 5 9) ∷ ys)
    × (map (λ x. x.id) xs ≡ "m" ∷ [])
diff-decided_example =
    diff-decided (differ true) (mutant_at "m" (one_line 0 0 4) ∷ [])
      (mutant_at "n" (one_line 0 5 9)) [] coverage report refl

mutant_can_be_reused-diff_example :
    mutant_can_be_reused true survived
      (diff_test_coverage false [] (some ("a" ∷ [])) (some ("a" ∷ "b" ∷ [])))
      none
    ≡ false
mutant_can_be_reused-diff_example =
    mutant_can_be_reused-diff true false survived [] (some ("a" ∷ [])) (some ("a" ∷ "b" ∷ [])) none

abbrev test_at : String → ℕ → OpenTest
test_at name line = (record { id = name; name = name; location = none }, at (pos line) (pos 2))

abbrev opened : List OpenTest
opened = test_at "c" 9 ∷ test_at "a" 1 ∷ test_at "b" 1 ∷ []
