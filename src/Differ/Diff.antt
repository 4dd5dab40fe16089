-- ===== src/Differ/Diff.antt =====
-- incremental-differ.ts: `IncrementalDiffer.diff`.
use isep_mutation_levels.Prelude.{
  ℕ, ◌+◌, String, Bool, false, not, ◌&&◌, List, [], ◌∷◌, ◌++◌, map, Option, none, some, elem, add,
  lookup, or_else, if◌then◌else◌,
}
use isep_mutation_levels.Api.{Mutant}
use isep_mutation_levels.Coverage.Defs.{
  TestCoverage, has_coverage, has_static_coverage, add_coverage, for_mutant,
}
use isep_mutation_levels.Differ.Keys.{mutant_to_identifying_key}
use isep_mutation_levels.Differ.Statistics.{Statistics, no_statistics, addition, count}
use isep_mutation_levels.Differ.Report.{IncrementalReport, is_in_mutated_scope}
use isep_mutation_levels.Differ.Reuse.{diff_test_coverage, mutant_can_be_reused}
use isep_mutation_levels.Differ.Collect.{
  IncrementalDiffer, Reusable, OldTest, TestInfo, relative_name, collect_reusable_mutants,
  collect_reusable_tests, killed_row, coverage_row, key_of, collect_current_tests,
  count_added_tests, keep_tests, test_keys_to_id,
}

-- The maps and sets that are ready before the mutants are compared.
pub record Prepared : Type 0 where
  pub reusable : List (String × Reusable)
  pub old_tests_by_id : List (String × OldTest)
  pub new_test_keys : List String
  pub test_infos : List (String × TestInfo)
  pub coverage : TestCoverage

unfoldable pub mutant_key : IncrementalDiffer → Mutant → String
unfolding mutant_to_identifying_key
mutant_key d m =
    mutant_to_identifying_key m.mutator_name (some m.replacement) m.location
      (relative_name d (some m.file_name))

abbrev pub is_pending : IncrementalDiffer → Mutant → Bool
is_pending d m = elim m.status [ none ↦ not d.force | some _ ↦ false ]

-- Whether the old result of the mutant holds still.
unfoldable pub can_be_reused : IncrementalDiffer → Prepared → Mutant → Reusable → Bool
unfolding diff_test_coverage mutant_can_be_reused
can_be_reused d p m r =
    let covering : Option (List String) = elim (for_mutant p.coverage m.id) [
      | none ↦ none
      | some tests ↦ some (map (key_of d) tests)
    ] in
    mutant_can_be_reused (has_coverage p.coverage) r.old.status
      (diff_test_coverage (has_static_coverage p.coverage m.id) p.new_test_keys
        (some (coverage_row p.old_tests_by_id r.old)) covering)
      (some (killed_row p.old_tests_by_id r.old))

abbrev pub with_result : Prepared → Mutant → Reusable → Mutant
with_result p m r = record m {
  status = some r.old.status;
  status_reason = r.old.status_reason;
  tests_completed = r.old.tests_completed;
  covered_by = some (map (λ t. t.id) (or_else (for_mutant p.coverage m.id) []));
  killed_by = some (test_keys_to_id p.test_infos (killed_row p.old_tests_by_id r.old));
}

-- A current mutant, with the old result if that is reused, and how many results are.
unfoldable pub diff_mutant : IncrementalDiffer → Prepared → Mutant → Mutant × ℕ
unfolding can_be_reused
diff_mutant d p m =
    if is_pending d m
    then elim (lookup (mutant_key d m) p.reusable) [
      | none ↦ (m, 0)
      | some r ↦ if can_be_reused d p m r then (with_result p m r, 1) else (m, 0)
    ]
    else (m, 0)

-- A pending mutant with no old result counts as added.
abbrev pub count_mutant : IncrementalDiffer → Prepared → Mutant → Statistics → Statistics
count_mutant d p m s =
    if is_pending d m
    then elim (lookup (mutant_key d m) p.reusable) [
      | none ↦ count (relative_name d (some m.file_name)) addition 1 s
      | some _ ↦ s
    ]
    else s

-- The loop over the current mutants.
unfoldable pub diff_mutants :
    IncrementalDiffer → Prepared → List Mutant → Statistics → List Mutant × (ℕ × Statistics)
unfolding diff_mutant
diff_mutants d p [] s = ([], (0, s))
diff_mutants d p (m ∷ ms) s =
    let (m', one) = diff_mutant d p m in
    let (ms', (reused, s')) = diff_mutants d p ms (count_mutant d p m s) in
    (m' ∷ ms', (one + reused, s'))

abbrev pub key_set_of : IncrementalDiffer → List Mutant → List String → List String
key_set_of d [] acc = acc
key_set_of d (m ∷ ms) acc = key_set_of d ms (add (mutant_key d m) acc)

-- An old result with no current mutant, in a file or range that this run does not mutate.
unfoldable pub is_forgotten :
    IncrementalDiffer → (current_keys : List String) → String × Reusable → Bool
unfolding is_in_mutated_scope
is_forgotten d current_keys (key, r) =
    not (elem key current_keys)
    && not (is_in_mutated_scope d.mutate_descriptions r.relative_file_name r.location)

unfoldable pub forgotten_mutant : IncrementalDiffer → Prepared → String × Reusable → Mutant
forgotten_mutant d p (key, r) = record {
  id = key;
  file_name = d.paths.resolve r.relative_file_name;
  location = r.location;
  mutator_name = r.old.mutator_name;
  replacement = or_else r.old.replacement r.old.mutator_name;
  status = some r.old.status;
  status_reason = r.old.status_reason;
  covered_by = some (test_keys_to_id p.test_infos (coverage_row p.old_tests_by_id r.old));
  killed_by = some (test_keys_to_id p.test_infos (killed_row p.old_tests_by_id r.old));
  tests_completed = r.old.tests_completed;
  static = r.old.static;
}

-- The loop over the old results.
unfoldable pub keep_forgotten :
    IncrementalDiffer
    → Prepared
    → (current_keys : List String) → List (String × Reusable)
    → TestCoverage
    → List Mutant × TestCoverage
unfolding is_forgotten forgotten_mutant add_coverage
keep_forgotten d p current_keys [] coverage = ([], coverage)
keep_forgotten d p current_keys (entry ∷ entries) coverage =
    let m = forgotten_mutant d p entry in
    let (ms, coverage') = keep_forgotten d p current_keys entries (
      if is_forgotten d current_keys entry
      then add_coverage coverage m.id (or_else m.covered_by [])
      else coverage) in
    (if is_forgotten d current_keys entry then m ∷ ms else ms, coverage')

unfoldable pub prepare :
    IncrementalDiffer → TestCoverage → IncrementalReport → Prepared × (Statistics × Statistics)
unfolding collect_reusable_mutants collect_reusable_tests collect_current_tests keep_tests
prepare d coverage report =
    let (reusable, mutant_statistics) = collect_reusable_mutants d report.files [] no_statistics in
    let (old, removed) =
      collect_reusable_tests d report.test_files (record { by_id = []; by_key = [] })
        no_statistics in
    let infos = collect_current_tests d coverage.tests_by_id [] in
    let test_statistics = count_added_tests old.by_id infos removed in
    let (test_infos, coverage') = keep_tests d old.by_key (infos, coverage) in
    (
      record {
        reusable = reusable;
        old_tests_by_id = old.by_id;
        new_test_keys = map (λ e. key_of d e.1) coverage.tests_by_id;
        test_infos = test_infos;
        coverage = coverage';
      },
      (mutant_statistics, test_statistics),
    )

pub record DiffResult : Type 0 where
  pub mutants : List Mutant
  pub coverage : TestCoverage
  pub mutant_statistics : Statistics
  pub test_statistics : Statistics
  pub reused_mutant_count : ℕ

unfoldable pub diff :
    IncrementalDiffer
    → (current_mutants : List Mutant) → TestCoverage
    → IncrementalReport
    → DiffResult
unfolding prepare diff_mutants keep_forgotten
diff d current_mutants coverage report =
    let (p, (mutant_statistics, test_statistics)) = prepare d coverage report in
    let (mutants, (reused, mutant_statistics')) =
      diff_mutants d p current_mutants mutant_statistics in
    let (forgotten, coverage') =
      keep_forgotten d p (key_set_of d current_mutants []) p.reusable p.coverage in
    record {
      mutants = mutants ++ forgotten;
      coverage = coverage';
      mutant_statistics = mutant_statistics';
      test_statistics = test_statistics;
      reused_mutant_count = reused;
    }
