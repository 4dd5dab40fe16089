-- ===== src/Differ/Collect.antt =====
-- incremental-differ.ts: what `IncrementalDiffer.diff` collects of the earlier report and of the
-- tests before it compares mutants.
use isep_mutation_levels.Prelude.{
  String, Bool, not, List, [], ◌∷◌, map, Option, none, some, length, keep_some, elem, add, lookup,
  insert, or_else, ◌=s=◌, if◌then◌else◌,
}
use isep_mutation_levels.Coverage.Defs.{TestResult, success, TestCoverage, add_test}
use isep_mutation_levels.Differ.Positions.{Text, Position, Location}
use isep_mutation_levels.Differ.FileDiff.{DiffMain, perform_file_diff}
use isep_mutation_levels.Differ.Keys.{mutant_to_identifying_key, test_to_identifying_key}
use isep_mutation_levels.Differ.Statistics.{Statistics, addition, removal, count}
use isep_mutation_levels.Differ.Closing.{TestDefinition, LocatedTest, close_locations}
use isep_mutation_levels.Differ.Report.{
  OldMutant, FileResult, TestFile, MutateDescription, Paths, to_relative_normalized_file_name,
}

-- What the differ is built from, and the files as they are now by their relative names.
pub record IncrementalDiffer : Type 0 where
  pub force : Bool
  pub mutate_descriptions : List (String × MutateDescription)
  pub paths : Paths
  pub diff_main : DiffMain
  pub current_relative_files : List (String × Text)

pub record Reusable : Type 0 where
  pub old : OldMutant
  pub location : Location
  pub relative_file_name : String

pub record OldTest : Type 0 where
  pub key : String
  pub name : String
  pub start : Option Position
  pub relative_file_name : String

abbrev pub relative_name : IncrementalDiffer → Option String → String
relative_name d name = to_relative_normalized_file_name d.paths name

-- An empty text is as falsy as none.
abbrev pub if_present : Option Text → Option Text
if_present none = none
if_present (some []) = none
if_present (some (c ∷ text)) = some (c ∷ text)

abbrev pub put_mutants :
    String → List (OldMutant × Location) → List (String × Reusable) → List (String × Reusable)
put_mutants relative [] acc = acc
put_mutants relative ((m, l) ∷ results) acc = put_mutants relative results (
    insert (mutant_to_identifying_key m.mutator_name m.replacement l relative)
      (record { old = m; location = l; relative_file_name = relative }) acc)

unfoldable pub collect_reusable_mutants :
    IncrementalDiffer
    → List (String × FileResult)
    → List (String × Reusable)
    → Statistics
    → List (String × Reusable) × Statistics
unfolding perform_file_diff count to_relative_normalized_file_name mutant_to_identifying_key
collect_reusable_mutants d [] acc s = (acc, s)
collect_reusable_mutants d ((name, file) ∷ files) acc s =
    let relative = relative_name d (some name) in
    elim (if_present (lookup relative d.current_relative_files)) [
      | none ↦ collect_reusable_mutants d files acc (count relative removal (length file.mutants) s)
      | some source ↦
          let (results, remove_count) =
            perform_file_diff d.diff_main file.source source file.mutants in
          collect_reusable_mutants d files (put_mutants relative results acc)
            (count relative removal remove_count s)
    ]

-- The old tests by their ids and by their keys.
pub record OldTests : Type 0 where
  pub by_id : List (String × OldTest)
  pub by_key : List (String × OldTest)

abbrev pub put_test : String → TestDefinition → Option Position → OldTests → OldTests
put_test relative test start acc =
    let key = test_to_identifying_key test.name none start relative in
    let info : OldTest = record {
      key = key;
      name = test.name;
      start = start;
      relative_file_name = relative;
    } in
    record { by_id = insert test.id info acc.by_id; by_key = insert key info acc.by_key }

abbrev pub put_located : String → List LocatedTest → OldTests → OldTests
put_located relative [] acc = acc
put_located relative ((test, l) ∷ tests) acc =
    put_located relative tests (put_test relative test (some l.start) acc)

abbrev pub start_of : TestDefinition → Option Position
start_of test = elim test.location [ none ↦ none | some l ↦ some l.start ]

abbrev pub put_tests : String → List TestDefinition → OldTests → OldTests
put_tests relative [] acc = acc
put_tests relative (test ∷ tests) acc =
    put_tests relative tests (put_test relative test (start_of test) acc)

-- One file of tests: removed, compared, or taken as it is where a text is missing.
unfoldable pub collect_test_file :
    IncrementalDiffer → String → TestFile → OldTests → Statistics → OldTests × Statistics
unfolding perform_file_diff count close_locations to_relative_normalized_file_name
    test_to_identifying_key
collect_test_file d name file acc s =
    let relative = relative_name d (some name) in
    elim (lookup relative d.current_relative_files) [
      | none ↦
          if not (name =s= "")
          then (acc, count relative removal (length file.tests) s)
          else (put_tests relative file.tests acc, s)
      | some current ↦ elim file.source [
        | none ↦ (put_tests relative file.tests acc, s)
        | some source ↦
            let (results, remove_count) =
              perform_file_diff d.diff_main source current (close_locations file.tests) in
            (put_located relative results acc, count relative removal remove_count s)
      ]
    ]

unfoldable pub collect_reusable_tests :
    IncrementalDiffer → List (String × TestFile) → OldTests → Statistics → OldTests × Statistics
unfolding collect_test_file
collect_reusable_tests d [] acc s = (acc, s)
collect_reusable_tests d ((name, file) ∷ files) acc s =
    let (acc', s') = collect_test_file d name file acc s in collect_reusable_tests d files acc' s'

-- `new Set(ids?.map((id) => oldTestsById.get(id)?.key).filter(notEmpty))`.
abbrev pub key_set : List (String × OldTest) → List String → List String → List String
key_set by_id [] acc = acc
key_set by_id (id ∷ ids) acc = elim (lookup id by_id) [
  | none ↦ key_set by_id ids acc
  | some t ↦ key_set by_id ids (add t.key acc)
]

abbrev pub add_all : List String → List String → List String
add_all [] acc = acc
add_all (k ∷ ks) acc = add_all ks (add k acc)

-- The tests that killed a mutant, and those that covered it, the killing ones included.
unfoldable pub killed_row : List (String × OldTest) → OldMutant → List String
killed_row by_id m = key_set by_id (or_else m.killed_by []) []

unfoldable pub coverage_row : List (String × OldTest) → OldMutant → List String
unfolding killed_row
coverage_row by_id m = add_all (killed_row by_id m) (key_set by_id (or_else m.covered_by []) [])

-- `testResult` by its key: the key identifies the test that the map holds.
unfoldable pub key_of : IncrementalDiffer → TestResult → String
unfolding to_relative_normalized_file_name test_to_identifying_key
key_of d t = test_to_identifying_key t.name t.start_position none (relative_name d t.file_name)

pub record TestInfo : Type 0 where
  pub test : TestResult
  pub relative_file_name : String

unfoldable pub collect_current_tests :
    IncrementalDiffer
    → List (String × TestResult)
    → List (String × TestInfo)
    → List (String × TestInfo)
unfolding key_of
collect_current_tests d [] acc = acc
collect_current_tests d ((id, t) ∷ tests) acc = collect_current_tests d tests (
    insert (key_of d t) (record { test = t; relative_file_name = relative_name d t.file_name }) acc)

abbrev pub count_added_tests :
    List (String × OldTest) → List (String × TestInfo) → Statistics → Statistics
count_added_tests by_id [] s = s
count_added_tests by_id ((key, info) ∷ infos) s =
    count_added_tests by_id infos (
      if elem key (map (λ e. e.1.key) by_id) then s else count info.relative_file_name addition 1 s)

-- The test of an earlier run that did not run this time.
abbrev pub forgotten_test : IncrementalDiffer → String → OldTest → TestResult
forgotten_test d key t = record {
  id = key;
  name = t.name;
  time_spent_ms = 0;
  file_name = some (d.paths.resolve t.relative_file_name);
  start_position = t.start;
  status = success;
  failure_message = "";
}

abbrev pub Tests : Type 0
Tests = List (String × TestInfo) × TestCoverage

unfoldable pub keep_tests : IncrementalDiffer → List (String × OldTest) → Tests → Tests
unfolding add_test
keep_tests d [] (infos, coverage) = (infos, coverage)
keep_tests d ((key, t) ∷ tests) (infos, coverage) = elim (lookup key infos) [
  | some _ ↦ keep_tests d tests (infos, coverage)
  | none ↦
      let test = forgotten_test d key t in
      keep_tests d tests (
        insert key (record { test = test; relative_file_name = t.relative_file_name }) infos,
        add_test coverage test,
      )
]

unfoldable pub test_keys_to_id : List (String × TestInfo) → List String → List String
test_keys_to_id infos keys = map (λ info. info.test.id) (keep_some (λ key. lookup key infos) keys)
