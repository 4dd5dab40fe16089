-- ===== src/Executor/Reports.antt =====
-- mutation-test-report-helper.ts: the report of all results, and what is done with it. Paths, the project's
-- files and the metrics of a report are parameters.
use isep_mutation_levels.Prelude.{
  ℕ, ◌+◌, String, Bool, List, [], ◌∷◌, ◌++◌, Option, none, some, map, elem, ◌=s=◌, if◌then◌else◌,
  lookup, insert, or_else,
}
use isep_mutation_levels.Prelude.Int.{pos}
use isep_mutation_levels.Api.{Mutant}
use isep_mutation_levels.Coverage.Defs.{TestResult}
use isep_mutation_levels.Differ.Positions.{Position}
use isep_mutation_levels.Differ.Keys.{print}
use isep_mutation_levels.Differ.Report.{normalize_file_name}
use isep_mutation_levels.Executor.Report.{to_report_position}

-- `schema.FileResult`, `schema.TestDefinition` and `schema.TestFile`.
pub record ReportedFile : Type 0 where
  pub language : String
  pub source : String
  pub mutants : List Mutant

pub record ReportedTest : Type 0 where
  pub id : String
  pub name : String
  pub location : Option Position

pub record ReportedTestFile : Type 0 where
  pub source : Option String
  pub tests : List ReportedTest

-- What differs from report to report.
pub record MutationTestReport : Type 0 where
  pub files : List (String × ReportedFile)
  pub test_files : List (String × ReportedTestFile)

-- `path.relative` from the working directory, `path.extname` in lower case, and the original contents of the
-- files of the project.
pub record ProjectFiles : Type 0 where
  pub relative : String → String
  pub extension : String → String
  pub read_original : String → Option String

-- `testIdMap`.
abbrev pub number_tests :
    (index : ℕ) → List TestResult → List (String × String) → List (String × String)
number_tests n [] ids = ids
number_tests n (t ∷ tests) ids = number_tests (n + 1) tests (insert t.id (print (pos n)) ids)

unfoldable pub remap_test_id : List TestResult → String → String
remap_test_id tests id = or_else (lookup id (number_tests 0 tests [])) id

abbrev pub remap_test_ids : (String → String) → Option (List String) → Option (List String)
remap_test_ids remap none = none
remap_test_ids remap (some ids) = some (map remap ids)

unfoldable pub determine_language : (extension : String) → String
determine_language extension =
    if extension =s= ".ts"
    then "typescript"
    else if extension =s= ".tsx"
    then "typescript"
    else if extension =s= ".html"
    then "html"
    else if extension =s= ".vue"
    then "html"
    else "javascript"

-- A reported mutant stands under the name of its file.
unfoldable pub to_mutant_result : (String → String) → Mutant → Mutant
to_mutant_result remap m = record m {
  killed_by = remap_test_ids remap m.killed_by;
  covered_by = remap_test_ids remap m.covered_by;
}

unfoldable pub to_test_definition : (String → String) → TestResult → ReportedTest
to_test_definition remap t = record {
  id = remap t.id;
  name = t.name;
  location = elim t.start_position [ none ↦ none | some p ↦ some (to_report_position p) ];
}

-- An absent file name counts as the empty one.
unfoldable pub normalize_report_file_name : ProjectFiles → String → String
normalize_report_file_name project name =
    if name =s= "" then "" else normalize_file_name (project.relative name)

unfoldable pub to_file_result : ProjectFiles → String → ReportedFile
unfolding determine_language
to_file_result project name = record {
  language = determine_language (project.extension name);
  source = or_else (project.read_original name) "";
  mutants = [];
}

unfoldable pub to_test_file : ProjectFiles → String → ReportedTestFile
to_test_file project name = record {
  source = if name =s= "" then none else project.read_original name;
  tests = [];
}

-- `acc[name] ?? (acc[name] = fresh)`, and the entry filled.
module _ {ℓ κ} {X : Type ℓ} {F : Type κ} (key : X → String) (fresh : X → F) (push : X → F → F) where
  unfoldable pub collect_by : List X → List (String × F) → List (String × F)
  collect_by [] acc = acc
  collect_by (x ∷ xs) acc =
      collect_by xs (insert (key x) (push x (or_else (lookup (key x) acc) (fresh x))) acc)

abbrev pub file_name_of : TestResult → String
file_name_of t = or_else t.file_name ""

abbrev pub push_mutant : (String → String) → Mutant → ReportedFile → ReportedFile
push_mutant remap m f = record f { mutants = f.mutants ++ to_mutant_result remap m ∷ [] }

unfoldable pub to_file_results :
    ProjectFiles → (String → String) → List Mutant → List (String × ReportedFile)
unfolding collect_by
to_file_results project remap results =
    collect_by (λ m. normalize_report_file_name project m.file_name)
      (λ m. to_file_result project m.file_name) (push_mutant remap) results []

-- `new Set(...)`.
abbrev pub distinct_names : List String → (seen : List String) → List String
distinct_names [] seen = seen
distinct_names (n ∷ names) seen =
    distinct_names names (if elem n seen then seen else seen ++ n ∷ [])

abbrev pub test_files_by_name :
    ProjectFiles → List String → List (String × ReportedTestFile) → List (String × ReportedTestFile)
test_files_by_name project [] files = files
test_files_by_name project (n ∷ names) files =
    test_files_by_name project names
      (insert (normalize_report_file_name project n) (to_test_file project n) files)

abbrev pub test_files : ProjectFiles → List TestResult → List (String × ReportedTestFile)
test_files project tests =
    test_files_by_name project (distinct_names (map file_name_of tests) []) []

-- Every test finds its file, so that the empty one does not count.
abbrev pub found_test_file :
    ProjectFiles → List (String × ReportedTestFile) → TestResult → ReportedTestFile
found_test_file project files t =
    let name = normalize_report_file_name project (file_name_of t) in
    record (or_else (lookup name files) (record { source = none; tests = [] })) { tests = [] }

abbrev pub push_test : (String → String) → TestResult → ReportedTestFile → ReportedTestFile
push_test remap t f = record f { tests = f.tests ++ to_test_definition remap t ∷ [] }

unfoldable pub to_test_files :
    ProjectFiles → (String → String) → List TestResult → List (String × ReportedTestFile)
unfolding collect_by
to_test_files project remap tests =
    collect_by (λ t. normalize_report_file_name project (file_name_of t))
      (found_test_file project (test_files project tests)) (push_test remap) tests []

unfoldable pub mutation_test_report :
    ProjectFiles → (tests : List TestResult) → (results : List Mutant) → MutationTestReport
unfolding to_file_results to_test_files remap_test_id
mutation_test_report project tests results = record {
  files = to_file_results project (remap_test_id tests) results;
  test_files = to_test_files project (remap_test_id tests) tests;
}

-- What `reportAll` does, in its order.
pub data Effect : Type 0 where
  on_mutation_test_report_ready : MutationTestReport → Effect
  write_incremental_file : MutationTestReport → Effect
  set_exit_code : ℕ → Effect

-- `is_below` is the test of the mutation score against a threshold; `none` is a threshold that is no number.
unfoldable pub determine_exit_code : {T : Type 0} → (is_below : T → Bool) → Option T → List Effect
determine_exit_code is_below none = []
determine_exit_code is_below (some breaking) =
    if is_below breaking then set_exit_code 1 ∷ [] else []

unfoldable pub report_all :
    {T : Type 0}
    → ProjectFiles
    → (is_below : MutationTestReport → T → Bool) → (incremental : Bool) → Option T
    → List TestResult
    → List Mutant
    → List Effect
unfolding mutation_test_report determine_exit_code
report_all project is_below incremental breaking tests results =
    let report = mutation_test_report project tests results in
    on_mutation_test_report_ready report
      ∷ (if incremental then write_incremental_file report ∷ [] else [])
    ++ determine_exit_code (is_below report) breaking
