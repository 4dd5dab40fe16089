-- ===== src/Coverage/Defs.antt =====
-- test-coverage.ts: `TestCoverage` and `testCoverageFrom`. The results in a set of tests come from
-- one map by their ids, so that an id stands for the object in such a set.
use isep_mutation_levels.Prelude.{
  ℕ, ◌+◌, String, Bool, true, false, List, [], ◌∷◌, ◌++◌, map, Option, none, some, lookup, insert,
  any, ltb, ◌=s=◌, or_else, if◌then◌else◌, keep_some,
}
use isep_mutation_levels.Differ.Positions.{Position}

-- packages/api/src/test-runner/test-result.ts.
pub data TestStatus : Type 0 where
  success failed skipped : TestStatus

pub record TestResult : Type 0 where
  pub id : String
  pub name : String
  pub time_spent_ms : ℕ
  pub file_name : Option String
  pub start_position : Option Position
  pub status : TestStatus
  pub failure_message : String

-- packages/api/src/core/mutant-coverage.ts: hits by mutant id.
abbrev pub CoverageData : Type 0
CoverageData = List (String × ℕ)

pub record MutantCoverage : Type 0 where
  pub static : CoverageData
  pub per_test : List (String × CoverageData)

pub record CompleteDryRunResult : Type 0 where
  pub tests : List TestResult
  pub mutant_coverage : Option MutantCoverage

pub record TestCoverage : Type 0 where
  pub tests_by_mutant_id : List (String × List TestResult)
  pub tests_by_id : List (String × TestResult)
  pub static_coverage : Option CoverageData
  pub hits_by_mutant_id : List (String × ℕ)

unfoldable pub has_coverage : TestCoverage → Bool
has_coverage c = elim c.static_coverage [ none ↦ false | some _ ↦ true ]

unfoldable pub has_static_coverage : TestCoverage → String → Bool
has_static_coverage c mutant = elim c.static_coverage [
  | none ↦ false
  | some static ↦ ltb 0 (or_else (lookup mutant static) 0)
]

-- `Set.prototype.add` of a test.
abbrev pub add_result : TestResult → List TestResult → List TestResult
add_result t ts = if any (λ s. s.id =s= t.id) ts then ts else ts ++ t ∷ []

abbrev pub add_results : List TestResult → List TestResult → List TestResult
add_results [] ts = ts
add_results (u ∷ us) ts = add_results us (add_result u ts)

unfoldable pub add_test : TestCoverage → TestResult → TestCoverage
add_test c t = record c { tests_by_id = insert t.id t c.tests_by_id }

unfoldable pub add_coverage : TestCoverage → String → List String → TestCoverage
add_coverage c mutant test_ids =
    let tests = or_else (lookup mutant c.tests_by_mutant_id) [] in
    let found = keep_some (λ id. lookup id c.tests_by_id) test_ids in
    record c { tests_by_mutant_id = insert mutant (add_results found tests) c.tests_by_mutant_id }

unfoldable pub for_mutant : TestCoverage → String → Option (List TestResult)
for_mutant c mutant = lookup mutant c.tests_by_mutant_id

-- `tests.reduce((acc, test) => acc.set(test.id, test), new Map())`.
unfoldable pub tests_by_id_from :
    List TestResult → List (String × TestResult) → List (String × TestResult)
tests_by_id_from [] acc = acc
tests_by_id_from (t ∷ ts) acc = tests_by_id_from ts (insert t.id t acc)

abbrev pub ByMutant : Type 0
ByMutant = List (String × List TestResult)

-- The mutants that one test covers.
unfoldable pub cover_by : TestResult → CoverageData → ByMutant → ByMutant
cover_by t [] acc = acc
cover_by t ((mutant, count) ∷ coverage) acc =
    cover_by t coverage (
      if ltb 0 count
      then insert mutant (add_result t (or_else (lookup mutant acc) [])) acc
      else acc)

-- A test id that the dry run does not know is warned about and skipped.
unfoldable pub tests_by_mutant_id_from :
    List (String × TestResult) → List (String × CoverageData) → ByMutant → ByMutant
unfolding cover_by
tests_by_mutant_id_from by_id [] acc = acc
tests_by_mutant_id_from by_id ((test_id, coverage) ∷ per_test) acc =
    tests_by_mutant_id_from by_id per_test
      (elim (lookup test_id by_id) [ none ↦ acc | some t ↦ cover_by t coverage acc ])

unfoldable pub count_hits : CoverageData → CoverageData → CoverageData
count_hits [] acc = acc
count_hits ((mutant, count) ∷ coverage) acc =
    count_hits coverage (insert mutant (or_else (lookup mutant acc) 0 + count) acc)

unfoldable pub count_all_hits : List CoverageData → CoverageData → CoverageData
unfolding count_hits
count_all_hits [] acc = acc
count_all_hits (coverage ∷ rest) acc = count_all_hits rest (count_hits coverage acc)

unfoldable pub test_coverage_from : CompleteDryRunResult → TestCoverage
unfolding tests_by_id_from tests_by_mutant_id_from count_all_hits
test_coverage_from r =
    let by_id = tests_by_id_from r.tests [] in
    elim r.mutant_coverage [
      | none ↦ record {
        tests_by_mutant_id = [];
        tests_by_id = by_id;
        static_coverage = none;
        hits_by_mutant_id = [];
      }
      | some c ↦ record {
        tests_by_mutant_id = tests_by_mutant_id_from by_id c.per_test [];
        tests_by_id = by_id;
        static_coverage = some c.static;
        hits_by_mutant_id = count_all_hits (c.static ∷ map (λ e. e.1) c.per_test) [];
      }
    ]
