-- ===== src/Differ/Report.antt =====
-- The earlier report (mutation-testing-report-schema) as incremental-differ.ts reads it, and the
-- names of files in it.
use isep_mutation_levels.Prelude.{
  ℕ, String, Bool, true, false, ◌&&◌, List, Option, none, some, any, lookup, or_else, ◌=s=◌,
  if◌then◌else◌,
}
use isep_mutation_levels.Prelude.Int.{ge_ℤ}
use isep_mutation_levels.Api.{MutantStatus}
use isep_mutation_levels.Differ.Positions.{Text, End, Location, at, gte, gte_end}
use isep_mutation_levels.Differ.Keys.{◌+s◌}
use isep_mutation_levels.Differ.Closing.{TestDefinition}

-- `schema.MutantResult`, less its location.
pub record OldMutant : Type 0 where
  pub id : String
  pub mutator_name : String
  pub replacement : Option String
  pub status : MutantStatus
  pub status_reason : Option String
  pub static : Option Bool
  pub tests_completed : Option ℕ
  pub covered_by : Option (List String)
  pub killed_by : Option (List String)

pub record FileResult : Type 0 where
  pub source : Text
  pub mutants : List (OldMutant × Location)

pub record TestFile : Type 0 where
  pub source : Option Text
  pub tests : List TestDefinition

pub record IncrementalReport : Type 0 where
  pub files : List (String × FileResult)
  pub test_files : List (String × TestFile)

-- `MutateDescription`.
pub data MutateDescription : Type 0 where
  entire : Bool → MutateDescription
  ranges : List Location → MutateDescription

-- `fileName.replace(/\\/g, '/')`.
unfoldable pub normalize_file_name : String → String
normalize_file_name String.[] = ""
normalize_file_name (String.◌∷◌ c s) =
    (if String.◌∷◌ c "" =s= "\\" then "/" else String.◌∷◌ c "") +s normalize_file_name s

-- `path` of the platform, and the working directory in it.
pub record Paths : Type 0 where
  pub relative : String → String
  pub resolve : String → String

unfoldable pub to_relative_normalized_file_name : Paths → Option String → String
unfolding normalize_file_name
to_relative_normalized_file_name paths file_name =
    normalize_file_name (paths.relative (or_else file_name ""))

-- `gte` with an end on both sides.
unfoldable pub ends_gte : End → End → Bool
unfolding gte_end
ends_gte a b = elim a.line [
  | none ↦ elim b.line [ none ↦ ge_ℤ a.column b.column | some _ ↦ true ]
  | some line ↦ gte_end (at line a.column) b
]

unfoldable pub location_included : (haystack needle : Location) → Bool
unfolding gte ends_gte
location_included haystack needle =
    gte needle.start haystack.start && ends_gte haystack.end needle.end

unfoldable pub is_in_mutated_scope :
    List (String × MutateDescription) → (relative_file_name : String) → Location → Bool
unfolding location_included
is_in_mutated_scope descriptions relative_file_name l =
    elim (lookup relative_file_name descriptions) [
      | none ↦ false
      | some (entire all) ↦ all
      | some (ranges rs) ↦ any (λ range. location_included range l) rs
    ]
