-- ===== src/Differ/Closing.antt =====
-- incremental-differ.ts: `closeLocations`, which guesses where the tests of a file end.
use isep_mutation_levels.Prelude.{
  String, Bool, ◌&&◌, List, [], ◌∷◌, ◌++◌, Option, none, some, if◌then◌else◌,
}
use isep_mutation_levels.Prelude.Int.{pos, eq_ℤ, gt_ℤ}
use isep_mutation_levels.Differ.Positions.{Position, End, Location, origin}

-- `schema.OpenEndLocation`, closed or not.
pub record TestLocation : Type 0 where
  pub start : Position
  pub end : Option End

-- `schema.TestDefinition`.
pub record TestDefinition : Type 0 where
  pub id : String
  pub name : String
  pub location : Option TestLocation

-- A test whose location is the second component, and the one that starts there with no end.
abbrev pub LocatedTest : Type 0
LocatedTest = TestDefinition × Location

abbrev pub OpenTest : Type 0
OpenTest = TestDefinition × Position

abbrev pub whole_file : Location
whole_file = record { start = origin; end = record { line = none; column = pos 0 } }

abbrev pub infinity : End
infinity = record { line = none; column = pos 0 }

abbrev pub eq_position : Position → Position → Bool
eq_position a b = eq_ℤ a.column b.column && eq_ℤ a.line b.line

abbrev pub end_at : Position → End
end_at p = record { line = some p.line; column = p.column }

-- The tests that get or have a location at once, and those with an open end.
unfoldable pub split_tests : List TestDefinition → List LocatedTest × List OpenTest
split_tests [] = ([], [])
split_tests (test ∷ tests) =
    let (located, opened) = split_tests tests in
    elim test.location [
      | none ↦ ((test, whole_file) ∷ located, opened)
      | some l ↦ elim l.end [
        | none ↦ (located, (test, l.start) ∷ opened)
        | some end ↦ ((test, record { start = l.start; end = end }) ∷ located, opened)
      ]
    ]

-- `Array.prototype.sort` by the start line, which is stable.
abbrev pub insert_by_line : OpenTest → List OpenTest → List OpenTest
insert_by_line t [] = t ∷ []
insert_by_line t (u ∷ us) = if gt_ℤ t.1.line u.1.line then u ∷ insert_by_line t us else t ∷ u ∷ us

unfoldable pub sort_by_line : List OpenTest → List OpenTest
sort_by_line [] = []
sort_by_line (t ∷ ts) = insert_by_line t (sort_by_line ts)

-- The start positions, less those that equal the one before.
abbrev pub unique_from : Option Position → List OpenTest → List Position
unique_from current [] = []
unique_from none (t ∷ ts) = t.1 ∷ unique_from (some t.1) ts
unique_from (some c) (t ∷ ts) =
    if eq_position c t.1 then unique_from (some c) ts else t.1 ∷ unique_from (some t.1) ts

unfoldable pub unique_start_positions : List OpenTest → List Position
unique_start_positions tests = unique_from none tests

-- The index into the start positions goes up: what is left of them from the index on.
abbrev pub next_positions : Position → List Position → List Position
next_positions start [] = []
next_positions start (p ∷ ps) = if eq_position start p then ps else p ∷ ps

-- The tests that are closed, and those that stay in the set.
unfoldable pub close_open : List Position → List OpenTest → List LocatedTest × List OpenTest
close_open positions [] = ([], [])
close_open positions ((test, start) ∷ tests) =
    let left = next_positions start positions in
    let (closed, last) = close_open left tests in
    elim left [
      | [] ↦ (closed, (test, start) ∷ last)
      | p ∷ _ ↦ ((test, record { start = start; end = end_at p }) ∷ closed, last)
    ]

abbrev pub close_last : List OpenTest → List LocatedTest
close_last [] = []
close_last ((test, start) ∷ tests) =
    (test, record { start = start; end = infinity }) ∷ close_last tests

unfoldable pub close_locations : List TestDefinition → List LocatedTest
unfolding split_tests sort_by_line unique_start_positions close_open
close_locations tests =
    let (located, opened) = split_tests tests in
    let sorted = sort_by_line opened in
    let (closed, last) = close_open (unique_start_positions sorted) sorted in
    located ++ (closed ++ close_last last)
