-- ===== src/Differ/Closed.antt =====
-- What `closeLocations` keeps of the tests, and where it ends them.
use isep_mutation_levels.Prelude.{
  ℕ, ◌+◌, ◌≡◌, refl, Bool, List, [], ◌∷◌, ◌++◌, map, Option, none, some, arith, length, keep,
  if◌then◌else◌,
}
use isep_mutation_levels.Differ.Positions.{Position}
use isep_mutation_levels.Differ.Closing.{
  TestDefinition, LocatedTest, OpenTest, split_tests, sort_by_line, insert_by_line,
  unique_start_positions, next_positions, close_open, close_last, close_locations, eq_position,
  infinity, end_at,
}

module _ (p : TestDefinition → Bool) where
  -- How many tests of a list satisfy the predicate.
  abbrev located_count : List LocatedTest → ℕ
  located_count [] = 0
  located_count (t ∷ ts) = (if p t.0 then 1 else 0) + located_count ts

  abbrev open_count : List OpenTest → ℕ
  open_count [] = 0
  open_count (t ∷ ts) = (if p t.0 then 1 else 0) + open_count ts

  located-append :
      (xs ys : List LocatedTest) → located_count (xs ++ ys) ≡ located_count xs + located_count ys
  located-append [] ys = omega arith
  located-append (x ∷ xs) ys = omega (arith, located-append xs ys)

  count-split :
      (tests : List TestDefinition)
      → located_count (split_tests tests).0 + open_count (split_tests tests).1
        ≡ length (keep p tests)
  unfolding split_tests
  count-split [] = omega arith
  count-split (test ∷ tests) = ground (arith, count-split tests)

  count-insert :
      (t : OpenTest) (ts : List OpenTest) → open_count (insert_by_line t ts) ≡ open_count (t ∷ ts)
  count-insert t [] = refl
  count-insert t (u ∷ us) = ground (arith, count-insert t us)

  count-sort : (ts : List OpenTest) → open_count (sort_by_line ts) ≡ open_count ts
  unfolding sort_by_line
  count-sort [] = refl
  count-sort (t ∷ ts) = omega (arith, count-insert t (sort_by_line ts), count-sort ts)

  count-close :
      (ps : List Position) (ts : List OpenTest)
      → located_count (close_open ps ts).0 + open_count (close_open ps ts).1 ≡ open_count ts
  unfolding close_open
  count-close ps [] = omega arith
  count-close ps ((test, start) ∷ ts) = ground (arith, count-close (next_positions start ps) ts)

  count-last : (ts : List OpenTest) → located_count (close_last ts) ≡ open_count ts
  count-last [] = refl
  count-last (t ∷ ts) = omega (arith, count-last ts)

  keep-located : (ts : List LocatedTest) → length (keep p (map (λ t. t.0) ts)) ≡ located_count ts
  keep-located [] = refl
  keep-located (t ∷ ts) = ground (arith, keep-located ts)

  -- Every test of the file gets a location, exactly once: of any kind of test there are as many
  -- behind `closeLocations` as before.
  pub close_locations-keeps :
      (tests : List TestDefinition)
      → length (keep p (map (λ t. t.0) (close_locations tests))) ≡ length (keep p tests)
  unfolding close_locations
  close_locations-keeps tests =
      let (located, opened) = split_tests tests in
      let sorted = sort_by_line opened in
      let (closed, last) = close_open (unique_start_positions sorted) sorted in
      omega (
        arith,
        keep-located (close_locations tests),
        located-append located (closed ++ close_last last),
        located-append closed (close_last last),
        count-last last,
        count-close (unique_start_positions sorted) sorted,
        count-sort opened,
        count-split tests,
      )

-- The first start behind a test that is another than its own.
abbrev pub first_other : Position → List OpenTest → Option Position
first_other s [] = none
first_other s (t ∷ ts) = if eq_position s t.1 then first_other s ts else some t.1

-- The tests in their order, each ended at the next other start.
abbrev pub ended : List OpenTest → List LocatedTest
ended [] = []
ended ((test, s) ∷ ts) =
    (
      test,
      record { start = s; end = elim (first_other s ts) [ none ↦ infinity | some p ↦ end_at p ] },
    )
    ∷ ended ts

abbrev head_of : List Position → Option Position
head_of [] = none
head_of (p ∷ ps) = some p

abbrev closing : List Position → List OpenTest → List LocatedTest
closing ps ts = (close_open ps ts).0 ++ close_last (close_open ps ts).1
