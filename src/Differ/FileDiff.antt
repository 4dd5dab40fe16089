-- ===== src/Differ/FileDiff.antt =====
-- incremental-differ.ts: `performFileDiff`, over items that hold a location and anything else.
use isep_mutation_levels.Prelude.{
  ℕ, ◌+◌, ◌&&◌, List, [], ◌∷◌, ◌++◌, Option, none, some, if◌then◌else◌,
}
use isep_mutation_levels.Prelude.Int.{eq_ℤ}
use isep_mutation_levels.Differ.Positions.{
  Text, Position, Location, origin, normalize_line_endings, gte, end_gte, gte_end, calculate_offset,
  position_move, location_add, negate,
}

pub data Change : Type 0 where
  added removed equal : Change

-- `diff_main` of the diff-match-patch package.
abbrev pub DiffMain : Type 0
DiffMain = (old current : Text) → List (Change × Text)

-- A location after an insertion at the position, `none` where the insertion touches it.
unfoldable pub insert_location : (current offset : Position) → Location → Option Location
unfolding gte end_gte location_add
insert_location current offset l =
    if gte current l.start && end_gte l.end current
    then none
    else some (location_add l offset (eq_ℤ current.line l.start.line))

-- A location after a deletion at the position, `none` where it begins within the deletion.
unfoldable pub delete_location : (current offset : Position) → Location → Option Location
unfolding gte position_move location_add negate
delete_location current offset l =
    if gte (position_move current offset) l.start
    then none
    else some (location_add l (negate offset) (eq_ℤ current.line l.start.line))

-- The variables of the loop: the items left, those that are done, the position and the count.
pub record Progress (A : Type 0) : Type 0 where
  pub to_do : List (A × Location)
  pub done : List (A × Location)
  pub current : Position
  pub remove_count : ℕ

module _ {A : Type 0} where
  -- The items that stay, and how many are removed.
  unfoldable pub relocate :
      (Location → Option Location) → List (A × Location) → List (A × Location) × ℕ
  relocate move [] = ([], 0)
  relocate move ((item, l) ∷ items) =
      let (kept, count) = relocate move items in
      elim (move l) [ none ↦ (kept, count + 1) | some l' ↦ ((item, l') ∷ kept, count) ]

  -- The items that the position has not passed, and those that it has.
  unfoldable pub pass : Position → List (A × Location) → List (A × Location) × List (A × Location)
  unfolding gte_end
  pass current [] = ([], [])
  pass current ((item, l) ∷ items) =
      let (left, passed) = pass current items in
      if gte_end current l.end then (left, (item, l) ∷ passed) else ((item, l) ∷ left, passed)

  unfoldable pub apply_change : Change → Text → Progress A → Progress A
  unfolding calculate_offset insert_location delete_location position_move relocate pass
  apply_change added text p =
      let offset = calculate_offset text in
      let (kept, count) = relocate (insert_location p.current offset) p.to_do in
      record p {
        to_do = kept;
        current = position_move p.current offset;
        remove_count = p.remove_count + count;
      }
  apply_change removed text p =
      let offset = calculate_offset text in
      let (kept, count) = relocate (delete_location p.current offset) p.to_do in
      record p { to_do = kept; remove_count = p.remove_count + count }
  apply_change equal text p =
      let current = position_move p.current (calculate_offset text) in
      let (left, passed) = pass current p.to_do in
      record p { to_do = left; done = p.done ++ passed; current = current }

  -- The loop ends early where nothing is left to do.
  unfoldable pub apply_changes : List (Change × Text) → Progress A → Progress A
  unfolding apply_change
  apply_changes [] p = p
  apply_changes ((change, text) ∷ rest) p = elim p.to_do [
    | [] ↦ p
    | _ ∷ _ ↦ apply_changes rest (apply_change change text p)
  ]

  abbrev pub begin : List (A × Location) → Progress A
  begin items = record { to_do = items; done = []; current = origin; remove_count = 0 }

  -- The results and the number of items removed.
  unfoldable pub perform_file_diff :
      DiffMain → (old_code new_code : Text) → List (A × Location) → List (A × Location) × ℕ
  unfolding normalize_line_endings apply_changes
  perform_file_diff diff_main old_code new_code items =
      let changes = diff_main (normalize_line_endings old_code) (normalize_line_endings new_code) in
      let p = apply_changes changes (begin items) in (p.done ++ p.to_do, p.remove_count)
