-- ===== src/Differ/Counts.antt =====
-- How many items `performFileDiff` hands on and how many it removes.
use isep_mutation_levels.Prelude.{
  ℕ, ◌+◌, ◌≡◌, refl, List, [], ◌∷◌, Option, arith, length, length-append,
}
use isep_mutation_levels.Differ.Positions.{
  Text, Position, Location, calculate_offset, position_move, normalize_line_endings,
}
use isep_mutation_levels.Differ.FileDiff.{
  Change, added, removed, equal, DiffMain, Progress, insert_location, delete_location, relocate,
  pass, apply_change, apply_changes, begin, perform_file_diff,
}

module _ {A : Type 0} where
  length-relocate :
      (move : Location → Option Location) (items : List (A × Location))
      → length (relocate move items).0 + (relocate move items).1 ≡ length items
  unfolding relocate
  length-relocate move [] = omega arith
  length-relocate move ((item, l) ∷ items) = ground (arith, length-relocate move items)

  length-pass :
      (current : Position) (items : List (A × Location))
      → length (pass current items).0 + length (pass current items).1 ≡ length items
  unfolding pass
  length-pass current [] = omega arith
  length-pass current ((item, l) ∷ items) = ground (arith, length-pass current items)

  -- The items of a state of the loop, the removed ones included.
  abbrev total : Progress A → ℕ
  total p = length p.to_do + length p.done + p.remove_count

  total-apply_change :
      (change : Change) (text : Text) (p : Progress A)
      → total (apply_change change text p) ≡ total p
  unfolding apply_change
  total-apply_change added text p =
      omega (arith, length-relocate (insert_location p.current (calculate_offset text)) p.to_do)
  total-apply_change removed text p =
      omega (arith, length-relocate (delete_location p.current (calculate_offset text)) p.to_do)
  total-apply_change equal text p =
      let current = position_move p.current (calculate_offset text) in
      omega (arith, length-pass current p.to_do, length-append p.done (pass current p.to_do).1)

  total-apply_changes :
      (changes : List (Change × Text)) (p : Progress A) → total (apply_changes changes p) ≡ total p
  unfolding apply_changes
  total-apply_changes [] p = refl
  total-apply_changes ((change, text) ∷ rest) p = ground (
    arith,
    total-apply_changes rest (apply_change change text p),
    total-apply_change change text p,
  )

  -- Whatever the diff package answers, the results and the removed items together are as many
  -- as the items.
  pub length-perform_file_diff :
      (diff_main : DiffMain) (old_code new_code : Text) (items : List (A × Location))
      → let r = perform_file_diff diff_main old_code new_code items in
        length r.0 + r.1 ≡ length items
  unfolding perform_file_diff
  length-perform_file_diff diff_main old_code new_code items =
      let p =
        apply_changes
          (diff_main (normalize_line_endings old_code) (normalize_line_endings new_code))
          (begin items) in
      omega (
        arith,
        length-append p.done p.to_do,
        total-apply_changes
            (diff_main (normalize_line_endings old_code) (normalize_line_endings new_code))
            (begin items),
      )
