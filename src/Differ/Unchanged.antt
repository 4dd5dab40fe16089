-- ===== src/Differ/Unchanged.antt =====
-- `performFileDiff` on a text that has not changed.
use mathlib.Core.List.Perm
use mathlib.Core.List.{Perm, perm_middle}
use isep_mutation_levels.Prelude.{
  ◌≡◌, refl, ◌∙◌, Bool, true, false, List, [], ◌∷◌, ◌++◌, append_assoc, inl, inr, all, Bool-cases,
}
use isep_mutation_levels.Differ.Positions.{
  Text, Position, Location, calculate_offset, position_move, gte_end, normalize_line_endings,
}
use isep_mutation_levels.Differ.FileDiff.{
  Change, added, removed, equal, DiffMain, Progress, pass, apply_change, apply_changes, begin,
  perform_file_diff,
}

abbrev pub is_equal : Change × Text → Bool
is_equal (equal, _) = true
is_equal _ = false

module _ {A : Type 0} where
  pass-perm :
      (current : Position) (items : List (A × Location))
      → Perm ((pass current items).1 ++ (pass current items).0) items
  unfolding pass
  pass-perm current [] = Perm.nil
  pass-perm current ((item, l) ∷ items) =
      let rest = Perm.cons (item, l) (pass-perm current items) in
      elim (Bool-cases (gte_end current l.end)) [
        | inl e ↦ rw (e, pass) rest
        | inr e ↦
            rw (e, pass)
              (Perm.trans (perm_middle (pass current items).1 (pass current items).0) rest)
      ]

  abbrev Same : Progress A → Progress A → Type 0
  Same q p = Perm (q.done ++ q.to_do) (p.done ++ p.to_do) × (q.remove_count ≡ p.remove_count)

  apply_change-Same : (text : Text) (p : Progress A) → Same (apply_change equal text p) p
  unfolding apply_change
  apply_change-Same text p =
      let current = position_move p.current (calculate_offset text) in
      (rw append_assoc (Perm.append_left p.done (pass-perm current p.to_do)), refl)

  early_end :
      (xs : List (A × Location)) (p q : Progress A)
      → Same q p
      → Same (elim xs [ [] ↦ p | _ ∷ _ ↦ q ]) p
  early_end [] p q h = (Perm.rfl, refl)
  early_end (x ∷ xs) p q h = h

  apply_changes-Same :
      (changes : List (Change × Text)) (p : Progress A)
      → all is_equal changes ≡ true
      → Same (apply_changes changes p) p
  unfolding apply_changes
  apply_changes-Same [] p h = (Perm.rfl, refl)
  apply_changes-Same ((equal, text) ∷ rest) p h =
      let (perm, count) = apply_changes-Same rest (apply_change equal text p) h in
      let (perm', count') = apply_change-Same text p in
      early_end p.to_do p _ (Perm.trans perm perm', count ∙ count')
  apply_changes-Same ((added, text) ∷ rest) p h = cc
  apply_changes-Same ((removed, text) ∷ rest) p h = cc

  -- If the diff package finds the texts equal, no item is removed, and the results are the items
  -- with the locations that they had, in some order.
  pub perform_file_diff_unchanged :
      (diff_main : DiffMain) (old_code new_code : Text) (items : List (A × Location))
      → all is_equal (diff_main (normalize_line_endings old_code) (normalize_line_endings new_code))
        ≡ true
      → let r = perform_file_diff diff_main old_code new_code items in Perm r.0 items × (r.1 ≡ 0)
  unfolding perform_file_diff
  perform_file_diff_unchanged diff_main old_code new_code items h =
      apply_changes-Same
        (diff_main (normalize_line_endings old_code) (normalize_line_endings new_code))
        (begin items) h
