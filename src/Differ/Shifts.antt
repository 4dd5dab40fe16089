-- ===== src/Differ/Shifts.antt =====
-- How exactly the program moves the location of code behind an insertion or a deletion. In each
-- statement `a` is the text before the change, `b` the text between the change and the code, and
-- `m` the code.
use isep_mutation_levels.Prelude.{
  ℕ, ◌+◌, ◌≡◌, ◌∙◌, Bool, false, not, ◌&&◌, ◌++◌, some, arith, ◌==◌, if◌then◌else◌,
}
use isep_mutation_levels.Prelude.Int.{pos, ◌+ℤ◌, eq_ℤ}
use isep_mutation_levels.Differ.Positions.{
  Text, Position, End, at, gte, calculate_offset, position_move, location_add, negate,
}
use isep_mutation_levels.Differ.Moves.{
  lines, columns, place, calculate_offset-eq, lines-append, columns-append,
  position_move-calculate_offset, calculate_offset-append,
}

abbrev pub finite : Position → End
finite p = record { line = some p.line; column = p.column }

-- Whether the change stands on the line of the code's start, as the program tests it.
abbrev pub on_line : Position → Position → Bool
on_line current start = eq_ℤ current.line start.line

abbrev pub right : Position → ℕ → Position
right p n = at p.line (p.column +ℤ pos n)

-- The columns behind texts, in numbers.
abbrev behind : ℕ → ℕ → ℕ → ℕ
behind column l c = if l == 0 then column + c else c

insert_numbers :
    (la ca li ci lb cb : ℕ) (e : End)
    → (location_add
        (record { start = place (la + lb) (behind ca lb cb); end = e })
        (place li ci)
        (eq_ℤ (pos la) (pos (la + lb)))).start
      ≡ right
          (place (la + (li + lb)) (behind ca (li + lb) (behind ci lb cb)))
          (if (lb == 0) && not (li == 0) then ca else 0)
unfolding location_add
insert_numbers la ca li ci lb cb e = ground arith

behind_two :
    (a b : Text)
    → calculate_offset (a ++ b)
      ≡ place (lines a + lines b) (behind (columns a) (lines b) (columns b))
behind_two a b = calculate_offset-append a b

behind_three :
    (a b c : Text)
    → calculate_offset (a ++ (b ++ c))
      ≡ place
          (lines a + (lines b + lines c))
          (behind (columns a) (lines b + lines c) (behind (columns b) (lines c) (columns c)))
behind_three a b c = calculate_offset-append a (b ++ c) ∙ rw (lines-append b c, columns-append b c)

-- Behind an insertion the start of the code gets its line in the new text, and its column there
-- too, unless the inserted text has several lines and ends on the line of the code: then the
-- column is too far right by the column of the insertion.
pub insert_start :
    (a inserted b : Text) (e : End)
    → (location_add
        (record { start = calculate_offset (a ++ b); end = e })
        (calculate_offset inserted)
        (on_line (calculate_offset a) (calculate_offset (a ++ b)))).start
      ≡ right
          (calculate_offset (a ++ (inserted ++ b)))
          (if (lines b == 0) && not (lines inserted == 0) then columns a else 0)
insert_start a inserted b e =
    rw
      (
        behind_three a inserted b,
        behind_two a b,
        calculate_offset-eq a,
        calculate_offset-eq inserted,
      )
      (insert_numbers (lines a) (columns a) (lines inserted) (columns inserted) (lines b)
        (columns b) e)

end_numbers :
    (la ca li ci lb cb lm cm : ℕ)
    → li ≡ 0
    → (location_add
        (record {
          start = place (la + lb) (behind ca lb cb);
          end = finite (place (la + (lb + lm)) (behind ca (lb + lm) (behind cb lm cm)));
        })
        (place li ci)
        (eq_ℤ (pos la) (pos (la + lb)))).end
      ≡ finite (
          right
            (place
              (la + (li + (lb + lm)))
              (behind ca (li + (lb + lm)) (behind ci (lb + lm) (behind cb lm cm))))
            (if (lb == 0) && not (lm == 0) then ci else 0))
unfolding location_add
end_numbers la ca li ci lb cb lm cm h = ground arith

-- Behind an insertion of no more than one line the end of the code gets its line in the new text,
-- and its column there too, unless the code begins on the line of the insertion and has several
-- lines itself: then the column is too far right by the length of the insertion.
pub insert_end :
    (a inserted b m : Text)
    → lines inserted ≡ 0
    → (location_add
        (record {
          start = calculate_offset (a ++ b);
          end = finite (calculate_offset (a ++ (b ++ m)));
        })
        (calculate_offset inserted)
        (on_line (calculate_offset a) (calculate_offset (a ++ b)))).end
      ≡ finite (
          right
            (calculate_offset (a ++ (inserted ++ (b ++ m))))
            (if (lines b == 0) && not (lines m == 0) then columns inserted else 0))
insert_end a inserted b m h =
    rw
      (
        behind_three a inserted (b ++ m),
        behind_three a b m,
        behind_two a b,
        calculate_offset-eq a,
        calculate_offset-eq inserted,
        lines-append b m,
        columns-append b m,
      )
      (end_numbers (lines a) (columns a) (lines inserted) (columns inserted) (lines b) (columns b)
        (lines m) (columns m) h)

delete_numbers :
    (la ca ld cd lb cb : ℕ) (e : End)
    → gte
        (place (la + ld) (behind ca ld cd))
        (place (la + (ld + lb)) (behind ca (ld + lb) (behind cd lb cb)))
      ≡ false
    → let start = place (la + (ld + lb)) (behind ca (ld + lb) (behind cd lb cb)) in
      let moved =
        (location_add
          (record { start = start; end = e })
          (negate (place ld cd))
          (eq_ℤ (pos la) start.line)).start in
      right moved (if (lb == 0) && not (ld == 0) then ca else 0)
      ≡ right (place (la + lb) (behind ca lb cb)) (if (lb == 0) && not (ld == 0) then cd else 0)
unfolding location_add negate gte
delete_numbers la ca ld cd lb cb e h = ground arith

-- Behind a deletion that the code outlives, the start of the code gets its line in the new text,
-- and its column there too, unless the deleted text has several lines and ends on the line of
-- the code: then the column is the old one, where it should have the deletion's column for that
-- of the deletion's end.
pub delete_start :
    (a deleted b : Text) (e : End)
    → gte
        (position_move (calculate_offset a) (calculate_offset deleted))
        (calculate_offset (a ++ (deleted ++ b)))
      ≡ false
    → right
        (location_add
          (record { start = calculate_offset (a ++ (deleted ++ b)); end = e })
          (negate (calculate_offset deleted))
          (on_line (calculate_offset a) (calculate_offset (a ++ (deleted ++ b))))).start
        (if (lines b == 0) && not (lines deleted == 0) then columns a else 0)
      ≡ right
          (calculate_offset (a ++ b))
          (if (lines b == 0) && not (lines deleted == 0) then columns deleted else 0)
delete_start a deleted b e h =
    rw
      (behind_three a deleted b, behind_two a b, calculate_offset-eq a, calculate_offset-eq deleted)
      (delete_numbers (lines a) (columns a) (lines deleted) (columns deleted) (lines b) (columns b)
        e
        (rw
          (position_move-calculate_offset a deleted, behind_three a deleted b, behind_two a deleted)
          at h))
