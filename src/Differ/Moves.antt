-- ===== src/Differ/Moves.antt =====
-- Where a change of the text puts what stands behind it, and what the program's arithmetic makes
-- of that.
use isep_mutation_levels.Prelude.{
  ℕ, suc, ◌+◌, ◌≡◌, refl, ◌∙◌, inl, inr, [], ◌∷◌, ◌++◌, arith, ◌==◌, if◌then◌else◌, Bool-cases,
}
use isep_mutation_levels.Prelude.Int.{pos}
use isep_mutation_levels.Differ.Positions.{
  Text, newline, Position, at, offset_from, calculate_offset, position_move,
}

-- The lines and the last line's characters of a text.
abbrev pub lines : Text → ℕ
lines [] = 0
lines (c ∷ text) = if c == newline then suc (lines text) else lines text

-- The column reached from a column.
abbrev pub column_from : ℕ → Text → ℕ
column_from column [] = column
column_from column (c ∷ text) = column_from (if c == newline then 0 else column + 1) text

offset_from-eq :
    (line column : ℕ) (text : Text)
    → offset_from line column text ≡ (line + lines text, column_from column text)
unfolding offset_from
offset_from-eq line column [] = ground arith
offset_from-eq line column (c ∷ text) = elim (Bool-cases (c == newline)) [
  | inl e ↦ rw (e, offset_from-eq (line + 1) 0 text) (ground arith)
  | inr e ↦ rw (e, offset_from-eq line (column + 1) text)
]

pub lines-append : (a b : Text) → lines (a ++ b) ≡ lines a + lines b
lines-append [] b = omega arith
lines-append (c ∷ a) b = ground (arith, lines-append a b)

column_from-append :
    (column : ℕ) (a b : Text) → column_from column (a ++ b) ≡ column_from (column_from column a) b
column_from-append column [] b = refl
column_from-append column (c ∷ a) b =
    column_from-append (if c == newline then 0 else column + 1) a b

-- On one line the characters count; a new line starts again.
column_from-eq :
    (column : ℕ) (text : Text)
    → column_from column text
      ≡ (if lines text == 0 then column + column_from 0 text else column_from 0 text)
column_from-eq column [] = ground arith
column_from-eq column (c ∷ text) = elim (Bool-cases (c == newline)) [
  | inl e ↦ rw e (ground arith)
  | inr e ↦ rw (e, column_from-eq (column + 1) text) (ground (arith, column_from-eq 1 text))
]

abbrev pub columns : Text → ℕ
columns text = column_from 0 text

pub calculate_offset-eq :
    (text : Text) → calculate_offset text ≡ at (pos (lines text)) (pos (columns text))
unfolding calculate_offset
calculate_offset-eq text = rw (offset_from-eq 0 0 text) (ground arith)

pub columns-append :
    (a b : Text) → columns (a ++ b) ≡ (if lines b == 0 then columns a + columns b else columns b)
columns-append a b = column_from-append 0 a b ∙ column_from-eq (columns a) b

abbrev pub place : ℕ → ℕ → Position
place line column = at (pos line) (pos column)

pub calculate_offset-append :
    (a b : Text)
    → calculate_offset (a ++ b)
      ≡ place (lines a + lines b) (if lines b == 0 then columns a + columns b else columns b)
calculate_offset-append a b =
    calculate_offset-eq (a ++ b) ∙ rw (lines-append a b, columns-append a b)

move_place :
    (l c l' c' : ℕ)
    → position_move (place l c) (place l' c') ≡ place (l + l') (if l' == 0 then c + c' else c')
unfolding position_move
move_place l c l' c' = ground arith

-- Moving a position by the offset of a text is reading that text on: the position behind two
-- texts is the position behind the first, moved by the offset of the second.
pub position_move-calculate_offset :
    (a b : Text)
    → position_move (calculate_offset a) (calculate_offset b) ≡ calculate_offset (a ++ b)
position_move-calculate_offset a b =
    rw (calculate_offset-append a b, calculate_offset-eq a, calculate_offset-eq b)
      (move_place (lines a) (columns a) (lines b) (columns b))
