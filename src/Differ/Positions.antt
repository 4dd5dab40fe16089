-- ===== src/Differ/Positions.antt =====
-- incremental-differ.ts: positions and locations, and how a changed text moves them. A text is
-- the list of its characters' codes. A line or column is an integer, and an end without a line
-- number stands at the line Infinity.
use isep_mutation_levels.Prelude.{
  ℕ, ◌+◌, Bool, true, false, ◌&&◌, ◌||◌, List, [], ◌∷◌, Option, none, some, ◌==◌, if◌then◌else◌,
}
use isep_mutation_levels.Prelude.Int.{ℤ, pos, ◌+ℤ◌, neg_ℤ, gt_ℤ, eq_ℤ, ge_ℤ}

abbrev pub Text : Type 0
Text = List ℕ

abbrev pub newline : ℕ
newline = b'\n'

abbrev pub carriage_return : ℕ
carriage_return = b'\r'

pub record Position : Type 0 where
  pub line : ℤ
  pub column : ℤ

-- `none` is the line Infinity.
pub record End : Type 0 where
  pub line : Option ℤ
  pub column : ℤ

pub record Location : Type 0 where
  pub start : Position
  pub end : End

abbrev pub at : ℤ → ℤ → Position
at line column = record { line = line; column = column }

abbrev pub origin : Position
origin = at (pos 0) (pos 0)

-- `text.replace(/\r\n/g, '\n')`.
unfoldable pub normalize_line_endings : Text → Text
normalize_line_endings [] = []
normalize_line_endings (c ∷ []) = c ∷ []
normalize_line_endings (c ∷ d ∷ rest) = elim ((c == carriage_return) && (d == newline)) [
  | true ↦ newline ∷ normalize_line_endings rest
  | false ↦ c ∷ normalize_line_endings (d ∷ rest)
]

unfoldable pub gte : Position → Position → Bool
gte a b = gt_ℤ a.line b.line || (eq_ℤ a.line b.line && ge_ℤ a.column b.column)

-- `gte` with an end on its left, and on its right.
unfoldable pub end_gte : End → Position → Bool
unfolding gte
end_gte e b = elim e.line [ none ↦ true | some line ↦ gte (at line e.column) b ]

unfoldable pub gte_end : Position → End → Bool
unfolding gte
gte_end a e = elim e.line [ none ↦ false | some line ↦ gte a (at line e.column) ]

-- The loop over the characters, from the line and column reached.
unfoldable pub offset_from : ℕ → ℕ → Text → ℕ × ℕ
offset_from line column [] = (line, column)
offset_from line column (c ∷ text) =
    offset_from (if c == newline then line + 1 else line) (if c == newline then 0 else column + 1)
      text

unfoldable pub calculate_offset : Text → Position
unfolding offset_from
calculate_offset text = let (line, column) = offset_from 0 0 text in at (pos line) (pos column)

unfoldable pub position_move : Position → Position → Position
unfolding ◌+ℤ◌
position_move p diff = record {
  line = p.line +ℤ diff.line;
  column = if eq_ℤ diff.line (pos 0) then p.column +ℤ diff.column else diff.column;
}

abbrev pub end_line_add : Option ℤ → ℤ → Option ℤ
end_line_add none line = none
end_line_add (some l) line = some (l +ℤ line)

unfoldable pub location_add : Location → Position → (current_line : Bool) → Location
unfolding ◌+ℤ◌
location_add l offset current_line = record {
  start = record {
    line = l.start.line +ℤ offset.line;
    column = if current_line then l.start.column +ℤ offset.column else l.start.column;
  };
  end = record {
    line = end_line_add l.end.line offset.line;
    column =
        if eq_ℤ offset.line (pos 0) && current_line
        then l.end.column +ℤ offset.column
        else l.end.column;
  };
}

unfoldable pub negate : Position → Position
unfolding neg_ℤ
negate p = at (neg_ℤ p.line) (neg_ℤ p.column)
