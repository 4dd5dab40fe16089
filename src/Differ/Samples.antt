-- ===== src/Differ/Samples.antt =====
-- A file whose second line is moved down by an insertion, and one that has not changed.
use isep_mutation_levels.Prelude.{◌≡◌, refl, String, List, [], ◌∷◌, ◌++◌, none, some}
use isep_mutation_levels.Prelude.Int.{pos}
use mathlib.Core.List.{Perm}
use isep_mutation_levels.Differ.Positions.{
  Text, newline, Location, at, gte, calculate_offset, position_move, location_add, negate,
  normalize_line_endings,
}
use isep_mutation_levels.Differ.FileDiff.{added, equal, DiffMain, perform_file_diff}
use isep_mutation_levels.Differ.Shifts.{on_line, right, insert_start}
use isep_mutation_levels.Differ.Unchanged.{perform_file_diff_unchanged}

-- What a run of the diff computes with.
program : Unit {0}
unfolding calculate_offset position_move location_add negate gte normalize_line_endings
    perform_file_diff
program = tt

abbrev first_line : Text
first_line = b'x' ∷ newline ∷ []

abbrev second_line : Text
second_line = b'y' ∷ b'z' ∷ []

-- A diff package that finds one line before the rest.
abbrev one_line_added : DiffMain
one_line_added old current = (added, first_line) ∷ (equal, old) ∷ []

abbrev nothing_changed : DiffMain
nothing_changed old current = (equal, old) ∷ []

abbrev items : List (String × Location)
items =
    (
      "the y",
      record { start = at (pos 1) (pos 0); end = record { line = some (pos 1); column = pos 1 } },
    )
    ∷ (
      "the x",
      record { start = at (pos 0) (pos 0); end = record { line = some (pos 0); column = pos 1 } },
    )
    ∷ []

moved_down :
    (perform_file_diff {A = String} one_line_added
      (first_line ++ second_line)
      (first_line ++ (first_line ++ second_line))
      ((
        "the y",
        record { start = at (pos 1) (pos 0); end = record { line = some (pos 1); column = pos 1 } },
      )
        ∷ [])).0
    ≡ (
      "the y",
      record { start = at (pos 2) (pos 0); end = record { line = some (pos 2); column = pos 1 } },
    )
      ∷ []
unfolding program
moved_down = refl

insert_start_example :
    (location_add
      (record {
        start = calculate_offset (second_line ++ second_line);
        end = record { line = none; column = pos 0 };
      })
      (calculate_offset first_line)
      (on_line
        (calculate_offset second_line)
        (calculate_offset (second_line ++ second_line)))).start
    ≡ right (calculate_offset (second_line ++ (first_line ++ second_line))) 2
insert_start_example =
    insert_start second_line first_line second_line (record { line = none; column = pos 0 })

perform_file_diff_unchanged_example :
    Perm
      (perform_file_diff nothing_changed
        (first_line ++ second_line)
        (first_line ++ second_line)
        items).0
      items
    × ((perform_file_diff nothing_changed
          (first_line ++ second_line)
          (first_line ++ second_line)
          items).1
        ≡ 0)
unfolding program
perform_file_diff_unchanged_example =
    perform_file_diff_unchanged nothing_changed (first_line ++ second_line)
      (first_line ++ second_line) items refl
