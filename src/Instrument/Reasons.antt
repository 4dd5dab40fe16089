-- ===== src/Instrument/Reasons.antt =====
-- Which mutants are ignored, which are placed, and where they are reported.
use isep_mutation_levels.Prelude.{
  ℕ, suc, ◌≡◌, refl, String, Bool, true, false, List, [], ◌∷◌, ◌++◌, Option, none, some, keep, all,
  arith, append_assoc, append-nil,
}
use isep_mutation_levels.Prelude.Int.{pos}
use isep_mutation_levels.Differ.Positions.{Text, at, position_move}
use isep_mutation_levels.Instrument.Directives.{Match, disable, is_space, trim, trim_start, verdict}
use isep_mutation_levels.Instrument.Collector.{
  Mutable, Collected, collect, collect_mutants, api_status, to_position, otherwise,
}

abbrev pub is_placed : Collected → Bool
is_placed m = elim (api_status m) [ none ↦ true | some _ ↦ false ]

-- The mutants that a call adds.
abbrev pub added_from : String → List Mutable → List Collected → List Collected
added_from file_name [] mutants = []
added_from file_name (mutable ∷ mutables) mutants =
    let (mutant, mutants') = collect file_name mutable mutants in
    mutant ∷ added_from file_name mutables mutants'

-- The mutants of a node are all collected, behind the earlier ones, and those of them are placed in
-- the code that are reported with no status.
pub collect_mutants-places :
    (file_name : String) (mutables : List Mutable) (mutants : List Collected)
    → let new = added_from file_name mutables mutants in
      collect_mutants file_name mutables mutants ≡ (keep is_placed new, mutants ++ new)
unfolding collect_mutants api_status
collect_mutants-places file_name [] mutants = rw (append-nil mutants)
collect_mutants-places file_name (mutable ∷ mutables) mutants =
    let (mutant, mutants') = collect file_name mutable mutants in
    rw
      (
        collect_mutants-places file_name mutables mutants',
        append_assoc mutants (mutant ∷ []) (added_from file_name mutables mutants'),
      )
      (ground arith)

-- A reason of nothing but white space.
abbrev pub is_blank : Text → Bool
is_blank text = all is_space text

trim_start_blank : (text : Text) → is_blank text ≡ true → trim_start text ≡ []
trim_start_blank [] h = refl
trim_start_blank (c ∷ text) h = ground (arith, h, trim_start_blank text)

-- A directive that disables a mutator with a blank reason has the empty text for a reason, and with
-- that a mutant is not ignored, whatever the run level or the ignorers say.
pub verdict_blank :
    (m : Match) (reason : Text) (level message : Option Text) (c : Collected)
    → m.directive_type ≡ disable
    → m.reason ≡ some reason
    → is_blank reason ≡ true
    → c.ignore_reason ≡ otherwise (verdict m) (otherwise level message)
    → (verdict m ≡ some []) × (api_status c ≡ none)
unfolding verdict trim api_status
verdict_blank m reason level message c type given blank same =
    let empty : verdict m ≡ some [] = rw (verdict, type, given, trim_start_blank reason blank) in
    (empty, rw (api_status, same, empty))

-- The place of a mutant in its file is where its source's position, counted from 0, ends up behind
-- the text before the source, whose offset is given.
pub to_position-move :
    (line column offset_line offset_column : ℕ)
    → to_position (at (pos (suc line)) (pos column)) (at (pos offset_line) (pos offset_column))
      ≡ position_move (at (pos offset_line) (pos offset_column)) (at (pos line) (pos column))
unfolding to_position position_move
to_position-move line column offset_line offset_column = ground arith
