-- ===== src/Instrument/Latest.antt =====
-- Which directive decides.
use isep_mutation_levels.Prelude.{
  ℕ, ◌≡◌, refl, Bool, List, [], ◌∷◌, ◌++◌, Option, none, keep_some, if◌then◌else◌,
}
use isep_mutation_levels.Differ.Positions.{Text}
use isep_mutation_levels.Instrument.Directives.{
  Match, Rule, root_rule, ignore_rule, matches, rule_reason, names_in, line_in, verdict,
  process_matches, process_stryker_directives, find_ignore_reason, directive_of, to_lower,
}

-- A visit of the traversal: the line of a node, and the comments before it.
abbrev pub Visit : Type 0
Visit = ℕ × List Text

abbrev pub visit_all : List Visit → Rule → Rule
visit_all [] rule = rule
visit_all ((line, comments) ∷ visits) rule =
    visit_all visits (process_stryker_directives line comments rule)

-- The directives of the visits in their order, each with the line of its node.
abbrev pub with_line : ℕ → List Match → List (ℕ × Match)
with_line line [] = []
with_line line (m ∷ ms) = (line, m) ∷ with_line line ms

abbrev pub directives_of : List Visit → List (ℕ × Match)
directives_of [] = []
directives_of ((line, comments) ∷ visits) =
    with_line line (keep_some directive_of comments) ++ directives_of visits

abbrev pub concerns : Text → ℕ → ℕ × Match → Bool
concerns name line (node_line, m) = matches (names_in m) (line_in node_line m) name line

-- The verdict of the last directive in the list that concerns the mutator on the line.
abbrev pub latest : Text → ℕ → List (ℕ × Match) → Option Text → Option Text
latest name line [] before = before
latest name line (d ∷ ds) before =
    latest name line ds (if concerns name line d then verdict d.1 else before)

latest-append :
    (name : Text) (line : ℕ) (ds es : List (ℕ × Match)) (before : Option Text)
    → latest name line (ds ++ es) before ≡ latest name line es (latest name line ds before)
latest-append name line [] es before = refl
latest-append name line (d ∷ ds) es before = latest-append name line ds es _

rule_reason-process :
    (name : Text) (line node_line : ℕ) (ms : List Match) (rule : Rule)
    → rule_reason (process_matches node_line ms rule) name line
      ≡ latest name line (with_line node_line ms) (rule_reason rule name line)
unfolding process_matches rule_reason
rule_reason-process name line node_line [] rule = refl
rule_reason-process name line node_line (m ∷ ms) rule =
    rule_reason-process name line node_line ms
      (ignore_rule (names_in m) (line_in node_line m) (verdict m) rule)

rule_reason-visits :
    (name : Text) (line : ℕ) (visits : List Visit) (rule : Rule)
    → rule_reason (visit_all visits rule) name line
      ≡ latest name line (directives_of visits) (rule_reason rule name line)
unfolding process_stryker_directives
rule_reason-visits name line [] rule = refl
rule_reason-visits name line ((node_line, comments) ∷ visits) rule =
    let ms = keep_some directive_of comments in
    rw (
      rule_reason-visits name line visits (process_matches node_line ms rule),
      rule_reason-process name line node_line ms rule,
      latest-append name line (with_line node_line ms) (directives_of visits)
          (rule_reason rule name line),
    )

-- The reason to ignore a mutator's mutants on a line, behind any visits, is the verdict of the last
-- directive before them that names the mutator or all, in any case of letters, and is for every
-- line or for a node on this one; with no such directive there is no reason.
pub find_ignore_reason-latest :
    (visits : List Visit) (line : ℕ) (name : Text)
    → find_ignore_reason (visit_all visits root_rule) line name
      ≡ latest (to_lower name) line (directives_of visits) none
unfolding find_ignore_reason
find_ignore_reason-latest visits line name =
    rule_reason-visits (to_lower name) line visits root_rule
