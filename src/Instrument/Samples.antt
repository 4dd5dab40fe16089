-- ===== src/Instrument/Samples.antt =====
-- A comment that disables, one that restores, and a small tree with an ignorer.
use isep_mutation_levels.Prelude.{◌≡◌, refl, true, false, List, [], ◌∷◌, none, some}
use isep_mutation_levels.Syntax.{identifier}
use isep_mutation_levels.Differ.Positions.{Text}
use isep_mutation_levels.Instrument.Directives.{
  Match, disable, directive_of, root_rule, process_stryker_directives, find_ignore_reason, to_lower,
  verdict, trim,
}
use isep_mutation_levels.Instrument.Latest.{
  visit_all, latest, directives_of, Visit, find_ignore_reason-latest,
}
use isep_mutation_levels.Instrument.Collector.{
  Mutable, Collected, codes, collect_mutants, api_status, Tree, branch, nil, cons, traverse,
}
use isep_mutation_levels.Instrument.Ignorers.{messages_in, traverse-messages}

-- What the samples compute with.
program : Unit {0}
unfolding directive_of process_stryker_directives find_ignore_reason verdict trim codes
    collect_mutants api_status traverse
program = tt

parsed :
    directive_of (codes " Stryker disable next-line Regex, all: it is slow")
    ≡ some (record {
      directive_type = disable;
      next_line = true;
      mutators = codes "Regex, all";
      reason = some (codes " it is slow");
    })
unfolding program
parsed = refl

abbrev visits : List Visit
visits =
    (3, codes " Stryker disable Regex, StringLiteral: not now" ∷ [])
    ∷ (5, codes " Stryker restore regex" ∷ codes "a comment" ∷ [])
    ∷ []

still_disabled :
    find_ignore_reason (visit_all visits root_rule) 9 (codes "StringLiteral")
    ≡ some (codes "not now")
unfolding program
still_disabled = refl

find_ignore_reason-latest_example :
    find_ignore_reason (visit_all visits root_rule) 9 (codes "Regex")
    ≡ latest (to_lower (codes "Regex")) 9 (directives_of visits) none
find_ignore_reason-latest_example = find_ignore_reason-latest visits 9 (codes "Regex")

abbrev blank : Match
blank = record {
  directive_type = disable;
  next_line = false;
  mutators = b'a' ∷ b'l' ∷ b'l' ∷ [];
  reason = some (b' ' ∷ []);
}

abbrev excluded : Text
excluded = b'x' ∷ []

abbrev collected : Collected
collected = record {
  id = "0";
  file_name = "a.js";
  mutator_name = "Regex";
  ignore_reason = some [];
  replacement = identifier "a";
}

abbrev mutables : List Mutable
mutables =
    record { replacement = identifier "a"; mutator_name = "Regex"; ignore_reason = some excluded }
    ∷ record { replacement = identifier "b"; mutator_name = "Regex"; ignore_reason = none }
    ∷ []

abbrev tree : Tree
tree = branch 0 [] (
    cons (branch 1 (some excluded ∷ none ∷ []) (cons (branch 2 (some [] ∷ []) nil) nil))
      (cons (branch 3 [] nil) nil))

traverse-messages_example : traverse tree none ≡ (messages_in none tree, none)
traverse-messages_example = traverse-messages tree none refl refl
