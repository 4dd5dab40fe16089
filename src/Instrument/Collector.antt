-- ===== src/Instrument/Collector.antt =====
-- babel-transformer.ts, mutant-collector.ts, ignorer-bookkeeper.ts and mutant.ts: the mutants of a
-- node, why they are ignored, and how they are reported.
use Prim.Native.Char.{code}
use isep_mutation_levels.Prelude.{
  ℕ, String, Bool, true, false, not, ◌&&◌, List, [], ◌∷◌, ◌++◌, map, Option, none, some, length,
  any, ◌==◌, ◌=s=◌, if◌then◌else◌,
}
use isep_mutation_levels.Prelude.Int.{pos, ◌+ℤ◌, negsuc, eq_ℤ}
use isep_mutation_levels.Api.{MutantStatus, ignored}
use isep_mutation_levels.Syntax.{Node, NodePath}
use isep_mutation_levels.Differ.Positions.{Text, Position}
use isep_mutation_levels.Differ.Keys.{print}
use isep_mutation_levels.Mutators.Defs.{NodeMutator, Mutation}
use isep_mutation_levels.Levels.Update.{RunLevel, find_excluded_ignore_reason}
use isep_mutation_levels.Instrument.Directives.{Rule, find_ignore_reason}

-- The codes of a string's characters.
unfoldable pub codes : String → Text
codes String.[] = []
codes (String.◌∷◌ c s) = code c ∷ codes s

abbrev pub as_codes : Option String → Option Text
as_codes none = none
as_codes (some s) = some (codes s)

-- `a ?? b`.
abbrev pub otherwise : Option Text → Option Text → Option Text
otherwise none b = b
otherwise (some a) b = some a

pub record Mutable : Type 0 where
  pub replacement : Node
  pub mutator_name : String
  pub ignore_reason : Option Text

-- What the transformer asks for the reasons: the current directive, the run level, and the message
-- of the ignorer that is active.
pub record Reasons : Type 0 where
  pub rule : Rule
  pub run_level : RunLevel
  pub current_ignore_message : Option Text

unfoldable pub mutable_of : Reasons → (line : ℕ) → NodeMutator → Mutation → Mutable
unfolding find_ignore_reason find_excluded_ignore_reason codes
mutable_of r line mutator (replacement, operator) = record {
  replacement = replacement;
  mutator_name = mutator.name;
  ignore_reason = otherwise (find_ignore_reason r.rule line (codes mutator.name)) (
      otherwise (as_codes (find_excluded_ignore_reason r.run_level mutator.name operator))
        r.current_ignore_message);
}

unfoldable pub mutate : Reasons → (line : ℕ) → List NodeMutator → NodePath → List Mutable
unfolding mutable_of
mutate r line [] path = []
mutate r line (mutator ∷ mutators) path =
    map (mutable_of r line mutator) (mutator.mutate path) ++ mutate r line mutators path

-- `Mutant` of the instrumenter, the original node being known by its place.
pub record Collected : Type 0 where
  pub id : String
  pub file_name : String
  pub mutator_name : String
  pub ignore_reason : Option Text
  pub replacement : Node

unfoldable pub collect :
    (file_name : String) → Mutable → List Collected → Collected × List Collected
collect file_name mutable mutants =
    let mutant : Collected = record {
      id = print (pos (length mutants));
      file_name = file_name;
      mutator_name = mutable.mutator_name;
      ignore_reason = mutable.ignore_reason;
      replacement = mutable.replacement;
    } in
    (mutant, mutants ++ mutant ∷ [])

-- An empty reason is as falsy as none.
abbrev pub is_truthy : Option Text → Bool
is_truthy none = false
is_truthy (some []) = false
is_truthy (some (c ∷ text)) = true

-- `collectMutants`: the mutants to place, and all that have been collected.
unfoldable pub collect_mutants :
    (file_name : String) → List Mutable → List Collected → List Collected × List Collected
unfolding collect
collect_mutants file_name [] mutants = ([], mutants)
collect_mutants file_name (mutable ∷ mutables) mutants =
    let (mutant, mutants') = collect file_name mutable mutants in
    let (to_place, all_mutants) = collect_mutants file_name mutables mutants' in
    (if is_truthy mutant.ignore_reason then to_place else mutant ∷ to_place, all_mutants)

unfoldable pub has_placed_mutants : (file_name : String) → List Collected → Bool
has_placed_mutants file_name mutants =
    any (λ m. (m.file_name =s= file_name) && not (is_truthy m.ignore_reason)) mutants

-- `status` of `toApiMutant`.
unfoldable pub api_status : Collected → Option MutantStatus
api_status m = if is_truthy m.ignore_reason then some ignored else none

-- `toPosition`: lines of the source begin with 1.
unfoldable pub to_position : (source offset : Position) → Position
unfolding ◌+ℤ◌
to_position source offset = record {
  line = (source.line +ℤ offset.line) +ℤ negsuc 0;
  column = source.column +ℤ (if eq_ℤ source.line (pos 1) then offset.column else pos 0);
}

-- ignorer-bookkeeper.ts. A node is known by its number, and what the ignorers say of it is given,
-- in their order.
pub record ActiveIgnored : Type 0 where
  pub node : ℕ
  pub message : Text

abbrev pub last_message : List (Option Text) → Option Text → Option Text
last_message [] found = found
last_message (answer ∷ answers) found =
    last_message answers (if is_truthy answer then answer else found)

unfoldable pub enter_node :
    (node : ℕ) → (answers : List (Option Text)) → Option ActiveIgnored → Option ActiveIgnored
enter_node node answers (some active) = some active
enter_node node answers none = elim (last_message answers none) [
  | none ↦ none
  | some message ↦ some (record { node = node; message = message })
]

unfoldable pub leave_node : (node : ℕ) → Option ActiveIgnored → Option ActiveIgnored
leave_node node none = none
leave_node node (some active) = if active.node == node then none else some active

-- A syntax tree as the traversal enters and leaves it, less the nodes that it skips, with what the
-- ignorers answer at each node.
mutual
  pub data Tree : Type 0 where
    branch : (node : ℕ) → (answers : List (Option Text)) → Trees → Tree

  pub data Trees : Type 0 where
    nil : Trees
    cons : Tree → Trees → Trees

abbrev pub message_of : Option ActiveIgnored → Option Text
message_of none = none
message_of (some active) = some active.message

-- Of the traversal the calls of `enterNode` and `leaveNode`: the message that is current at each node,
-- and the state behind the tree.
unfoldable mutual
  unfolding enter_node leave_node

  pub traverse : Tree → Option ActiveIgnored → List (ℕ × Option Text) × Option ActiveIgnored
  traverse (branch node answers children) active =
      let entered = enter_node node answers active in
      let (messages, left) = traverse_all children entered in
      ((node, message_of entered) ∷ messages, leave_node node left)

  pub traverse_all : Trees → Option ActiveIgnored → List (ℕ × Option Text) × Option ActiveIgnored
  traverse_all nil active = ([], active)
  traverse_all (cons tree trees) active =
      let (messages, left) = traverse tree active in
      let (messages', left') = traverse_all trees left in (messages ++ messages', left')
