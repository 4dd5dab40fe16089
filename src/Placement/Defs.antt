-- ===== src/Placement/Defs.antt =====
-- packages/instrumenter/src/mutant-placers and the helpers of util/syntax-helpers.ts that they call:
-- the code that switches between the mutants at one place.
use isep_mutation_levels.Prelude.{String, Bool, true, false, ◌&&◌, List, [], ◌∷◌, map}
use isep_mutation_levels.Prelude.{if◌then◌else◌}
use isep_mutation_levels.Syntax.{
  Node, Nodes, NodePath, nil, cons, identifier, string_literal, call, plain, block,
  expression_statement, if_statement, switch_case, conditional, sequence,
}
use isep_mutation_levels.Placement.Paths.{Babel, name_if_anonymous, is_valid_expression}

abbrev pub cover_mutant_helper : String
cover_mutant_helper = "stryCov_9fa48"

abbrev pub is_mutant_active_helper : String
is_mutant_active_helper = "stryMutAct_9fa48"

-- The mutants at one place, in the order of the map: an id, and the node with the mutant applied.
abbrev pub Applied : Type 0
Applied = List (String × Node)

-- `appliedMutants.keys()`, by the ids.
abbrev pub ids : Applied → List String
ids applied = map (λ e. e.0) applied

unfoldable pub mutant_test_expression : String → Node
mutant_test_expression id =
    call plain (identifier is_mutant_active_helper) (cons (string_literal id) nil)

abbrev pub string_literals : List String → Nodes
string_literals [] = nil
string_literals (id ∷ rest) = cons (string_literal id) (string_literals rest)

-- The target expression is optional: it holds at most one node.
unfoldable pub mutation_coverage_sequence_expression : List String → (target : Nodes) → Node
mutation_coverage_sequence_expression mutants target =
    sequence (cons (call plain (identifier cover_mutant_helper) (string_literals mutants)) target)

-- `types.conditionalExpression(mutantTestExpression(mutant.id), appliedMutant, expression)` for each
-- of the mutants.
unfoldable pub wrap_expression : Applied → Node → Node
unfolding mutant_test_expression
wrap_expression [] expression = expression
wrap_expression ((id, applied) ∷ rest) expression =
    wrap_expression rest (conditional (mutant_test_expression id) applied expression)

unfoldable pub place_expression : Babel → NodePath → Applied → Node
unfolding name_if_anonymous mutation_coverage_sequence_expression wrap_expression
place_expression babel path applied =
    wrap_expression applied (
      mutation_coverage_sequence_expression (ids applied) (cons (name_if_anonymous babel path) nil))

unfoldable pub wrap_statement : Applied → Node → Node
unfolding mutant_test_expression
wrap_statement [] statement = statement
wrap_statement ((id, applied) ∷ rest) statement =
    wrap_statement rest
      (if_statement (mutant_test_expression id) (block (cons applied nil)) (cons statement nil))

abbrev pub body_of : Node → Nodes
body_of (block body) = body
body_of n = cons n nil

abbrev pub is_block : Node → Bool
is_block (block _) = true
is_block _ = false

abbrev pub coverage_statement : List String → Node
coverage_statement mutants =
    expression_statement (mutation_coverage_sequence_expression mutants nil)

unfoldable pub place_statement : NodePath → Applied → Node
unfolding mutation_coverage_sequence_expression wrap_statement
place_statement path applied =
    let statement =
      wrap_statement applied
        (block (cons (coverage_statement (ids applied)) (body_of path.node))) in
    if is_block path.node then block (cons statement nil) else statement

-- `appliedMutant.consequent`.
abbrev pub consequent_of : Node → Nodes
consequent_of (switch_case test consequent) = consequent
consequent_of _ = nil

unfoldable pub wrap_consequence : Applied → Node → Node
unfolding mutant_test_expression
wrap_consequence [] consequence = consequence
wrap_consequence ((id, applied) ∷ rest) consequence = wrap_consequence rest (
    if_statement (mutant_test_expression id) (block (consequent_of applied)) (cons consequence nil))

unfoldable pub place_switch_case : (test consequent : Nodes) → Applied → Node
unfolding mutation_coverage_sequence_expression wrap_consequence
place_switch_case test consequent applied = switch_case test (
    cons (wrap_consequence applied (block (cons (coverage_statement (ids applied)) consequent)))
      nil)

pub data Placer : Type 0 where
  expression_mutant_placer statement_mutant_placer switch_case_mutant_placer : Placer

unfoldable pub can_place : Babel → Placer → NodePath → Bool
unfolding is_valid_expression
can_place babel expression_mutant_placer path =
    babel.is_expression path.node && is_valid_expression path
can_place babel statement_mutant_placer path = babel.is_statement path.node
can_place babel switch_case_mutant_placer path = elim path.node [
  | switch_case _ _ ↦ true
  | _ ↦ false
]

abbrev pub all_mutant_placers : List Placer
all_mutant_placers =
    expression_mutant_placer ∷ statement_mutant_placer ∷ switch_case_mutant_placer ∷ []
