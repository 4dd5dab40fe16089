-- ===== src/Placement/Paths.antt =====
-- packages/instrumenter/src/mutant-placers/expression-mutant-placer.ts: the names of anonymous expressions, and
-- which expressions can be replaced.
use isep_mutation_levels.Prelude.{Bool, true, false, not, ◌&&◌, ◌||◌, Option, none, some}
use isep_mutation_levels.Prelude.{if◌then◌else◌}
use isep_mutation_levels.Syntax.{
  Node, NodePath, Ancestor, parent, nil, cons, identifier, call, plain, arrow_function, block,
  object_property, member, function_expression, class_expression, variable_declaration,
  variable_declarator, return_statement, non_null, tagged_template, as_key, as_callee, as_property,
}

-- What Babel says of a node: its type predicates, and the nearest statement.
pub record Babel : Type 0 where
  pub is_expression : Node → Bool
  pub is_statement : Node → Bool
  pub statement_parent : NodePath → Option Node

abbrev pub is_identifier : Node → Bool
is_identifier (identifier _) = true
is_identifier _ = false

abbrev pub is_variable_declaration : Option Node → Bool
is_variable_declaration (some (variable_declaration _ _)) = true
is_variable_declaration _ = false

-- The name that the declaration around an anonymous expression gives it.
unfoldable pub name_from_parent : Babel → NodePath → Option Node
name_from_parent babel path = elim (parent path) [
  | none ↦ none
  | some above ↦ elim above.node [
    | variable_declarator id _ ↦ if is_identifier id then some id else none
    | object_property key _ ↦
        if is_identifier key && is_variable_declaration (babel.statement_parent path)
        then some key
        else none
    | _ ↦ none
  ]
]

unfoldable pub class_or_function_expression_named_if_needed : Babel → NodePath → Option Node
unfolding name_from_parent
class_or_function_expression_named_if_needed babel path = elim path.node [
  | function_expression nil params body ↦ elim (name_from_parent babel path) [
    | none ↦ none
    | some id ↦ some (function_expression (cons id nil) params body)
  ]
  | class_expression nil body ↦ elim (name_from_parent babel path) [
    | none ↦ none
    | some id ↦ some (class_expression (cons id nil) body)
  ]
  | _ ↦ none
]

-- `(() => { const a = () => {}; return a; })()`.
abbrev pub arrow_function_with_name : (id arrow : Node) → Node
arrow_function_with_name id arrow =
    call plain
      (arrow_function nil (
        block (
          cons (variable_declaration "const" (cons (variable_declarator id (cons arrow nil)) nil))
            (cons (return_statement (cons id nil)) nil))))
      nil

unfoldable pub arrow_function_expression_named_if_needed : NodePath → Option Node
arrow_function_expression_named_if_needed path = elim path.node [
  | arrow_function params body ↦ elim (parent path) [
    | none ↦ none
    | some above ↦ elim above.node [
      | variable_declarator id _ ↦
          if is_identifier id
          then some (arrow_function_with_name id (arrow_function params body))
          else none
      | _ ↦ none
    ]
  ]
  | _ ↦ none
]

unfoldable pub name_if_anonymous : Babel → NodePath → Node
unfolding class_or_function_expression_named_if_needed arrow_function_expression_named_if_needed
name_if_anonymous babel path = elim (class_or_function_expression_named_if_needed babel path) [
  | some named ↦ named
  | none ↦ elim (arrow_function_expression_named_if_needed path) [
    | some named ↦ named
    | none ↦ path.node
  ]
]

abbrev pub is_member_expression : Node → Bool
is_member_expression (member _ _ _ _) = true
is_member_expression _ = false

abbrev pub is_call_expression : Node → Bool
is_call_expression (call _ _ _) = true
is_call_expression _ = false

abbrev pub is_non_null_expression : Node → Bool
is_non_null_expression (non_null _) = true
is_non_null_expression _ = false

abbrev pub is_member_or_call_or_non_null_expression : Node → Bool
is_member_or_call_or_non_null_expression n =
    is_call_expression n || (is_member_expression n || is_non_null_expression n)

-- What a parent says of the node under it: a chain that the node is part of.
unfoldable pub continues_chain : Ancestor → Bool
continues_chain above = elim above.node [
  | member _ _ _ computed ↦ not (computed && elim above.slot [ as_property ↦ true | _ ↦ false ])
  | non_null _ ↦ true
  | call _ _ _ ↦ elim above.slot [ as_callee ↦ true | _ ↦ false ]
  | _ ↦ false
]

unfoldable pub is_object_property_key : Ancestor → Bool
is_object_property_key above = elim above.node [
  | object_property _ _ ↦ elim above.slot [ as_key ↦ true | _ ↦ false ]
  | _ ↦ false
]

abbrev pub is_tagged_template : Node → Bool
is_tagged_template (tagged_template _ _) = true
is_tagged_template _ = false

unfoldable pub is_valid_expression : NodePath → Bool
unfolding is_object_property_key continues_chain
is_valid_expression path = elim (parent path) [
  | none ↦ true
  | some above ↦
      not (is_object_property_key above)
      && not (is_member_or_call_or_non_null_expression path.node && continues_chain above)
      && not (is_tagged_template above.node)
]
