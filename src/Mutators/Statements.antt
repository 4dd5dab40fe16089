-- ===== src/Mutators/Statements.antt =====
-- The mutators of statements and conditions: block-statement-mutator.ts and
-- conditional-expression-mutator.ts.
use isep_mutation_levels.Prelude.{
  String, Bool, true, false, ◌&&◌, ◌||◌, List, [], ◌∷◌, Option, none, some, elem, ◌=s=◌,
  if◌then◌else◌,
}
use isep_mutation_levels.Syntax.{
  Node, Nodes, Ancestor, while_loop, do_while_loop, nil, cons, boolean_literal, binary, logical,
  block, call, plain, expression_statement, super_node, class_method, class_body, class_property,
  if_statement, loop, for_statement, switch_case, other, as_test, any_node,
}
use isep_mutation_levels.Mutators.Defs.{Operators, Mutation, absent, node, nodes, entry}

abbrev pub block_operators : Operators
block_operators = entry "BlockStatementRemoval" absent "BlockStatementRemoval" ∷ []

abbrev pub is_parameter_property : Node → Bool
is_parameter_property (other type _) = type =s= "TSParameterProperty"
is_parameter_property _ = false

abbrev pub is_initialized_property : Node → Bool
is_initialized_property (class_property _ (cons _ _)) = true
is_initialized_property _ = false

-- `containsInitializedClassProperties`, of the ancestor above the constructor.
abbrev pub has_initialized_properties : List Ancestor → Bool
has_initialized_properties [] = false
has_initialized_properties (a ∷ _) = elim a.node [
  | class_body members ↦ any_node is_initialized_property members
  | _ ↦ false
]

-- `hasSuperExpressionOnFirstLine`.
abbrev pub starts_with_super : Nodes → Bool
starts_with_super (cons (expression_statement (call plain super_node _)) _) = true
starts_with_super _ = false

unfoldable pub is_invalid_constructor_body : List Ancestor → Nodes → Bool
is_invalid_constructor_body [] body = false
is_invalid_constructor_body (a ∷ above) body = elim a.node [
  | class_method kind params _ ↦
      (kind =s= "constructor")
      && (any_node is_parameter_property params || has_initialized_properties above)
      && starts_with_super body
  | _ ↦ false
]

unfoldable pub block_mutate : List Ancestor → Node → List Mutation
unfolding is_invalid_constructor_body
block_mutate above (block (cons statement rest)) =
    if is_invalid_constructor_body above (cons statement rest)
    then []
    else (block nil, "BlockStatementRemoval") ∷ []
block_mutate _ _ = []

abbrev pub conditional_operators : Operators
conditional_operators =
    entry "BooleanExpressionToFalseReplacement" (node (boolean_literal false))
      "BooleanExpressionToFalseReplacement"
    ∷ entry "BooleanExpressionToTrueReplacement" (node (boolean_literal true))
        "BooleanExpressionToTrueReplacement"
    ∷ entry "DoWhileLoopConditionToFalseReplacement" (node (boolean_literal false))
        "DoWhileLoopConditionToFalseReplacement"
    ∷ entry "ForLoopConditionToFalseReplacement" (node (boolean_literal false))
        "ForLoopConditionToFalseReplacement"
    ∷ entry "IfConditionToFalseReplacement" (node (boolean_literal false))
        "IfConditionToFalseReplacement"
    ∷ entry "IfConditionToTrueReplacement" (node (boolean_literal true))
        "IfConditionToTrueReplacement"
    ∷ entry "WhileLoopConditionToFalseReplacement" (node (boolean_literal false))
        "WhileLoopConditionToFalseReplacement"
    ∷ entry "SwitchStatementBodyRemoval" (nodes nil) "SwitchStatementBodyRemoval"
    ∷ []

abbrev pub boolean_operator_names : List String
boolean_operator_names = "!=" ∷ "!==" ∷ "&&" ∷ "<" ∷ "<=" ∷ "==" ∷ "===" ∷ ">" ∷ ">=" ∷ "||" ∷ []

-- What the node is the test of.
pub data TestOf : Type 0 where
  no_test while_test do_while_test for_test if_test : TestOf

abbrev pub test_of_statement : Node → TestOf
test_of_statement (loop while_loop _ _) = while_test
test_of_statement (loop do_while_loop _ _) = do_while_test
test_of_statement (for_statement _ _ _ _) = for_test
test_of_statement (if_statement _ _ _) = if_test
test_of_statement _ = no_test

-- `isTestOfLoop`, `isTestOfWhileLoop`, `isTestOfDoWhileLoop`, `isTestOfForLoop` and
-- `isTestOfCondition` together.
unfoldable pub test_of : Option Ancestor → TestOf
test_of none = no_test
test_of (some a) = elim a.slot [ as_test ↦ test_of_statement a.node | _ ↦ no_test ]

unfoldable pub is_boolean_expression : Node → Bool
is_boolean_expression (binary operator _ _) = elem operator boolean_operator_names
is_boolean_expression (logical operator _ _) = elem operator boolean_operator_names
is_boolean_expression _ = false

abbrev pub logical_operator_of : Option Ancestor → String
logical_operator_of none = ""
logical_operator_of (some a) = elim a.node [ logical operator _ _ ↦ operator | _ ↦ "" ]

abbrev pub to_false : String → Mutation
to_false operator = (boolean_literal false, operator)

abbrev pub to_true : String → Mutation
to_true operator = (boolean_literal true, operator)

-- Under `||` only `false` is tried and under `&&` only `true`.
unfoldable pub boolean_expression_mutations : Option Ancestor → List Mutation
boolean_expression_mutations a =
    if logical_operator_of a =s= "||"
    then to_false "BooleanExpressionToFalseReplacement" ∷ []
    else if logical_operator_of a =s= "&&"
    then to_true "BooleanExpressionToTrueReplacement" ∷ []
    else to_true "BooleanExpressionToTrueReplacement"
      ∷ to_false "BooleanExpressionToFalseReplacement"
      ∷ []

-- The last two branches: a `for` with no test, and a case that is no fallthrough.
unfoldable pub bare_mutations : Node → List Mutation
bare_mutations (for_statement init nil update body) =
    (
      for_statement init (cons (boolean_literal false) nil) update body,
      "ForLoopConditionToFalseReplacement",
    )
    ∷ []
bare_mutations (switch_case test (cons _ _)) =
    (switch_case test nil, "SwitchStatementBodyRemoval") ∷ []
bare_mutations _ = []

unfoldable pub conditional_mutate : Option Ancestor → Node → List Mutation
unfolding test_of is_boolean_expression boolean_expression_mutations bare_mutations
conditional_mutate a n = elim (test_of a) [
  | while_test ↦ to_false "WhileLoopConditionToFalseReplacement" ∷ []
  | do_while_test ↦ to_false "DoWhileLoopConditionToFalseReplacement" ∷ []
  | for_test ↦ to_false "ForLoopConditionToFalseReplacement" ∷ []
  | if_test ↦ to_true "IfConditionToTrueReplacement" ∷ to_false "IfConditionToFalseReplacement" ∷ []
  | no_test ↦ if is_boolean_expression n then boolean_expression_mutations a else bare_mutations n
]
