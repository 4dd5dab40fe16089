-- ===== src/Mutators/All.antt =====
-- packages/instrumenter/src/mutators/mutate.ts: the list of all mutators.
use isep_mutation_levels.Prelude.{List, [], ◌∷◌}
use isep_mutation_levels.Syntax.{parent}
use isep_mutation_levels.Mutators.Defs.{NodeMutator}
use isep_mutation_levels.Mutators.Exchange.{
  arithmetic_operators, arithmetic_mutate, assignment_operators, assignment_mutate,
  equality_operators, equality_mutate, logical_operators, logical_mutate, unary_operators,
  unary_mutate, update_operators, update_mutate,
}
use isep_mutation_levels.Mutators.Literals.{
  Weapon, array_operators, array_mutate, boolean_operators, boolean_mutate, object_operators,
  object_mutate, string_operators, string_mutate, regex_operators, regex_mutate,
}
use isep_mutation_levels.Mutators.Calls.{
  arrow_operators, arrow_mutate, method_operators, method_mutate, chaining_operators,
  chaining_mutate,
}
use isep_mutation_levels.Mutators.Statements.{
  block_operators, block_mutate, conditional_operators, conditional_mutate,
}

abbrev pub arithmetic_operator_mutator : NodeMutator
arithmetic_operator_mutator = record {
  name = "ArithmeticOperator";
  operators = arithmetic_operators;
  mutate = λ p. arithmetic_mutate p.node;
}

abbrev pub array_declaration_mutator : NodeMutator
array_declaration_mutator = record {
  name = "ArrayDeclaration";
  operators = array_operators;
  mutate = λ p. array_mutate p.node;
}

abbrev pub arrow_function_mutator : NodeMutator
arrow_function_mutator = record {
  name = "ArrowFunction";
  operators = arrow_operators;
  mutate = λ p. arrow_mutate p.node;
}

abbrev pub block_statement_mutator : NodeMutator
block_statement_mutator = record {
  name = "BlockStatement";
  operators = block_operators;
  mutate = λ p. block_mutate p.ancestors p.node;
}

abbrev pub boolean_literal_mutator : NodeMutator
boolean_literal_mutator = record {
  name = "BooleanLiteral";
  operators = boolean_operators;
  mutate = λ p. boolean_mutate p.node;
}

abbrev pub conditional_expression_mutator : NodeMutator
conditional_expression_mutator = record {
  name = "ConditionalExpression";
  operators = conditional_operators;
  mutate = λ p. conditional_mutate (parent p) p.node;
}

abbrev pub equality_operator_mutator : NodeMutator
equality_operator_mutator = record {
  name = "EqualityOperator";
  operators = equality_operators;
  mutate = λ p. equality_mutate p.node;
}

abbrev pub method_expression_mutator : NodeMutator
method_expression_mutator = record {
  name = "MethodExpression";
  operators = method_operators;
  mutate = λ p. method_mutate p.node;
}

abbrev pub logical_operator_mutator : NodeMutator
logical_operator_mutator = record {
  name = "LogicalOperator";
  operators = logical_operators;
  mutate = λ p. logical_mutate p.node;
}

abbrev pub object_literal_mutator : NodeMutator
object_literal_mutator = record {
  name = "ObjectLiteral";
  operators = object_operators;
  mutate = λ p. object_mutate p.node;
}

abbrev pub string_literal_mutator : NodeMutator
string_literal_mutator = record {
  name = "StringLiteral";
  operators = string_operators;
  mutate = λ p. string_mutate (parent p) p.node;
}

abbrev pub unary_operator_mutator : NodeMutator
unary_operator_mutator = record {
  name = "UnaryOperator";
  operators = unary_operators;
  mutate = λ p. unary_mutate p.node;
}

abbrev pub update_operator_mutator : NodeMutator
update_operator_mutator = record {
  name = "UpdateOperator";
  operators = update_operators;
  mutate = λ p. update_mutate p.node;
}

abbrev pub regex_mutator : Weapon → NodeMutator
regex_mutator weapon = record {
  name = "Regex";
  operators = regex_operators;
  mutate = λ p. regex_mutate weapon (parent p) p.node;
}

abbrev pub optional_chaining_mutator : NodeMutator
optional_chaining_mutator = record {
  name = "OptionalChaining";
  operators = chaining_operators;
  mutate = λ p. chaining_mutate p.node;
}

abbrev pub assignment_operator_mutator : NodeMutator
assignment_operator_mutator = record {
  name = "AssignmentOperator";
  operators = assignment_operators;
  mutate = λ p. assignment_mutate p.node;
}

abbrev pub all_mutators : Weapon → List NodeMutator
all_mutators weapon =
    arithmetic_operator_mutator
    ∷ array_declaration_mutator
    ∷ arrow_function_mutator
    ∷ block_statement_mutator
    ∷ boolean_literal_mutator
    ∷ conditional_expression_mutator
    ∷ equality_operator_mutator
    ∷ logical_operator_mutator
    ∷ method_expression_mutator
    ∷ object_literal_mutator
    ∷ string_literal_mutator
    ∷ unary_operator_mutator
    ∷ update_operator_mutator
    ∷ regex_mutator weapon
    ∷ optional_chaining_mutator
    ∷ assignment_operator_mutator
    ∷ []
