-- ===== src/Mutators/Exchange.antt =====
-- The mutators that exchange an operator: arithmetic-operator-mutator.ts,
-- assignment-operator-mutator.ts, equality-operator-mutator.ts, logical-operator-mutator.ts,
-- unary-operator-mutator.ts and update-operator-mutator.ts.
use Prim.Native.String.{◌++◌}
use text.Mathlib.Text.{starts_with}
use isep_mutation_levels.Prelude.{
  String, Bool, true, false, not, ◌&&◌, ◌||◌, List, [], ◌∷◌, map, none, some, lookup, elem, keep,
  ◌=s=◌, if◌then◌else◌,
}
use isep_mutation_levels.Syntax.{
  Node, string_literal, template_literal, binary, logical, assignment, unary, update,
}
use isep_mutation_levels.Mutators.Defs.{Operator, Operators, Mutation, word, entry, as_text}

abbrev pub is_string_type : Node → Bool
is_string_type (string_literal _) = true
is_string_type (template_literal _ _) = true
is_string_type _ = false

abbrev pub arithmetic_operators : Operators
arithmetic_operators =
    entry "+" (word "-") "AdditionOperatorNegation"
    ∷ entry "-" (word "+") "SubtractionOperatorNegation"
    ∷ entry "*" (word "/") "MultiplicationOperatorNegation"
    ∷ entry "/" (word "*") "DivisionOperatorNegation"
    ∷ entry "%" (word "*") "RemainderOperatorToMultiplicationReplacement"
    ∷ []

-- The left operand, or the right part of a chain on the left.
abbrev pub left_end : Node → Node
left_end (binary _ _ r) = r
left_end n = n

unfoldable pub arithmetic_mutate : Node → List Mutation
arithmetic_mutate (binary operator l r) = elim (lookup operator arithmetic_operators) [
  | none ↦ []
  | some o ↦
      if is_string_type r || is_string_type (left_end l)
      then []
      else (binary (as_text o.replacement) l r, o.mutation_operator) ∷ []
]
arithmetic_mutate _ = []

abbrev pub assignment_operators : Operators
assignment_operators =
    entry "+=" (word "-=") "AdditionAssignmentNegation"
    ∷ entry "-=" (word "+=") "SubtractionAssignmentNegation"
    ∷ entry "*=" (word "/=") "MultiplicationAssignmentNegation"
    ∷ entry "/=" (word "*=") "DivisionAssignmentNegation"
    ∷ entry "%=" (word "*=") "RemainderAssignmentToMultiplicationReplacement"
    ∷ entry "<<=" (word ">>=") "LeftShiftAssignmentNegation"
    ∷ entry ">>=" (word "<<=") "RightShiftAssignmentNegation"
    ∷ entry "&=" (word "|=") "BitwiseAndAssignmentToBitwiseOrReplacement"
    ∷ entry "|=" (word "&=") "BitwiseOrAssignmentToBitwiseAndReplacement"
    ∷ entry "&&=" (word "||=") "LogicalAndAssignmentToLogicalOrReplacement"
    ∷ entry "||=" (word "&&=") "LogicalOrAssignmentToLogicalAndReplacement"
    ∷ entry "??=" (word "&&=") "NullishCoalescingAssignmentToLogicalAndReplacement"
    ∷ []

abbrev pub string_assignment_types : List String
string_assignment_types = "&&=" ∷ "||=" ∷ "??=" ∷ []

unfoldable pub assignment_mutate : Node → List Mutation
assignment_mutate (assignment operator l r) = elim (lookup operator assignment_operators) [
  | none ↦ []
  | some o ↦
      if is_string_type r && not (elem operator string_assignment_types)
      then []
      else (assignment (as_text o.replacement) l r, o.mutation_operator) ∷ []
]
assignment_mutate _ = []

abbrev pub equality_operators : Operators
equality_operators =
    entry "<To<=" (word "<=") "LessThanOperatorBoundary"
    ∷ entry "<To>=" (word ">=") "LessThanOperatorNegation"
    ∷ entry "<=To<" (word "<") "LessThanEqualOperatorBoundary"
    ∷ entry "<=To>" (word ">") "LessThanEqualOperatorNegation"
    ∷ entry ">To>=" (word ">=") "GreaterThanOperatorBoundary"
    ∷ entry ">To<=" (word "<=") "GreaterThanOperatorNegation"
    ∷ entry ">=To>" (word ">") "GreaterThanEqualOperatorBoundary"
    ∷ entry ">=To<" (word "<") "GreaterThanEqualOperatorNegation"
    ∷ entry "==To!=" (word "!=") "EqualityOperatorNegation"
    ∷ entry "!=To==" (word "==") "InequalityOperatorNegation"
    ∷ entry "===To!==" (word "!==") "StrictEqualityOperatorNegation"
    ∷ entry "!==To===" (word "===") "StrictInequalityOperatorNegation"
    ∷ []

abbrev pub starts_from : String → String × Operator → Bool
starts_from operator e = starts_with e.0 (operator ++ "To")

-- `isEqualityOperator` holds exactly when the filtered list is not empty.
unfoldable pub equality_mutate : Node → List Mutation
equality_mutate (binary operator l r) =
    map (λ e. (binary (as_text e.1.replacement) l r, e.1.mutation_operator))
      (keep (starts_from operator) equality_operators)
equality_mutate _ = []

abbrev pub logical_operators : Operators
logical_operators =
    entry "&&" (word "||") "LogicalAndOperatorToLogicalOrReplacement"
    ∷ entry "||" (word "&&") "LogicalOrOperatorToLogicalAndReplacement"
    ∷ entry "??" (word "&&") "NullishCoalescingOperatorToLogicalAndReplacement"
    ∷ []

unfoldable pub logical_mutate : Node → List Mutation
logical_mutate (logical operator l r) = elim (lookup operator logical_operators) [
  | none ↦ []
  | some o ↦ (logical (as_text o.replacement) l r, o.mutation_operator) ∷ []
]
logical_mutate _ = []

abbrev pub unary_operators : Operators
unary_operators =
    entry "+" (word "-") "UnaryPlusOperatorNegation"
    ∷ entry "-" (word "+") "UnaryMinOperatorNegation"
    ∷ entry "~" (word "") "UnaryBitwiseNotRemoval"
    ∷ []

unfoldable pub unary_mutate : Node → List Mutation
unary_mutate (unary operator true argument) = elim (lookup operator unary_operators) [
  | none ↦ []
  | some o ↦
      (
        if as_text o.replacement =s= ""
            then argument
            else unary (as_text o.replacement) true argument,
        o.mutation_operator,
      )
      ∷ []
]
unary_mutate _ = []

abbrev pub update_operators : Operators
update_operators =
    entry "PostfixIncrementOperatorNegation" (word "--") "PostfixIncrementOperatorNegation"
    ∷ entry "PostfixDecrementOperatorNegation" (word "++") "PostfixDecrementOperatorNegation"
    ∷ entry "PrefixIncrementOperatorNegation" (word "--") "PrefixIncrementOperatorNegation"
    ∷ entry "PrefixDecrementOperatorNegation" (word "++") "PrefixDecrementOperatorNegation"
    ∷ []

abbrev pub update_key : String → Bool → String
update_key operator prefixed =
    if operator =s= "++"
    then if prefixed then "PrefixIncrementOperatorNegation" else "PostfixIncrementOperatorNegation"
    else if prefixed
    then "PrefixDecrementOperatorNegation"
    else "PostfixDecrementOperatorNegation"

unfoldable pub update_mutate : Node → List Mutation
update_mutate (update operator prefixed argument) =
    elim (lookup (update_key operator prefixed) update_operators) [
      | none ↦ []
      | some o ↦ (update (as_text o.replacement) prefixed argument, o.mutation_operator) ∷ []
    ]
update_mutate _ = []
