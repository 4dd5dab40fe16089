-- ===== src/Levels/Defs.antt =====
-- mutation-level.ts and default-mutation-levels.ts: a level's name and its groups, in the order
-- of the object's keys.
use isep_mutation_levels.Prelude.{String, List, [], ◌∷◌, ◌++◌, Option, lookup, insert, or_else}

abbrev pub Groups : Type 0
Groups = List (String × List String)

pub record MutationLevel : Type 0 where
  pub name : String
  pub groups : Groups

-- `level[key] ?? []`.
abbrev pub group_of : String → Groups → List String
group_of key gs = or_else (lookup key gs) []

abbrev pub level1 : MutationLevel
level1 = record {
  name = "Level1";
  groups =
      ("UpdateOperator", "PrefixDecrementOperatorNegation" ∷ [])
      ∷ (
        "EqualityOperator",
        "LessThanEqualOperatorNegation" ∷ "LessThanEqualOperatorBoundary"
            ∷ "EqualityOperatorNegation" ∷ "InequalityOperatorNegation"
            ∷ "GreaterThanEqualOperatorNegation" ∷ [],
      )
      ∷ ("ArrayDeclaration", "ArrayConstructorItemsRemoval" ∷ [])
      ∷ (
        "ConditionalExpression",
        "BooleanExpressionToFalseReplacement" ∷ "BooleanExpressionToTrueReplacement" ∷ [],
      )
      ∷ ("UnaryOperator", "UnaryPlusOperatorNegation" ∷ [])
      ∷ ("AssignmentOperator", "NullishCoalescingAssignmentToLogicalAndReplacement" ∷ [])
      ∷ (
        "ArithmeticOperator",
        "DivisionOperatorNegation" ∷ "RemainderOperatorToMultiplicationReplacement"
            ∷ "MultiplicationOperatorNegation" ∷ [],
      )
      ∷ (
        "OptionalChaining",
        "OptionalCallExpressionOptionalRemoval" ∷ "OptionalMemberExpressionOptionalRemoval" ∷ [],
      )
      ∷ [];
}

-- `[...(level[key] ?? []), ...more]` under the same key.
abbrev pub extend : String → List String → Groups → Groups
extend key more gs = insert key (group_of key gs ++ more) gs

abbrev pub level2 : MutationLevel
level2 = record {
  name = "Level2";
  groups = insert "BooleanLiteral" ("TrueLiteralNegation" ∷ []) (
      insert "Regex" ("RegexRemoval" ∷ []) (
        insert "StringLiteral"
          ("EmptyStringLiteralToFilledReplacement" ∷ "EmptyInterpolatedStringToFilledReplacement"
            ∷ [])
          (extend "ArithmeticOperator"
            ("AdditionOperatorNegation" ∷ "SubtractionOperatorNegation" ∷ [])
            (extend "ConditionalExpression" ("SwitchStatementBodyRemoval" ∷ []) (
              extend "EqualityOperator"
                ("LessThanOperatorNegation" ∷ "GreaterThanEqualOperatorBoundary"
                  ∷ "StrictInequalityOperatorNegation" ∷ "GreaterThanOperatorBoundary" ∷ [])
                (extend "UpdateOperator" ("PostfixIncrementOperatorNegation" ∷ [])
                  level1.groups))))));
}

abbrev pub level3 : MutationLevel
level3 = record {
  name = "Level3";
  groups = extend "BooleanLiteral" ("FalseLiteralNegation" ∷ "LogicalNotRemoval" ∷ []) (
      extend "UnaryOperator" ("UnaryMinOperatorNegation" ∷ []) (
        extend "ArrayDeclaration" ("ArrayLiteralItemsRemoval" ∷ "ArrayLiteralItemsFill" ∷ []) (
          extend "EqualityOperator"
            ("LessThanOperatorBoundary" ∷ "GreaterThanOperatorNegation" ∷ []) level2.groups)));
}

abbrev pub default_mutation_levels : List MutationLevel
default_mutation_levels = level1 ∷ level2 ∷ level3 ∷ []

-- mutator-options.ts, less `noHeader`.
pub record MutatorOptions : Type 0 where
  pub included_mutations : Option (List String)
  pub excluded_mutations : Option (List String)
