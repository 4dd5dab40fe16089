-- ===== src/Mutators/Calls.antt =====
-- The mutators of functions and calls: arrow-function-mutator.ts, method-expression-mutator.ts
-- and optional-chaining-mutator.ts.
use isep_mutation_levels.Prelude.{
  true, false, List, [], ◌∷◌, none, some, lookup, ◌=s=◌, if◌then◌else◌,
}
use isep_mutation_levels.Syntax.{
  Node, nil, identifier, arrow_function, block, call, member, in_chain,
}
use isep_mutation_levels.Mutators.Defs.{Operators, Mutation, absent, null, word, entry}

abbrev pub arrow_operators : Operators
arrow_operators = entry "ArrowFunctionRemoval" absent "ArrowFunctionRemoval" ∷ []

abbrev pub removed_arrow : Node
removed_arrow = arrow_function nil (identifier "undefined")

unfoldable pub arrow_mutate : Node → List Mutation
arrow_mutate (arrow_function _ (block _)) = []
arrow_mutate (arrow_function _ (identifier name)) =
    if name =s= "undefined" then [] else (removed_arrow, "ArrowFunctionRemoval") ∷ []
arrow_mutate (arrow_function _ _) = (removed_arrow, "ArrowFunctionRemoval") ∷ []
arrow_mutate _ = []

abbrev pub method_operators : Operators
method_operators =
    entry "charAt" null "CharAtMethodCallRemoval"
    ∷ entry "endsWith" (word "startsWith") "EndsWithMethodCallNegation"
    ∷ entry "startsWith" (word "endsWith") "StartsWithMethodCallNegation"
    ∷ entry "every" (word "some") "EveryMethodCallToSomeReplacement"
    ∷ entry "some" (word "every") "SomeMethodCallToEveryReplacement"
    ∷ entry "filter" null "FilterMethodCallRemoval"
    ∷ entry "reverse" null "ReverseMethodCallRemoval"
    ∷ entry "slice" null "SliceMethodCallRemoval"
    ∷ entry "sort" null "SortMethodCallRemoval"
    ∷ entry "substr" null "SubstrMethodCallRemoval"
    ∷ entry "substring" null "SubstringMethodCallRemoval"
    ∷ entry "toLocaleLowerCase" (word "toLocaleUpperCase") "ToLocaleLowerCaseMethodCallNegation"
    ∷ entry "toLocaleUpperCase" (word "toLocaleLowerCase") "ToLocaleUpperCaseMethodCallNegation"
    ∷ entry "toLowerCase" (word "toUpperCase") "ToLowerCaseMethodCallNegation"
    ∷ entry "toUpperCase" (word "toLowerCase") "ToUpperCaseMethodCallNegation"
    ∷ entry "trim" null "TrimMethodCallRemoval"
    ∷ entry "trimEnd" (word "trimStart") "TrimEndMethodCallNegation"
    ∷ entry "trimStart" (word "trimEnd") "TrimStartMethodCallNegation"
    ∷ entry "min" (word "max") "MinMethodCallNegation"
    ∷ entry "max" (word "min") "MaxMethodCallNegation"
    ∷ []

-- A new member expression is never computed.
unfoldable pub method_mutate : Node → List Mutation
method_mutate (call r (member m target (identifier name) computed) args) =
    elim (lookup name method_operators) [
      | none ↦ []
      | some o ↦ elim o.replacement [
        | word replacement ↦
            (call r (member m target (identifier replacement) false) args, o.mutation_operator) ∷ []
        | null ↦ (target, o.mutation_operator) ∷ []
        | _ ↦ []
      ]
    ]
method_mutate _ = []

abbrev pub chaining_operators : Operators
chaining_operators =
    entry "OptionalCallExpressionOptionalRemoval" absent "OptionalCallExpressionOptionalRemoval"
    ∷ entry "OptionalMemberExpressionOptionalRemoval" absent
        "OptionalMemberExpressionOptionalRemoval"
    ∷ entry "OptionalComputedMemberExpressionOptionalRemoval" absent
        "OptionalComputedMemberExpressionOptionalRemoval"
    ∷ []

unfoldable pub chaining_mutate : Node → List Mutation
chaining_mutate (member (in_chain true) target property computed) =
    (
      member (in_chain false) target property computed,
      if computed
          then "OptionalComputedMemberExpressionOptionalRemoval"
          else "OptionalMemberExpressionOptionalRemoval",
    )
    ∷ []
chaining_mutate (call (in_chain true) callee args) =
    (call (in_chain false) callee args, "OptionalCallExpressionOptionalRemoval") ∷ []
chaining_mutate _ = []
