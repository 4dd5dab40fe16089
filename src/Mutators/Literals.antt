-- ===== src/Mutators/Literals.antt =====
-- The mutators of literals: array-declaration-mutator.ts, boolean-literal-mutator.ts,
-- object-literal-mutator.ts, string-literal-mutator.ts and regex-mutator.ts.
use isep_mutation_levels.Prelude.{
  String, Bool, true, false, not, ◌&&◌, List, [], ◌∷◌, map, Option, none, some, elem, ◌=s=◌,
  if◌then◌else◌,
}
use isep_mutation_levels.Syntax.{
  Node, Nodes, Ancestor, nil, cons, identifier, string_literal, boolean_literal, reg_exp_literal,
  template_literal, unary, array, object, call, new_expression, plain, other, object_property,
  class_property, expression_statement, as_key, as_first_argument,
}
use isep_mutation_levels.Mutators.Defs.{Operators, Mutation, absent, word, flag, node, nodes, entry}

abbrev pub filler : Node
filler = string_literal "Stryker was here"

abbrev pub array_operators : Operators
array_operators =
    entry "ArrayLiteralItemsFill" (node (array (cons filler nil))) "ArrayLiteralItemsFill"
    ∷ entry "ArrayConstructorItemsFill" (nodes (cons filler nil)) "ArrayConstructorItemsFill"
    ∷ entry "ArrayLiteralItemsRemoval" (node (array nil)) "ArrayLiteralItemsRemoval"
    ∷ entry "ArrayConstructorItemsRemoval" (nodes nil) "ArrayConstructorItemsRemoval"
    ∷ []

unfoldable pub array_mutate : Node → List Mutation
array_mutate (array nil) = (array (cons filler nil), "ArrayLiteralItemsFill") ∷ []
array_mutate (array (cons _ _)) = (array nil, "ArrayLiteralItemsRemoval") ∷ []
array_mutate (call plain (identifier f) nil) =
    if f =s= "Array"
    then (call plain (identifier f) (cons filler nil), "ArrayConstructorItemsFill") ∷ []
    else []
array_mutate (call plain (identifier f) (cons _ _)) =
    if f =s= "Array"
    then (call plain (identifier f) nil, "ArrayConstructorItemsRemoval") ∷ []
    else []
array_mutate (new_expression (identifier f) nil) =
    if f =s= "Array"
    then (new_expression (identifier f) (cons filler nil), "ArrayConstructorItemsFill") ∷ []
    else []
array_mutate (new_expression (identifier f) (cons _ _)) =
    if f =s= "Array"
    then (new_expression (identifier f) nil, "ArrayConstructorItemsRemoval") ∷ []
    else []
array_mutate _ = []

abbrev pub boolean_operators : Operators
boolean_operators =
    entry "true" (flag false) "TrueLiteralNegation"
    ∷ entry "false" (flag true) "FalseLiteralNegation"
    ∷ entry "!" (word "") "LogicalNotRemoval"
    ∷ []

unfoldable pub boolean_mutate : Node → List Mutation
boolean_mutate (boolean_literal true) = (boolean_literal false, "TrueLiteralNegation") ∷ []
boolean_mutate (boolean_literal false) = (boolean_literal true, "FalseLiteralNegation") ∷ []
boolean_mutate (unary operator true argument) =
    if operator =s= "!" then (argument, "LogicalNotRemoval") ∷ [] else []
boolean_mutate _ = []

abbrev pub object_operators : Operators
object_operators =
    entry "ObjectLiteralPropertiesRemoval" absent "ObjectLiteralPropertiesRemoval" ∷ []

unfoldable pub object_mutate : Node → List Mutation
object_mutate (object (cons _ _)) = (object nil, "ObjectLiteralPropertiesRemoval") ∷ []
object_mutate _ = []

abbrev pub filled_string : Node
filled_string = string_literal "Stryker was here!"

abbrev pub filled_template : Node
filled_template = template_literal ("Stryker was here!" ∷ []) nil

abbrev pub empty_template : Node
empty_template = template_literal ("" ∷ []) nil

abbrev pub string_operators : Operators
string_operators =
    entry "EmptyStringLiteralToFilledReplacement" (node filled_string)
      "EmptyStringLiteralToFilledReplacement"
    ∷ entry "FilledStringLiteralToEmptyReplacement" (node (string_literal ""))
        "FilledStringLiteralToEmptyReplacement"
    ∷ entry "FilledInterpolatedStringToEmptyReplacement" (node empty_template)
        "FilledInterpolatedStringToEmptyReplacement"
    ∷ entry "EmptyInterpolatedStringToFilledReplacement" (node filled_template)
        "EmptyInterpolatedStringToFilledReplacement"
    ∷ []

-- The node types under which a string is no value: imports, exports, types, statements, members.
abbrev pub string_free_types : List String
string_free_types =
    "ImportDeclaration" ∷ "ExportAllDeclaration" ∷ "ExportDefaultDeclaration"
    ∷ "ExportNamedDeclaration" ∷ "TSExternalModuleReference" ∷ "JSXAttribute" ∷ "TSLiteralType"
    ∷ "ObjectMethod" ∷ []

unfoldable pub is_valid_parent : Option Ancestor → Bool
is_valid_parent none = true
is_valid_parent (some a) = elim a.node [
  | other type _ ↦ not (elem type string_free_types)
  | expression_statement _ ↦ false
  | object_property _ _ ↦ elim a.slot [ as_key ↦ false | _ ↦ true ]
  | class_property _ _ ↦ elim a.slot [ as_key ↦ false | _ ↦ true ]
  | call plain (identifier f) _ ↦ not (f =s= "require") && not (f =s= "Symbol")
  | _ ↦ true
]

abbrev pub is_empty_template : List String → Bool
is_empty_template (raw ∷ []) = raw =s= ""
is_empty_template _ = false

unfoldable pub string_mutate : Option Ancestor → Node → List Mutation
unfolding is_valid_parent
string_mutate _ (template_literal quasis _) =
    if is_empty_template quasis
    then (filled_template, "EmptyInterpolatedStringToFilledReplacement") ∷ []
    else (empty_template, "FilledInterpolatedStringToEmptyReplacement") ∷ []
string_mutate a (string_literal value) =
    if is_valid_parent a
    then if value =s= ""
      then (filled_string, "EmptyStringLiteralToFilledReplacement") ∷ []
      else (string_literal "", "FilledStringLiteralToEmptyReplacement") ∷ []
    else []
string_mutate _ _ = []

abbrev pub regex_operators : Operators
regex_operators = entry "RegexRemoval" absent "RegexRemoval" ∷ []

-- The flags that the second argument of `new RegExp` gives.
abbrev pub get_flags : Nodes → Option String
get_flags (cons _ (cons (string_literal flags) _)) = some flags
get_flags _ = none

-- `isObviousRegexString`, with the flags: the node is the first argument of `new RegExp`.
unfoldable pub obvious_regex_flags : Option Ancestor → Option (Option String)
obvious_regex_flags none = none
obvious_regex_flags (some a) = elim a.node [
  | new_expression (identifier f) args ↦
      if f =s= "RegExp"
      then elim a.slot [ as_first_argument ↦ some (get_flags args) | _ ↦ none ]
      else none
  | _ ↦ none
]

-- `weaponRegex.mutate` of the weapon-regex package: `none` where it throws.
abbrev pub Weapon : Type 0
Weapon = (pattern : String) → (flags : Option String) → Option (List String)

module _ (weapon : Weapon) where
  unfoldable pub mutate_pattern : String → Option String → List String
  mutate_pattern pattern flags =
      if pattern =s= "" then [] else elim (weapon pattern flags) [ none ↦ [] | some ps ↦ ps ]

  unfoldable pub regex_mutate : Option Ancestor → Node → List Mutation
  unfolding mutate_pattern obvious_regex_flags
  regex_mutate _ (reg_exp_literal pattern flags) =
      map (λ p. (reg_exp_literal p flags, "RegexRemoval")) (mutate_pattern pattern (some flags))
  regex_mutate a (string_literal value) = elim (obvious_regex_flags a) [
    | none ↦ []
    | some flags ↦ map (λ p. (string_literal p, "RegexRemoval")) (mutate_pattern value flags)
  ]
  regex_mutate _ _ = []
