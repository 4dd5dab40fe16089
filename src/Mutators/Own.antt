-- ===== src/Mutators/Own.antt =====
-- The names under which the mutators yield are names of their own tables, which is what the run
-- level is built from.
use isep_mutation_levels.Prelude.{
  ◌≡◌, refl, String, Bool, true, false, List, [], ◌∷◌, map, Option, none, some, inl, inr, arith,
  lookup, elem, all, keep, Option-cases, eq_refl,
}
use isep_mutation_levels.Syntax.{
  Node, Ancestor, NodePath, binary, logical, assignment, unary, update, parent, string_literal,
  reg_exp_literal, template_literal, call, member, identifier, in_chain, block, cons,
}
use isep_mutation_levels.Mutators.Defs.{Operator, Operators, Mutation, operator_names}
use isep_mutation_levels.Mutators.Exchange.{
  arithmetic_operators, arithmetic_mutate, assignment_operators, assignment_mutate,
  equality_operators, equality_mutate, logical_operators, logical_mutate, unary_operators,
  unary_mutate, update_operators, update_mutate, update_key, starts_from,
}
use isep_mutation_levels.Mutators.Literals.{
  Weapon, array_operators, array_mutate, boolean_operators, boolean_mutate, object_operators,
  object_mutate, string_operators, string_mutate, regex_operators, regex_mutate,
  obvious_regex_flags, mutate_pattern,
}
use isep_mutation_levels.Mutators.Calls.{
  arrow_operators, arrow_mutate, method_operators, method_mutate, chaining_operators,
  chaining_mutate,
}
use isep_mutation_levels.Mutators.Statements.{
  block_operators, block_mutate, conditional_operators, conditional_mutate,
  boolean_expression_mutations, bare_mutations,
}
use isep_mutation_levels.Mutators.All.{all_mutators}

-- Every yield's operator is in the table.
abbrev pub owns : Operators → List Mutation → Bool
owns ops ys = all (λ y. elem y.1 (operator_names ops)) ys

elem-lookup :
    (k : String) (ops : Operators) {o : Operator}
    → lookup k ops ≡ some o
    → elem o.mutation_operator (operator_names ops) ≡ true
elem-lookup k [] h = cc
elem-lookup k ((j, p) ∷ ops) {o} h =
    ground (arith, eq_refl p.mutation_operator, elem-lookup k ops {o = o})

-- A yield for what the table holds under a key, and none for a key that it lacks.
owns-lookup :
    (k : String) (ops : Operators) (f : Operator → List Mutation)
    → ((o : Operator) → lookup k ops ≡ some o → owns ops (f o) ≡ true)
    → owns ops (elim (lookup k ops) [ none ↦ [] | some o ↦ f o ]) ≡ true
owns-lookup k ops f h = elim (Option-cases (lookup k ops)) [
  | inl e ↦ rw e
  | inr (o, e) ↦ rw e (h o e)
]

arithmetic-owns : (n : Node) → owns arithmetic_operators (arithmetic_mutate n) ≡ true
unfolding arithmetic_mutate
arithmetic-owns (binary operator l r) =
    owns-lookup operator arithmetic_operators _
      λ o e. ground (arith, elem-lookup operator arithmetic_operators {o = o} e)
arithmetic-owns _ = refl

assignment-owns : (n : Node) → owns assignment_operators (assignment_mutate n) ≡ true
unfolding assignment_mutate
assignment-owns (assignment operator l r) =
    owns-lookup operator assignment_operators _
      λ o e. ground (arith, elem-lookup operator assignment_operators {o = o} e)
assignment-owns _ = refl

logical-owns : (n : Node) → owns logical_operators (logical_mutate n) ≡ true
unfolding logical_mutate
logical-owns (logical operator l r) =
    owns-lookup operator logical_operators _
      λ o e. ground (arith, elem-lookup operator logical_operators {o = o} e)
logical-owns _ = refl

unary-owns : (n : Node) → owns unary_operators (unary_mutate n) ≡ true
unfolding unary_mutate
unary-owns (unary operator true argument) =
    owns-lookup operator unary_operators _
      λ o e. ground (arith, elem-lookup operator unary_operators {o = o} e)
unary-owns _ = refl

update-owns : (n : Node) → owns update_operators (update_mutate n) ≡ true
unfolding update_mutate
update-owns (update operator prefixed argument) =
    owns-lookup (update_key operator prefixed) update_operators _
      λ o e. ground (arith, elem-lookup (update_key operator prefixed) update_operators {o = o} e)
update-owns _ = refl

owns-keep :
    (ops es : Operators) (p : String × Operator → Bool) (f : String × Operator → Node)
    → all (λ e. elem e.1.mutation_operator (operator_names ops)) es ≡ true
    → owns ops (map (λ e. (f e, e.1.mutation_operator)) (keep p es)) ≡ true
owns-keep ops [] p f h = refl
owns-keep ops (e ∷ es) p f h = ground (arith, owns-keep ops es p f)

equality-owns : (n : Node) → owns equality_operators (equality_mutate n) ≡ true
unfolding equality_mutate
equality-owns (binary operator l r) =
    owns-keep equality_operators equality_operators (starts_from operator) _ refl
equality-owns _ = refl

array-owns : (n : Node) → owns array_operators (array_mutate n) ≡ true
unfolding array_mutate
array-owns n = ground arith

boolean-owns : (n : Node) → owns boolean_operators (boolean_mutate n) ≡ true
unfolding boolean_mutate
boolean-owns n = ground arith

object-owns : (n : Node) → owns object_operators (object_mutate n) ≡ true
unfolding object_mutate
object-owns n = ground arith

string-owns : (a : Option Ancestor) (n : Node) → owns string_operators (string_mutate a n) ≡ true
unfolding string_mutate
string-owns a (template_literal quasis _) = ground arith
string-owns a (string_literal value) = ground arith
string-owns a _ = refl

owns-map :
    (f : String → Node) (ps : List String)
    → owns regex_operators (map (λ p. (f p, "RegexRemoval")) ps) ≡ true
owns-map f [] = refl
owns-map f (p ∷ ps) = owns-map f ps

regex-owns :
    (weapon : Weapon) (a : Option Ancestor) (n : Node)
    → owns regex_operators (regex_mutate weapon a n) ≡ true
unfolding regex_mutate
regex-owns weapon a (reg_exp_literal pattern flags) =
    owns-map (λ p. reg_exp_literal p flags) (mutate_pattern weapon pattern (some flags))
regex-owns weapon a (string_literal value) = elim (Option-cases (obvious_regex_flags a)) [
  | inl e ↦ rw (e, regex_mutate)
  | inr (flags, e) ↦
      rw (e, regex_mutate) (owns-map string_literal (mutate_pattern weapon value flags))
]
regex-owns weapon a _ = refl

arrow-owns : (n : Node) → owns arrow_operators (arrow_mutate n) ≡ true
unfolding arrow_mutate
arrow-owns n = ground arith

method-owns : (n : Node) → owns method_operators (method_mutate n) ≡ true
unfolding method_mutate
method-owns (call r (member m target (identifier name) computed) args) =
    owns-lookup name method_operators _
      λ o e. ground (arith, elem-lookup name method_operators {o = o} e)
method-owns _ = refl

chaining-owns : (n : Node) → owns chaining_operators (chaining_mutate n) ≡ true
unfolding chaining_mutate
chaining-owns (member (in_chain true) target property true) = refl
chaining-owns (member (in_chain true) target property false) = refl
chaining-owns (call (in_chain true) callee args) = refl
chaining-owns _ = refl

block-owns : (above : List Ancestor) (n : Node) → owns block_operators (block_mutate above n) ≡ true
unfolding block_mutate
block-owns above (block (cons statement rest)) = ground arith
block-owns above _ = refl

bare-owns : (n : Node) → owns conditional_operators (bare_mutations n) ≡ true
unfolding bare_mutations
bare-owns n = ground arith

boolean_expression-owns :
    (a : Option Ancestor) → owns conditional_operators (boolean_expression_mutations a) ≡ true
unfolding boolean_expression_mutations
boolean_expression-owns a = ground arith

conditional-owns :
    (a : Option Ancestor) (n : Node) → owns conditional_operators (conditional_mutate a n) ≡ true
unfolding conditional_mutate
conditional-owns a n = ground (arith, bare-owns n, boolean_expression-owns a)

-- Whatever node a mutator is given, wherever it stands and whatever the regular expression
-- package answers, each mutation that any of the sixteen mutators yields goes by an operator name
-- of that mutator's own table.
pub mutate-owns :
    (weapon : Weapon) (p : NodePath)
    → all (λ m. owns m.operators (m.mutate p)) (all_mutators weapon) ≡ true
mutate-owns weapon p = simp (
  arithmetic-owns p.node,
  array-owns p.node,
  arrow-owns p.node,
  block-owns p.ancestors p.node,
  boolean-owns p.node,
  conditional-owns (parent p) p.node,
  equality-owns p.node,
  method-owns p.node,
  logical-owns p.node,
  object-owns p.node,
  string-owns (parent p) p.node,
  unary-owns p.node,
  update-owns p.node,
  regex-owns weapon (parent p) p.node,
  chaining-owns p.node,
  assignment-owns p.node,
)
