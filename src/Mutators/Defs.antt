-- ===== src/Mutators/Defs.antt =====
-- packages/instrumenter/src/mutation-level/mutation-level.ts and mutators/node-mutator.ts: the
-- configuration of a mutator.
use isep_mutation_levels.Prelude.{String, Bool, List, map}
use isep_mutation_levels.Syntax.{Node, Nodes, NodePath}

-- The type of `replacement`. `absent` is a configuration that has no such property.
pub data Replacement : Type 0 where
  absent null : Replacement
  word : String → Replacement
  flag : Bool → Replacement
  node : Node → Replacement
  nodes : Nodes → Replacement

pub record Operator : Type 0 where
  pub replacement : Replacement
  pub mutation_operator : String

-- `NodeMutatorConfiguration`: the object's entries.
abbrev pub Operators : Type 0
Operators = List (String × Operator)

-- What `mutate` yields: the replacing node and the mutation operator's name.
abbrev pub Mutation : Type 0
Mutation = Node × String

pub record NodeMutator : Type 0 where
  pub name : String
  pub operators : Operators
  pub mutate : NodePath → List Mutation

abbrev pub entry : String → Replacement → String → String × Operator
entry key replacement operator =
    (key, record { replacement = replacement; mutation_operator = operator })

-- `Object.values(mutator.operators).map((o) => o.mutationOperator)`.
abbrev pub operator_names : Operators → List String
operator_names ops = map (λ e. e.1.mutation_operator) ops

-- `replacement as string`.
abbrev pub as_text : Replacement → String
as_text (word s) = s
as_text _ = ""
