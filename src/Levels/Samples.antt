-- ===== src/Levels/Samples.antt =====
-- Run levels of small and of the program's own mutators.
use isep_mutation_levels.Prelude.{
  ◌≡◌, refl, true, ◌&&◌, false, List, [], ◌∷◌, Option, some, all, any, ◌=s=◌,
}
use isep_mutation_levels.Syntax.{
  NodePath, binary, logical, identifier, as_test, while_loop, loop, block, nil,
}
use isep_mutation_levels.Mutators.Defs.{NodeMutator}
use isep_mutation_levels.Mutators.Literals.{Weapon}
use isep_mutation_levels.Mutators.Exchange.{arithmetic_mutate}
use isep_mutation_levels.Mutators.All.{all_mutators, equality_operator_mutator}
use isep_mutation_levels.Mutators.Own.{owns, mutate-owns}
use isep_mutation_levels.Levels.Defs.{Groups, MutatorOptions, level2}
use isep_mutation_levels.Levels.Update.{
  includes, update_group, update_level, resolve, update_run_level, start_level, specified_level,
  RunLevel, restricted, create_run_level, find_excluded_ignore_reason,
}
use isep_mutation_levels.Levels.Changes.{has}
use isep_mutation_levels.Levels.Total.{create_run_level_total}
use isep_mutation_levels.Levels.Specs.{including, excluding, is_first, include_default_level}

-- A regular expression package that finds one mutant of each pattern.
abbrev no_anchor : Weapon
no_anchor pattern flags = some ("" ∷ [])

abbrev own : List NodeMutator
own = all_mutators no_anchor

abbrev level_of : Option RunLevel → Groups
level_of (some (restricted level)) = level
level_of _ = []

-- What a run of the level's construction computes with.
program : Unit {0}
unfolding create_run_level specified_level start_level update_level update_run_level resolve
    update_group includes find_excluded_ignore_reason
program = tt

abbrev equality : List NodeMutator
equality = equality_operator_mutator ∷ []

abbrev strict_out : MutatorOptions
strict_out = excluding "StrictEqualityOperatorNegation"

-- The plain negation goes with the strict one.
equality_level :
    create_run_level equality strict_out
    ≡ some (
        restricted (
          (
            "EqualityOperator",
            "LessThanOperatorBoundary" ∷ "LessThanOperatorNegation"
                ∷ "LessThanEqualOperatorBoundary" ∷ "LessThanEqualOperatorNegation"
                ∷ "GreaterThanOperatorBoundary" ∷ "GreaterThanOperatorNegation"
                ∷ "GreaterThanEqualOperatorBoundary" ∷ "GreaterThanEqualOperatorNegation"
                ∷ "InequalityOperatorNegation" ∷ "StrictInequalityOperatorNegation" ∷ [],
          )
          ∷ []))
unfolding program
equality_level = refl

arithmetic-chain :
    arithmetic_mutate (binary "%" (identifier "a") (identifier "b"))
    ≡ (binary "*" (identifier "a") (identifier "b"), "RemainderOperatorToMultiplicationReplacement")
      ∷ []
unfolding arithmetic_mutate
arithmetic-chain = refl

abbrev loop_test : NodePath
loop_test = record {
  node = logical "||" (identifier "a") (identifier "b");
  ancestors =
      record {
        node = loop while_loop (logical "||" (identifier "a") (identifier "b")) (block nil);
        slot = as_test;
      }
      ∷ [];
}

mutate-owns_example : all (λ m. owns m.operators (m.mutate loop_test)) own ≡ true
mutate-owns_example = mutate-owns no_anchor loop_test

abbrev mixed : MutatorOptions
mixed = record {
  included_mutations = some ("@Level1" ∷ "@Regex" ∷ "NoSuchOperator" ∷ []);
  excluded_mutations = some ("@EqualityOperator" ∷ []);
}

create_run_level_total_example : (run : RunLevel) × (create_run_level own mixed ≡ some run)
create_run_level_total_example = create_run_level_total no_anchor mixed

-- The options of the example in docs/mutation-levels.md.
abbrev documented : MutatorOptions
documented = record {
  included_mutations = some ("@Level1" ∷ "AdditionOperatorNegation" ∷ []);
  excluded_mutations = some ("@ArithmeticOperator" ∷ []);
}

-- The operator that is included by its own name is left out with its group.
documented_level :
    has (level_of (create_run_level own documented)) "ArithmeticOperator" "AdditionOperatorNegation"
    ≡ false
unfolding program
documented_level = refl

include_default_level_example :
    has
      (level_of (create_run_level own (including "@Level2")))
      "ArithmeticOperator"
      "SubtractionOperatorNegation"
    ≡ any
        (λ u. (u.0 =s= "ArithmeticOperator") && is_first "SubtractionOperatorNegation" u.1)
        level2.groups
unfolding program
include_default_level_example =
    include_default_level own "@Level2" level2
      (level_of (create_run_level own (including "@Level2"))) "ArithmeticOperator"
      "SubtractionOperatorNegation" refl refl
