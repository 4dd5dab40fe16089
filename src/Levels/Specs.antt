-- ===== src/Levels/Specs.antt =====
-- What a single specification does to a run level: a default level stands for the first operator
-- of each of its groups.
use Prim.Native.String.{◌++◌ as concat}
use isep_mutation_levels.Prelude.{
  ◌≡◌, refl, ◌∙◌, String, Bool, false, not, ◌&&◌, ◌||◌, List, [], ◌∷◌, none, some, arith, any,
  find_first, ◌=s=◌,
}
use isep_mutation_levels.Mutators.Defs.{NodeMutator}
use isep_mutation_levels.Levels.Defs.{
  Groups, MutationLevel, MutatorOptions, default_mutation_levels,
}
use isep_mutation_levels.Levels.Update.{restricted, create_run_level}
use isep_mutation_levels.Levels.Changes.{has, first_is}
use isep_mutation_levels.Levels.Selected.{means}
use isep_mutation_levels.Levels.Membership.{create_run_level-has}

abbrev pub including : String → MutatorOptions
including spec = record { included_mutations = some (spec ∷ []); excluded_mutations = none }

abbrev pub excluding : String → MutatorOptions
excluding spec = record { included_mutations = none; excluded_mutations = some (spec ∷ []) }

-- The operator is the first of those that are listed.
abbrev pub is_first : String → List String → Bool
is_first operator [] = false
is_first operator (x ∷ _) = x =s= operator

first_is-is_first : (o : String) (xs : List String) → first_is (λ x. x =s= o) xs ≡ is_first o xs
first_is-is_first o [] = refl
first_is-is_first o (x ∷ xs) = refl

any-is_first :
    (g o : String) (gs : Groups)
    → any (λ u. (u.0 =s= g) && first_is (λ x. x =s= o) u.1) gs
      ≡ any (λ u. (u.0 =s= g) && is_first o u.1) gs
any-is_first g o [] = refl
any-is_first g o ((name, list) ∷ gs) = rw (first_is-is_first o list, any-is_first g o gs)

alone : (b : Bool) → ((b || false) && not false) ≡ b
alone b = ground arith

-- With one default level included and nothing excluded, the run level holds an operator exactly
-- if it is the first one that the default level lists for its group.
pub include_default_level :
    (mutators : List NodeMutator) (spec : String) (l : MutationLevel) (level : Groups)
    (g o : String)
    → find_first (λ d. concat "@" d.name =s= spec) default_mutation_levels ≡ some l
    → create_run_level mutators (including spec) ≡ some (restricted level)
    → has level g o ≡ any (λ u. (u.0 =s= g) && is_first o u.1) l.groups
include_default_level mutators spec l level g o found h =
    create_run_level-has mutators (including spec) level g o h
    ∙ alone _
    ∙ rw (found, means) (any-is_first g o l.groups)
