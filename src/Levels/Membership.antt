-- ===== src/Levels/Membership.antt =====
-- Which operators a run level holds, and so which mutations a run leaves out.
use isep_mutation_levels.Prelude.{
  ◌≡◌, ◌∙◌, ◌↔◌, inl, inr, String, Bool, true, false, not, ◌&&◌, List, none, some, arith, lookup,
  elem, any, ◌=s=◌, if◌then◌else◌, Bool-cases,
}
use isep_mutation_levels.Mutators.Defs.{NodeMutator, operator_names}
use isep_mutation_levels.Levels.Defs.{Groups, MutatorOptions}
use isep_mutation_levels.Levels.Update.{
  includes, listed, is_empty, restricted, create_run_level, find_excluded_ignore_reason,
}
use isep_mutation_levels.Levels.Changes.{has, pushes}
use isep_mutation_levels.Levels.Sequence.{pushed, create_run_level-updated}
use isep_mutation_levels.Levels.Selected.{means, any-all_updates, any-updates_of}

-- An included specification means the operator, or nothing is included and a mutator of the group
-- has it.
abbrev pub is_included : List NodeMutator → MutatorOptions → (group operator : String) → Bool
is_included mutators options group operator =
    if is_empty (listed options.included_mutations)
    then any (λ m. (m.name =s= group) && any (λ x. x =s= operator) (operator_names m.operators))
        mutators
    else any (means (λ x. x =s= operator) mutators group) (listed options.included_mutations)

-- An excluded specification means an operator with this one as a part of its name.
abbrev pub is_excluded : List NodeMutator → MutatorOptions → (group operator : String) → Bool
is_excluded mutators options group operator =
    any (means (λ x. includes x operator) mutators group) (listed options.excluded_mutations)

pushed-means :
    (mutators : List NodeMutator) (options : MutatorOptions) (g o : String)
    → any (pushes g o) (pushed mutators options) ≡ is_included mutators options g o
pushed-means mutators options g o =
    elim (Bool-cases (is_empty (listed options.included_mutations))) [
      | inl e ↦ rw e (any-all_updates (λ x. x =s= o) g mutators)
      | inr e ↦ rw e (any-updates_of (λ x. x =s= o) mutators g (listed options.included_mutations))
    ]

pub create_run_level-has :
    (mutators : List NodeMutator) (options : MutatorOptions) (level : Groups) (g o : String)
    → create_run_level mutators options ≡ some (restricted level)
    → has level g o ≡ (is_included mutators options g o && not (is_excluded mutators options g o))
create_run_level-has mutators options level g o h =
    create_run_level-updated mutators options level g o h
    ∙ rw (
      pushed-means mutators options g o,
      any-updates_of (λ x. includes x o) mutators g (listed options.excluded_mutations),
    )

kept_test : (b : Bool) (reason : String) → ((if b then none else some reason) ≡ none) ↔ (b ≡ true)
kept_test true reason = ground arith
kept_test false reason = ground arith

-- In a run with a level, a mutation under one of the level's groups is kept exactly if it is
-- included and not excluded.
pub kept_iff_selected :
    (mutators : List NodeMutator) (options : MutatorOptions) (level : Groups) (g o : String)
    {list : List String}
    → create_run_level mutators options ≡ some (restricted level)
    → lookup g level ≡ some list
    → (find_excluded_ignore_reason (restricted level) g o ≡ none)
      ↔ ((is_included mutators options g o && not (is_excluded mutators options g o)) ≡ true)
unfolding find_excluded_ignore_reason
kept_iff_selected mutators options level g o {list} h there =
    rw (← create_run_level-has mutators options level g o h, there, find_excluded_ignore_reason)
      (kept_test (elem o list) _)
