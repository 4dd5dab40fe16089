-- ===== src/Levels/Sequence.antt =====
-- A run level is one sequence of updates.
use isep_mutation_levels.Prelude.{
  ◌≡◌, refl, sym, subst, ◌∙◌, inl, inr, String, Bool, true, false, not, ◌&&◌, List, [], ◌∷◌, Option,
  none, some, arith, insert, keys, any, ◌=s=◌, if◌then◌else◌, Option-cases,
}
use isep_mutation_levels.Mutators.Defs.{NodeMutator}
use isep_mutation_levels.Levels.Defs.{Groups, MutatorOptions}
use isep_mutation_levels.Levels.Update.{
  Update, update_level, update_run_level, listed, empty_level, all_updates, is_given, is_empty,
  and_then, start_level, specified_level, unrestricted, restricted, restrict, create_run_level,
}
use isep_mutation_levels.Levels.Changes.{
  has, pushes, drops, has-insert, update_level-true, update_level-false, keys-update_level,
  updates_of, update_run_level-eq,
}

-- The level to begin with holds all operators, or none.
has-empty_level :
    (mutators : List NodeMutator) (level : Groups) (g o : String)
    → has level g o ≡ false
    → has (empty_level mutators level) g o ≡ false
has-empty_level [] level g o h = h
has-empty_level (m ∷ ms) level g o h = has-empty_level ms (insert m.name [] level) g o (
    rw (has-insert m.name g o [] level, h)
      (elim (m.name =s= g) as (λ b. (if b then false else false) ≡ false) [
        | true ↦ refl
        | false ↦ refl
      ]))

-- The groups of a level that is built from the mutators.
abbrev pub group_names : List NodeMutator → List String
group_names mutators = keys (empty_level mutators [])

-- What the options select: the operators that they push and those that they drop.
abbrev pub pushed : List NodeMutator → MutatorOptions → List Update
pushed mutators options =
    if is_empty (listed options.included_mutations)
    then all_updates mutators
    else updates_of mutators (group_names mutators) (listed options.included_mutations)

abbrev pub dropped : List NodeMutator → MutatorOptions → List Update
dropped mutators options =
    updates_of mutators (group_names mutators) (listed options.excluded_mutations)

exclude-after :
    (mutators : List NodeMutator) (us : List Update) (excluded : List String) (start : Groups)
    → and_then (update_level true us start) (update_run_level mutators false excluded)
      ≡ and_then
          (update_level true us start)
          (update_level false (updates_of mutators (keys start) excluded))
exclude-after mutators us excluded start = elim (Option-cases (update_level true us start)) [
  | inl e ↦ rw e
  | inr (level, e) ↦ rw e (
      subst
        (λ names.
          update_run_level mutators false excluded level
          ≡ update_level false (updates_of mutators names excluded) level)
        (keys-update_level true us start {level' = level} e)
        (update_run_level-eq mutators false excluded level))
]

specify :
    (mutators : List NodeMutator) (included excluded : List String) (start : Groups)
    → and_then
        (if is_empty included then update_level true (all_updates mutators) start else some start)
        (λ level.
          and_then
            (update_run_level mutators true included level)
            (update_run_level mutators false excluded))
      ≡ and_then
          (update_level true
            (if is_empty included
              then all_updates mutators
              else updates_of mutators (keys start) included)
            start)
          (update_level false (updates_of mutators (keys start) excluded))
unfolding update_run_level
specify mutators [] excluded start = exclude-after mutators (all_updates mutators) excluded start
specify mutators (spec ∷ specs) excluded start =
    rw (update_run_level-eq mutators true (spec ∷ specs) start)
      (exclude-after mutators (updates_of mutators (keys start) (spec ∷ specs)) excluded start)

-- The whole construction is one sequence of updates from the empty level.
pub specified_level-eq :
    (mutators : List NodeMutator) (options : MutatorOptions)
    → specified_level mutators options
      ≡ and_then
          (update_level true (pushed mutators options) (empty_level mutators []))
          (update_level false (dropped mutators options))
unfolding specified_level start_level
specified_level-eq mutators options =
    specify mutators (listed options.included_mutations) (listed options.excluded_mutations)
      (empty_level mutators [])

restrict-inverse :
    (open_run : Bool) (built : Option Groups) (level : Groups)
    → (if open_run then some unrestricted else restrict built) ≡ some (restricted level)
    → built ≡ some level
restrict-inverse true built level h = ground arith
restrict-inverse false none level h = ground arith
restrict-inverse false (some built) level h = ground arith

and_then-inverse :
    (first : Option Groups) (f : Groups → Option Groups) (level : Groups)
    → and_then first f ≡ some level
    → (middle : Groups) × (first ≡ some middle) × (f middle ≡ some level)
and_then-inverse none f level h = ground arith
and_then-inverse (some middle) f level h = (middle, refl, h)

-- A built level holds what the updates push and do not drop.
pub create_run_level-updated :
    (mutators : List NodeMutator) (options : MutatorOptions) (level : Groups) (g o : String)
    → create_run_level mutators options ≡ some (restricted level)
    → has level g o ≡ (
        any (pushes g o) (pushed mutators options)
        && not (any (drops g o) (dropped mutators options)))
unfolding create_run_level
create_run_level-updated mutators options level g o h =
    let built =
      restrict-inverse
        (is_empty (listed options.included_mutations) && not (is_given options.excluded_mutations))
        (specified_level mutators options) level h in
    let (middle, pushing, dropping) =
      and_then-inverse (update_level true (pushed mutators options) (empty_level mutators []))
        (update_level false (dropped mutators options)) level
        (sym (specified_level-eq mutators options) ∙ built) in
    rw (
      update_level-false (dropped mutators options) middle g o {level' = level} dropping,
      update_level-true (pushed mutators options) (empty_level mutators []) g o {level' = middle}
          pushing,
      has-empty_level mutators [] g o refl,
    )
