-- ===== src/Levels/Total.antt =====
-- With the program's own mutators a run level is always built: no group that a specification
-- names is missing from the level.
use Prim.Native.String.{◌++◌ as concat}
use isep_mutation_levels.Prelude.{
  ◌≡◌, refl, sym, subst, ◌∙◌, inl, inr, String, Bool, true, false, not, ◌&&◌, List, [], ◌∷◌, ◌++◌,
  map, some, arith, lookup, insert, keys, elem, all, find_first, ◌=s=◌, eq_refl, or_else,
  Option-cases, Bool-cases,
}
use isep_mutation_levels.Mutators.Defs.{NodeMutator, operator_names}
use isep_mutation_levels.Mutators.Literals.{Weapon}
use isep_mutation_levels.Mutators.All.{all_mutators}
use isep_mutation_levels.Levels.Defs.{Groups, MutatorOptions, default_mutation_levels}
use isep_mutation_levels.Levels.Update.{
  update_group, Update, update_level, resolve, resolve_group, resolve_operator, has_operator, named,
  listed, empty_level, all_updates, is_empty, specified_level, is_given, RunLevel, unrestricted,
  restricted, create_run_level,
}
use isep_mutation_levels.Levels.Changes.{updates_of, keys-update_level}
use isep_mutation_levels.Levels.Sequence.{group_names, pushed, dropped, specified_level-eq}

abbrev InNames : List String → List Update → Type 0
InNames names us = all (λ u. elem u.0 names) us ≡ true

lookup_of_elem :
    (key : String) (level : Groups)
    → elem key (keys level) ≡ true
    → (list : List String) × (lookup key level ≡ some list)
lookup_of_elem key [] h = ground arith
lookup_of_elem key ((j, w) ∷ level) h = elim (Bool-cases (j =s= key)) [
  | inl e ↦ (w, rw e)
  | inr e ↦ let (list, there) = lookup_of_elem key level (rw e at h) in (list, rw e there)
]

update_level_total :
    (include : Bool) (us : List Update) (level : Groups)
    → InNames (keys level) us
    → (level' : Groups) × (update_level include us level ≡ some level')
unfolding update_level
update_level_total include [] level h = (level, refl)
update_level_total include ((key, values) ∷ us) level h =
    let (list, e) = lookup_of_elem key level (ground arith) in
    let next = insert key (update_group include values list) level in
    let same =
      keys-update_level include ((key, values) ∷ []) level {level' = next} (rw (e, update_level)) in
    let (level', done) =
      update_level_total include us next
        (subst (λ names. InNames names us) (sym same) (ground arith)) in
    (level', rw (e, update_level) done)

InNames-append :
    (names : List String) (us vs : List Update)
    → InNames names us
    → InNames names vs
    → InNames names (us ++ vs)
InNames-append names [] vs h k = k
InNames-append names (u ∷ us) vs h k = ground (arith, InNames-append names us vs)

InNames-map :
    (names os : List String) (name : String)
    → elem name names ≡ true
    → InNames names (map (λ o. (name, o ∷ [])) os)
InNames-map names [] name h = refl
InNames-map names (o ∷ os) name h = ground (arith, InNames-map names os name h)

find_first-elem :
    (p : String → Bool) (names : List String) {name : String}
    → find_first p names ≡ some name
    → elem name names ≡ true
find_first-elem p [] h = cc
find_first-elem p (n ∷ ns) {name} h =
    ground (arith, find_first-elem p ns {name = name}, eq_refl name)

find_first-named :
    (p : NodeMutator → Bool) (ms : List NodeMutator) {m : NodeMutator}
    → find_first p ms ≡ some m
    → elem m.name (map (λ x. x.name) ms) ≡ true
find_first-named p [] h = cc
find_first-named p (n ∷ ns) {m} h = ground (arith, find_first-named p ns {m = m}, eq_refl m.name)

-- The level's groups are named for the mutators.
group_names-all_mutators :
    (weapon : Weapon) → map (λ x. x.name) (all_mutators weapon) ≡ group_names (all_mutators weapon)
group_names-all_mutators weapon = refl

find_first-all {ℓ} :
    {A : Type ℓ} (p q : A → Bool) (xs : List A) {x : A}
    → all q xs ≡ true
    → find_first p xs ≡ some x
    → q x ≡ true
find_first-all p q [] h e = cc
find_first-all p q (y ∷ ys) {x} h e = elim (Bool-cases (p y)) [
  | inl t ↦ ground (arith, t)
  | inr f ↦ find_first-all p q ys {x = x} (ground arith) (rw f at e)
]

-- A level whose groups are named for the mutators, and have those of the default levels.
module _ (ms : List NodeMutator) (names : List String) (same : map (λ x. x.name) ms ≡ names)
    (defaults : all (λ l. all (λ u. elem u.0 names) l.groups) default_mutation_levels ≡ true) where
  operator-InNames : (spec : String) → InNames names (or_else (resolve_operator ms spec) [])
  unfolding resolve_operator
  operator-InNames spec = elim (Option-cases (find_first (has_operator spec) ms)) [
    | inl e ↦ rw (e, resolve_operator)
    | inr (m, e) ↦
        rw (e, resolve_operator)
          (ground (
            arith,
            subst (λ ns. elem m.name ns ≡ true) same
                (find_first-named (has_operator spec) ms {m = m} e),
          ))
  ]

  abbrev spells : String → String → Bool
  spells spec key = not (key =s= "name") && (concat "@" key =s= spec)

  group-InNames : (spec : String) → InNames names (or_else (resolve_group ms names spec) [])
  unfolding resolve_group
  group-InNames spec = elim (Option-cases (find_first (spells spec) names)) [
    | inl e ↦ rw (e, resolve_group) (operator-InNames spec)
    | inr (name, e) ↦ elim (Option-cases (find_first (named name) ms)) [
      | inl none_named ↦ rw (e, resolve_group, none_named) (operator-InNames spec)
      | inr (m, found) ↦
          rw (e, resolve_group, found)
            (InNames-map names (operator_names m.operators) name
              (find_first-elem (spells spec) names {name = name} e))
    ]
  ]

  resolve-InNames : (spec : String) → InNames names (or_else (resolve ms names spec) [])
  unfolding resolve
  resolve-InNames spec =
      elim (Option-cases (find_first (λ l. concat "@" l.name =s= spec) default_mutation_levels)) [
        | inl e ↦ rw (e, resolve) (group-InNames spec)
        | inr (l, e) ↦
            rw (e, resolve)
              (find_first-all (λ l. concat "@" l.name =s= spec)
                (λ l. all (λ u. elem u.0 names) l.groups) default_mutation_levels {x = l} defaults
                e)
      ]

  updates_of-InNames : (specs : List String) → InNames names (updates_of ms names specs)
  updates_of-InNames [] = refl
  updates_of-InNames (spec ∷ specs) =
      InNames-append names _ _ (resolve-InNames spec) (updates_of-InNames specs)

all_updates-InNames :
    (names : List String) (ms : List NodeMutator)
    → all (λ m. elem m.name names) ms ≡ true
    → InNames names (all_updates ms)
all_updates-InNames names [] h = refl
all_updates-InNames names (m ∷ ms) h =
    InNames-append names _ _ (InNames-map names (operator_names m.operators) m.name (ground arith))
      (all_updates-InNames names ms (ground arith))

module _ (weapon : Weapon) (options : MutatorOptions) where
  abbrev own_names : List String
  own_names = group_names (all_mutators weapon)

  own_updates_of-InNames :
      (specs : List String) → InNames own_names (updates_of (all_mutators weapon) own_names specs)
  own_updates_of-InNames =
      updates_of-InNames (all_mutators weapon) own_names (group_names-all_mutators weapon) refl

  pushed-InNames : InNames own_names (pushed (all_mutators weapon) options)
  pushed-InNames = elim (Bool-cases (is_empty (listed options.included_mutations))) [
    | inl e ↦ rw e (all_updates-InNames own_names (all_mutators weapon) refl)
    | inr e ↦ rw e (own_updates_of-InNames (listed options.included_mutations))
  ]

  specified_level_total :
      (level : Groups) × (specified_level (all_mutators weapon) options ≡ some level)
  specified_level_total =
      let start = empty_level (all_mutators weapon) [] in
      let us = pushed (all_mutators weapon) options in
      let ds = dropped (all_mutators weapon) options in
      let (middle, pushing) = update_level_total true us start pushed-InNames in
      let same = keys-update_level true us start {level' = middle} pushing in
      let (level, dropping) = update_level_total false ds middle (
        subst (λ names. InNames names ds) (sym same)
          (own_updates_of-InNames (listed options.excluded_mutations))) in
      (level, specified_level-eq (all_mutators weapon) options ∙ rw pushing dropping)

-- Whatever the two options list, also names that no mutator knows, the run level of the program's
-- own mutators is built, and no group that an update reads is missing from it.
pub create_run_level_total :
    (weapon : Weapon) (options : MutatorOptions)
    → (run : RunLevel) × (create_run_level (all_mutators weapon) options ≡ some run)
unfolding create_run_level
create_run_level_total weapon options =
    let (level, built) = specified_level_total weapon options in
    elim (Bool-cases
      (is_empty (listed options.included_mutations) && not (is_given options.excluded_mutations))) [
        | inl e ↦ (unrestricted, rw e)
        | inr e ↦ (restricted level, rw (e, built))
      ]
