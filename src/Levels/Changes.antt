-- ===== src/Levels/Changes.antt =====
-- What the updates of a level do to the operators in it.
use isep_mutation_levels.Prelude.{
  ◌≡◌, refl, subst, ◌∙◌, inl, inr, String, Bool, true, false, not, ◌&&◌, ◌||◌, List, [], ◌∷◌, ◌++◌,
  some, arith, lookup, insert, lookup-insert, keys, elem, elem-append, elem-keep, any, ◌=s=◌,
  eq_iff, or_else, if◌then◌else◌, Option-cases, Bool-cases,
}
use isep_mutation_levels.Mutators.Defs.{NodeMutator}
use isep_mutation_levels.Levels.Defs.{Groups, group_of}
use isep_mutation_levels.Levels.Update.{
  includes, update_group, Update, update_level, resolve, update_run_level, and_then,
}

-- The level's group holds the operator.
abbrev pub has : Groups → String → String → Bool
has level group operator = elem operator (group_of group level)

-- The first of the listed operators passes the test.
abbrev pub first_is : (String → Bool) → List String → Bool
first_is p [] = false
first_is p (x ∷ _) = p x

-- The update is of the group, and its first value passes the test.
abbrev pub reaches : (String → Bool) → String → Update → Bool
reaches p group u = (u.0 =s= group) && first_is p u.1

-- The update pushes exactly this operator of this group.
abbrev pub pushes : String → String → Update → Bool
pushes group operator = reaches (λ x. x =s= operator) group

-- The update drops the operator, as every one whose name is part of the given name.
abbrev pub drops : String → String → Update → Bool
drops group operator = reaches (λ x. includes x operator) group

-- A key that is there, looked up under an equal name.
pub lookup-same :
    (j k : String) (level : Groups) {list : List String}
    → lookup j level ≡ some list
    → (j =s= k) ≡ true
    → lookup k level ≡ some list
lookup-same j k level h e = rw (← (eq_iff j k).0 e) h

pub has-insert :
    (key g o : String) (list : List String) (level : Groups)
    → has (insert key list level) g o ≡ (if key =s= g then elem o list else has level g o)
has-insert key g o list level =
    rw (lookup-insert g key list level)
      (elim (key =s= g)
        as (λ b.
          elem o (or_else (if b then some list else lookup g level) [])
          ≡ (if b then elem o list else has level g o)) [ true ↦ refl | false ↦ refl ])

elem-update_group-true :
    (o : String) (values list : List String)
    → elem o (update_group true values list) ≡ (elem o list || first_is (λ x. x =s= o) values)
unfolding update_group
elem-update_group-true o [] list = ground arith
elem-update_group-true o (value ∷ _) list = rw (elem-append o list (value ∷ [])) (ground arith)

elem-update_group-false :
    (o : String) (values list : List String)
    → elem o (update_group false values list)
      ≡ (elem o list && not (first_is (λ x. includes x o) values))
unfolding update_group
elem-update_group-false o [] list = ground arith
elem-update_group-false o (value ∷ _) list = elem-keep o (λ m. not (includes value m)) list

pub step_true :
    (key : String) (values : List String) (g o : String) (list : List String) (level : Groups)
    → lookup key level ≡ some list
    → has (insert key (update_group true values list) level) g o
      ≡ (has level g o || pushes g o (key, values))
step_true key values g o list level e =
    rw (has-insert key g o (update_group true values list) level) (elim (Bool-cases (key =s= g)) [
      | inl same ↦
          rw (
            same,
            lookup-same key g level {list = list} e same,
            elem-update_group-true o values list,
          )
      | inr other ↦ rw other (ground arith)
    ])

pub step_false :
    (key : String) (values : List String) (g o : String) (list : List String) (level : Groups)
    → lookup key level ≡ some list
    → has (insert key (update_group false values list) level) g o
      ≡ (has level g o && not (drops g o (key, values)))
step_false key values g o list level e =
    rw (has-insert key g o (update_group false values list) level) (elim (Bool-cases (key =s= g)) [
      | inl same ↦ rw (
        same,
        lookup-same key g level {list = list} e same,
        elem-update_group-false o values list,
      )
      | inr other ↦ rw other (ground arith)
    ])

pub ||_assoc : (a b c : Bool) → ((a || b) || c) ≡ (a || (b || c))
||_assoc a b c = ground arith

pub drop_assoc : (a b c : Bool) → ((a && not b) && not c) ≡ (a && not (b || c))
drop_assoc a b c = ground arith

pub update_level-true :
    (us : List Update) (level : Groups) (g o : String) {level' : Groups}
    → update_level true us level ≡ some level'
    → has level' g o ≡ (has level g o || any (pushes g o) us)
unfolding update_level
update_level-true [] level g o h = ground arith
update_level-true ((key, values) ∷ us) level g o {level'} h =
    elim (Option-cases (lookup key level)) [
      | inl e ↦ ground (arith, e)
      | inr (list, e) ↦
          let next = insert key (update_group true values list) level in
          let rest = update_level-true us next g o {level' = level'} (rw (e, update_level) at h) in
          rest ∙ rw (step_true key values g o list level e) (||_assoc (has level g o) _ _)
    ]

pub update_level-false :
    (us : List Update) (level : Groups) (g o : String) {level' : Groups}
    → update_level false us level ≡ some level'
    → has level' g o ≡ (has level g o && not (any (drops g o) us))
unfolding update_level
update_level-false [] level g o h = ground arith
update_level-false ((key, values) ∷ us) level g o {level'} h =
    elim (Option-cases (lookup key level)) [
      | inl e ↦ ground (arith, e)
      | inr (list, e) ↦
          let next = insert key (update_group false values list) level in
          let rest = update_level-false us next g o {level' = level'} (rw (e, update_level) at h) in
          rest ∙ rw (step_false key values g o list level e) (drop_assoc (has level g o) _ _)
    ]

-- An update keeps the keys and their order.
pub keys-insert :
    (key : String) (list : List String) (level : Groups) {old : List String}
    → lookup key level ≡ some old
    → keys (insert key list level) ≡ keys level
keys-insert key list [] h = cc
keys-insert key list ((j, w) ∷ level) {old} h =
    ground (arith, keys-insert key list level {old = old})

pub keys-update_level :
    (include : Bool) (us : List Update) (level : Groups) {level' : Groups}
    → update_level include us level ≡ some level'
    → keys level' ≡ keys level
unfolding update_level
keys-update_level include [] level h = cc
keys-update_level include ((key, values) ∷ us) level {level'} h =
    elim (Option-cases (lookup key level)) [
      | inl e ↦ ground (arith, e)
      | inr (list, e) ↦
          keys-update_level include us (insert key (update_group include values list) level)
            {level' = level'} (rw (e, update_level) at h)
          ∙ keys-insert key (update_group include values list) level {old = list} e
    ]

-- All the updates that the specifications stand for, in order.
abbrev pub updates_of : List NodeMutator → List String → List String → List Update
updates_of mutators names [] = []
updates_of mutators names (spec ∷ specs) =
    or_else (resolve mutators names spec) [] ++ updates_of mutators names specs

pub update_level-append :
    (include : Bool) (us vs : List Update) (level : Groups)
    → update_level include (us ++ vs) level
      ≡ and_then (update_level include us level) (update_level include vs)
unfolding update_level
update_level-append include [] vs level = refl
update_level-append include ((key, values) ∷ us) vs level = elim (Option-cases (lookup key level)) [
  | inl e ↦ rw (e, update_level)
  | inr (list, e) ↦
      rw (e, update_level)
        (update_level-append include us vs (insert key (update_group include values list) level))
]

-- The loop makes the updates of all specifications.
pub update_run_level-eq :
    (mutators : List NodeMutator) (include : Bool) (specs : List String) (level : Groups)
    → update_run_level mutators include specs level
      ≡ update_level include (updates_of mutators (keys level) specs) level
unfolding update_run_level update_level
update_run_level-eq mutators include [] level = refl
update_run_level-eq mutators include (spec ∷ specs) level =
    elim (Option-cases (resolve mutators (keys level) spec)) [
      | inl e ↦ rw (e, update_run_level) (update_run_level-eq mutators include specs level)
      | inr (us, e) ↦
          rw (e, update_run_level, update_level-append include us _ level)
            (elim (Option-cases (update_level include us level)) [
              | inl fails ↦ rw fails
              | inr (level', done) ↦ rw done (
                  subst
                    (λ names.
                      update_run_level mutators include specs level'
                      ≡ update_level include (updates_of mutators names specs) level')
                    (keys-update_level include us level {level' = level'} done)
                    (update_run_level-eq mutators include specs level'))
            ])
    ]
