-- ===== src/Levels/Selected.antt =====
-- What the specifications of a run say, read off the mutators and the default levels: no level is
-- built and none is changed.
use Prim.Native.String.{◌++◌ as concat}
use isep_mutation_levels.Prelude.{
  ◌≡◌, refl, sym, ◌∙◌, ap, inl, inr, String, Bool, true, false, not, ◌&&◌, ◌||◌, List, [], ◌∷◌,
  ◌++◌, map, Option, none, some, arith, insert, keys, any, find_first, ◌=s=◌, eq_iff, eq_refl,
  or_else, if◌then◌else◌, Option-cases, Bool-cases,
}
use isep_mutation_levels.Mutators.Defs.{NodeMutator, operator_names}
use isep_mutation_levels.Levels.Defs.{Groups, default_mutation_levels}
use isep_mutation_levels.Levels.Update.{
  resolve, resolve_group, resolve_operator, has_operator, named, empty_level, all_updates,
}
use isep_mutation_levels.Levels.Changes.{first_is, reaches, updates_of}

-- The specification is the name of the mutator's group.
abbrev pub spells_group : String → NodeMutator → Bool
spells_group spec m = not (m.name =s= "name") && (concat "@" m.name =s= spec)

-- A specification means an operator of a group that passes a test: as the name of a default level,
-- the first operator that it lists for the group; as the name of a mutator's group, each operator
-- of that mutator; else the operator of that name, of the first mutator that has it.
abbrev pub means : (String → Bool) → List NodeMutator → (group spec : String) → Bool
means p mutators group spec =
    elim (find_first (λ l. concat "@" l.name =s= spec) default_mutation_levels) [
      | some l ↦ any (λ u. (u.0 =s= group) && first_is p u.1) l.groups
      | none ↦ elim (find_first (spells_group spec) mutators) [
        | some m ↦ (m.name =s= group) && any p (operator_names m.operators)
        | none ↦ elim (find_first (has_operator spec) mutators) [
          | some m ↦ (m.name =s= group) && p spec
          | none ↦ false
        ]
      ]
    ]

any-append {ℓ} :
    {A : Type ℓ} (p : A → Bool) (xs ys : List A) → any p (xs ++ ys) ≡ (any p xs || any p ys)
any-append p [] ys = refl
any-append p (x ∷ xs) ys = ground (arith, any-append p xs ys)

or_false : (b : Bool) → (b || false) ≡ b
or_false b = ground arith

-- One update for each operator of a mutator.
any-operators :
    (p : String → Bool) (name group : String) (os : List String)
    → any (reaches p group) (map (λ o. (name, o ∷ [])) os) ≡ ((name =s= group) && any p os)
any-operators p name group [] = ground arith
any-operators p name group (o ∷ os) = ground (arith, any-operators p name group os)

pub any-all_updates :
    (p : String → Bool) (group : String) (ms : List NodeMutator)
    → any (reaches p group) (all_updates ms)
      ≡ any (λ m. (m.name =s= group) && any p (operator_names m.operators)) ms
any-all_updates p group [] = refl
any-all_updates p group (m ∷ ms) =
    any-append (reaches p group) (map (λ o. (m.name, o ∷ [])) (operator_names m.operators))
      (all_updates ms)
    ∙ rw (any-operators p m.name group (operator_names m.operators), any-all_updates p group ms)

abbrev first_of : Option String → Option String → Option String
first_of none d = d
first_of (some x) d = some x

abbrev name_of : Option NodeMutator → Option String
name_of none = none
name_of (some m) = some m.name

first_of-none : (x : Option String) → first_of x none ≡ x
first_of-none none = refl
first_of-none (some x) = refl

first_of_assoc : (x y z : Option String) → first_of (first_of x y) z ≡ first_of x (first_of y z)
first_of_assoc none y z = refl
first_of_assoc (some x) y z = refl

-- The first key that passes a test, with a key inserted: one that is there keeps its place.
find_first-keys-insert :
    (p : String → Bool) (key : String) (list : List String) (level : Groups)
    → find_first p (keys (insert key list level))
      ≡ first_of (find_first p (keys level)) (if p key then some key else none)
find_first-keys-insert p key list [] = refl
find_first-keys-insert p key list ((j, w) ∷ level) = elim (Bool-cases (j =s= key)) [
  | inl same ↦
      rw (same, ← (eq_iff j key).0 same)
        (elim (Bool-cases (p j)) [
          | inl t ↦ rw t
          | inr f ↦ rw f (sym (first_of-none (find_first p (keys level))))
        ])
  | inr other ↦ rw other (elim (Bool-cases (p j)) [
    | inl t ↦ rw t
    | inr f ↦ rw f (find_first-keys-insert p key list level)
  ])
]

-- The first group of a built level that passes a test is that of the first mutator whose name does.
find_first-keys-empty_level :
    (p : String → Bool) (ms : List NodeMutator) (level : Groups)
    → find_first p (keys (empty_level ms level))
      ≡ first_of (find_first p (keys level)) (name_of (find_first (λ m. p m.name) ms))
find_first-keys-empty_level p [] level = sym (first_of-none (find_first p (keys level)))
find_first-keys-empty_level p (m ∷ ms) level =
    find_first-keys-empty_level p ms (insert m.name [] level)
    ∙ rw (find_first-keys-insert p m.name [] level) (
        first_of_assoc (find_first p (keys level)) _ _
        ∙ elim (Bool-cases (p m.name)) [ inl t ↦ rw t | inr f ↦ rw f ])

find_first-holds {ℓ} :
    {A : Type ℓ} (p : A → Bool) (xs : List A) {x : A} → find_first p xs ≡ some x → p x ≡ true
find_first-holds p [] h = cc
find_first-holds p (y ∷ ys) {x} h = elim (Bool-cases (p y)) [
  | inl t ↦ ground (arith, t)
  | inr f ↦ find_first-holds p ys {x = x} (rw f at h)
]

-- A name that passes the test and one that does not are different.
names-apart : (p : String → Bool) (a b : String) → p a ≡ false → p b ≡ true → (a =s= b) ≡ false
names-apart p a b not_a is_b = elim (Bool-cases (a =s= b)) [
  | inl same ↦ ground (arith, not_a, is_b, ap p ((eq_iff a b).0 same))
  | inr apart ↦ apart
]

-- The first mutator whose name passes a test is the first of its name.
find_first-by_name :
    (p : String → Bool) (ms : List NodeMutator) {m : NodeMutator}
    → find_first (λ x. p x.name) ms ≡ some m
    → find_first (named m.name) ms ≡ some m
find_first-by_name p [] h = cc
find_first-by_name p (n ∷ ns) {m} h = elim (Bool-cases (p n.name)) [
  | inl t ↦ ground (arith, t, eq_refl n.name)
  | inr f ↦
      rw (names-apart p n.name m.name f (find_first-holds (λ x. p x.name) ns {x = m} (rw f at h)))
        (find_first-by_name p ns {m = m} (rw f at h))
]

any-resolve_operator :
    (p : String → Bool) (ms : List NodeMutator) (group spec : String)
    → any (reaches p group) (or_else (resolve_operator ms spec) [])
      ≡ (elim (find_first (has_operator spec) ms) [
        | some m ↦ (m.name =s= group) && p spec
        | none ↦ false
      ])
unfolding resolve_operator
any-resolve_operator p ms group spec = elim (Option-cases (find_first (has_operator spec) ms)) [
  | inl e ↦ rw (e, resolve_operator)
  | inr (m, e) ↦ rw (e, resolve_operator) (or_false _)
]

any-resolve_group :
    (p : String → Bool) (ms : List NodeMutator) (group spec : String)
    → any (reaches p group) (or_else (resolve_group ms (keys (empty_level ms [])) spec) [])
      ≡ (elim (find_first (spells_group spec) ms) [
        | some m ↦ (m.name =s= group) && any p (operator_names m.operators)
        | none ↦ elim (find_first (has_operator spec) ms) [
          | some m ↦ (m.name =s= group) && p spec
          | none ↦ false
        ]
      ])
unfolding resolve_group
any-resolve_group p ms group spec =
    let test : String → Bool = λ key. not (key =s= "name") && (concat "@" key =s= spec) in
    let first = find_first-keys-empty_level test ms [] in
    elim (Option-cases (find_first (spells_group spec) ms)) [
      | inl e ↦ rw (first, e, resolve_group) (any-resolve_operator p ms group spec)
      | inr (m, e) ↦
          rw (first, e, find_first-by_name test ms {m = m} e, resolve_group)
            (any-operators p m.name group (operator_names m.operators))
    ]

-- The updates of a specification reach what it means.
any-resolve :
    (p : String → Bool) (ms : List NodeMutator) (group spec : String)
    → any (reaches p group) (or_else (resolve ms (keys (empty_level ms [])) spec) [])
      ≡ means p ms group spec
unfolding resolve
any-resolve p ms group spec =
    elim (Option-cases (find_first (λ l. concat "@" l.name =s= spec) default_mutation_levels)) [
      | inl e ↦ rw (e, resolve, means) (any-resolve_group p ms group spec)
      | inr (l, e) ↦ rw (e, resolve, means)
    ]

pub any-updates_of :
    (p : String → Bool) (ms : List NodeMutator) (group : String) (specs : List String)
    → any (reaches p group) (updates_of ms (keys (empty_level ms [])) specs)
      ≡ any (means p ms group) specs
any-updates_of p ms group [] = refl
any-updates_of p ms group (spec ∷ specs) =
    any-append (reaches p group) (or_else (resolve ms (keys (empty_level ms [])) spec) []) _
    ∙ rw (any-resolve p ms group spec, any-updates_of p ms group specs)
