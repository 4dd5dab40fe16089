-- ===== src/Checker/Closure.antt =====
-- The walk over the references of a file, and the files that references lead to.
use isep_mutation_levels.Prelude.{
  ℕ, zero, suc, ◌≤◌, ◌<◌, ◌≡◌, subst, ◌⊎◌, inl, inr, String, Bool, true, false, not, List, [], ◌∷◌,
  length, keep, elem, add, elem-add, arith, eq_iff, eq_refl, ◌=s=◌, Bool-cases,
}
use isep_mutation_levels.Checker.Graph.{fold, collect_references}

-- The files that are reached from a file by references.
pub data Reach (next : String → List String) : String → String → Type 0 where
  itself : (x : String) → Reach next x x
  onward : (x y z : String) → Reach next x y → elem z (next y) ≡ true → Reach next x z

Reach-trans :
    {next : String → List String} (x y z : String)
    → Reach next x y
    → Reach next y z
    → Reach next x z
Reach-trans x y z r (Reach.itself _) = r
Reach-trans x y z r (Reach.onward _ w _ s step) = Reach.onward x w z (Reach-trans x y w r s) step

length-keep_mono :
    (p q : String → Bool) (xs : List String)
    → ((x : String) → p x ≡ true → q x ≡ true)
    → length (keep p xs) ≤ length (keep q xs)
length-keep_mono p q [] h = omega arith
length-keep_mono p q (x ∷ xs) h = ground (arith, length-keep_mono p q xs h, h x)

length-keep_less :
    (p q : String → Bool) (n : String) (xs : List String)
    → ((x : String) → p x ≡ true → q x ≡ true)
    → elem n xs ≡ true
    → ((x : String) → (x =s= n) ≡ true → p x ≡ false)
    → ((x : String) → (x =s= n) ≡ true → q x ≡ true)
    → length (keep p xs) < length (keep q xs)
length-keep_less p q n [] h there out inside = cc
length-keep_less p q n (x ∷ xs) h there out inside = elim (Bool-cases (x =s= n)) [
  | inl e ↦ rw (out x e, inside x e) (omega (arith, length-keep_mono p q xs h))
  | inr e ↦ ground (arith, length-keep_less p q n xs h (rw e at there) out inside, h x)
]

no_room : (a b : ℕ) → a < b → b ≤ 0 → ⊥
no_room a b p q = omega arith

module _ (next : String → List String) (all_nodes : List String) where
  abbrev pub unvisited : List String → ℕ
  unvisited seen = length (keep (λ u. not (elem u seen)) all_nodes)

  -- A walk from one set to a larger one leaves no reference of what it adds out.
  pub record IsWalk (before after : List String) : Type 0 where
    keeps : (x : String) → elem x before ≡ true → elem x after ≡ true
    closed :
        (x : String)
        → elem x after ≡ true
        → (elem x before ≡ true) ⊎ ((y : String) → elem y (next x) ≡ true → elem y after ≡ true)

  IsWalk-refl : (seen : List String) → IsWalk seen seen
  IsWalk-refl seen = record { keeps = λ x h. h; closed = λ x h. inl h }

  IsWalk-trans : {a b c : List String} → IsWalk a b → IsWalk b c → IsWalk a c
  IsWalk-trans v w = record {
    keeps = λ x h. w.keeps x (v.keeps x h);
    closed = λ x h. elim (w.closed x h) [
      | inr refs ↦ inr refs
      | inl in_b ↦ elim (v.closed x in_b) [
        | inl in_a ↦ inl in_a
        | inr refs ↦ inr (λ y there. w.keeps y (refs y there))
      ]
    ];
  }

  unvisited_mono :
      (a b : List String)
      → ((x : String) → elem x a ≡ true → elem x b ≡ true)
      → unvisited b ≤ unvisited a
  unvisited_mono a b h =
      length-keep_mono (λ u. not (elem u b)) (λ u. not (elem u a)) all_nodes
        (λ x out. ground (arith, h x))

  elem-same : (x n : String) (ys : List String) → (x =s= n) ≡ true → elem x ys ≡ elem n ys
  elem-same x n ys e = rw ((eq_iff x n).0 e)

  unvisited-add :
      (n : String) (seen : List String)
      → elem n all_nodes ≡ true
      → elem n seen ≡ false
      → unvisited (add n seen) < unvisited seen
  unvisited-add n seen known fresh =
      length-keep_less (λ u. not (elem u (add n seen))) (λ u. not (elem u seen)) n all_nodes
        (λ x out. ground (arith, elem-add x n seen)) known
        (λ x e. ground (arith, elem-add x n seen, eq_iff x n, eq_iff n x))
        (λ x e. ground (arith, elem-same x n seen e))

  -- With so much fuel the walk from a new node is complete.
  abbrev pub Complete : ℕ → Type 0
  Complete fuel =
      (n : String) (seen : List String)
      → elem n seen ≡ false
      → elem n all_nodes ≡ true
      → unvisited seen ≤ fuel
      → IsWalk seen (collect_references next fuel n seen)
        × (elem n (collect_references next fuel n seen) ≡ true)

  abbrev visit : ℕ → String → List String → List String
  visit fuel x seen = elim (elem x seen) [
    | true ↦ seen
    | false ↦ collect_references next fuel x seen
  ]

  visit-IsWalk :
      (fuel : ℕ)
      → Complete fuel
      → (x : String) (seen : List String) → elem x all_nodes ≡ true
      → unvisited seen ≤ fuel
      → IsWalk seen (visit fuel x seen) × (elem x (visit fuel x seen) ≡ true)
  visit-IsWalk fuel complete x seen known enough = elim (Bool-cases (elem x seen)) [
    | inl e ↦ rw (visit, e) (IsWalk-refl seen, e)
    | inr e ↦ rw (visit, e) (complete x seen e known enough)
  ]

  fold-IsWalk :
      (fuel : ℕ)
      → Complete fuel
      → (xs seen : List String) → ((x : String) → elem x xs ≡ true → elem x all_nodes ≡ true)
      → unvisited seen ≤ fuel
      → IsWalk seen (fold (visit fuel) xs seen)
        × ((x : String) → elem x xs ≡ true → elem x (fold (visit fuel) xs seen) ≡ true)
  fold-IsWalk fuel complete [] seen known enough = (IsWalk-refl seen, λ x h. cc)
  fold-IsWalk fuel complete (y ∷ xs) seen known enough =
      let (first, there) = visit-IsWalk fuel complete y seen (known y (rw (eq_refl y))) enough in
      let (rest, all_there) =
        fold-IsWalk fuel complete xs (visit fuel y seen) (λ x h. known x (ground (arith, h)))
          (omega (arith, unvisited_mono seen (visit fuel y seen) first.keeps, enough)) in
      (
        IsWalk-trans first rest,
        λ x h. elim (Bool-cases (y =s= x)) [
          | inl e ↦ rest.keeps x (rw (← (eq_iff y x).0 e) there)
          | inr e ↦ all_there x (rw e at h)
        ],
      )

  pub complete :
      (fuel : ℕ)
      → ((x y : String) → elem y (next x) ≡ true → elem y all_nodes ≡ true)
      → Complete fuel
  unfolding collect_references
  complete zero known_refs n seen fresh known enough =
      elim (no_room (unvisited (add n seen)) (unvisited seen) (unvisited-add n seen known fresh)
        enough) [ ]
  complete (suc fuel) known_refs n seen fresh known enough =
      let (walk, refs) =
        fold-IsWalk fuel (complete fuel known_refs) (next n) (add n seen) (known_refs n)
          (omega (arith, unvisited-add n seen known fresh, enough)) in
      (
        record {
          keeps = λ x h. walk.keeps x (rw (elem-add x n seen) (ground (arith, h)));
          closed = λ x h. elim (walk.closed x h) [
            | inr refs' ↦ inr refs'
            | inl added ↦ elim (Bool-cases (n =s= x)) [
              | inl e ↦ inr (λ y r. refs y (rw ((eq_iff n x).0 e) r))
              | inr e ↦ inl (rw (elem-add x n seen, e) at added)
            ]
          ];
        },
        walk.keeps n (rw (elem-add n n seen, eq_refl n)),
      )

  pub walk_in :
      (x y : String) (after : List String)
      → IsWalk [] after
      → elem x after ≡ true
      → Reach next x y
      → elem y after ≡ true
  walk_in x y after walk h (Reach.itself _) = h
  walk_in x z after walk h (Reach.onward _ y _ r step) =
      elim (walk.closed y (walk_in x y after walk h r)) [ inl never ↦ cc | inr refs ↦ refs z step ]

  -- What a walk adds is reached from its node.
  abbrev pub IsReached : String → List String → List String → Type 0
  IsReached n before after =
      (x : String) → elem x after ≡ true → (elem x before ≡ true) ⊎ Reach next n x

  fold-IsReached :
      (fuel : ℕ) (n : String) (xs seen : List String)
      → ((x : String) (seen : List String) → IsReached x seen (collect_references next fuel x seen))
      → ((x : String) → elem x xs ≡ true → Reach next n x)
      → IsReached n seen (fold (visit fuel) xs seen)
  fold-IsReached fuel n [] seen sound from x h = inl h
  fold-IsReached fuel n (y ∷ xs) seen sound from x h =
      elim (fold-IsReached fuel n xs (visit fuel y seen) sound (λ z k. from z (ground (arith, k))) x
        h) [
          | inr r ↦ inr r
          | inl in_visit ↦ elim (Bool-cases (elem y seen)) [
            | inl e ↦ inl (rw (visit, e) at in_visit)
            | inr e ↦ elim (sound y seen x (rw (visit, e) at in_visit)) [
              | inl old ↦ inl old
              | inr r ↦ inr (Reach-trans n y x (from y (rw (eq_refl y))) r)
            ]
          ]
        ]

  pub sound :
      (fuel : ℕ) (n : String) (seen : List String)
      → IsReached n seen (collect_references next fuel n seen)
  unfolding collect_references
  sound zero n seen x h = inl h
  sound (suc fuel) n seen x h =
      elim (fold-IsReached fuel n (next n) (add n seen) (sound fuel)
        (λ y r. Reach.onward n n y (Reach.itself n) r) x h) [
          | inr r ↦ inr r
          | inl added ↦ elim (Bool-cases (n =s= x)) [
            | inl e ↦ inr (subst (λ z. Reach next n z) ((eq_iff n x).0 e) (Reach.itself n))
            | inr e ↦ inl (rw (elem-add x n seen, e) at added)
          ]
        ]
