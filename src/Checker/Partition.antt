-- ===== src/Checker/Partition.antt =====
-- What `createGroups` makes of the mutants: which of them are in the same group.
use isep_mutation_levels.Prelude.{
  ℕ, zero, suc, ◌+◌, ◌≤◌, ◌≡◌, refl, ◌∙◌, String, Bool, true, false, not, ◌&&◌, ◌||◌, List, [], ◌∷◌,
  length, keep, any, all, elem, add, elem-add, arith, eq_iff, inl, inr, Bool-cases,
}
use isep_mutation_levels.Api.{Mutant}
use isep_mutation_levels.Checker.Graph.{Nodes, get_all_parent_references_including_self}
use isep_mutation_levels.Checker.Groups.{
  node_of, add_range_of_nodes_to_set, fits, create_group, create_groups_from, mutant_groups,
}

elem-add_range :
    (x : String) (ys xs : List String)
    → elem x (add_range_of_nodes_to_set ys xs) ≡ (elem x ys || elem x xs)
unfolding add_range_of_nodes_to_set
elem-add_range x ys [] = ground arith
elem-add_range x ys (y ∷ xs) = ground (arith, elem-add_range x (add y ys) xs, elem-add x y ys)

any-elem-add :
    (f : String) (gs us : List String)
    → any (λ u. elem u (add f gs)) us ≡ (any (λ u. elem u gs) us || elem f us)
any-elem-add f gs [] = refl
any-elem-add f gs (u ∷ us) =
    ground (arith, any-elem-add f gs us, elem-add u f gs, eq_iff f u, eq_iff u f)

all_both :
    (p q : Mutant → Bool) (ms : List Mutant) → all (λ m. p m && q m) ms ≡ (all p ms && all q ms)
all_both p q [] = refl
all_both p q (m ∷ ms) = ground (arith, all_both p q ms)

all_eq : (p q : Mutant → Bool) (ms : List Mutant) → ((m : Mutant) → p m ≡ q m) → all p ms ≡ all q ms
all_eq p q [] h = refl
all_eq p q (m ∷ ms) h = rw (h m, all_eq p q ms h)

-- How many mutants satisfy a predicate.
abbrev pub count_of : (Mutant → Bool) → List Mutant → ℕ
count_of p ms = length (keep p ms)

none_there : (us : List String) → any (λ u. elem u []) us ≡ false
none_there [] = refl
none_there (u ∷ us) = none_there us

-- The mutants of all groups that satisfy a predicate.
abbrev pub count_in : (Mutant → Bool) → List (List Mutant) → ℕ
count_in p [] = 0
count_in p (group ∷ groups) = count_of p group + count_in p groups

module _ (above : String → List String) where
  -- Neither file of two mutants is the other's or above it.
  abbrev pub independent : Mutant → Mutant → Bool
  independent m n =
      not (elem (node_of n) (above (node_of m))) && not (elem (node_of m) (above (node_of n)))

  abbrev pub all_independent : List Mutant → Bool
  all_independent [] = true
  all_independent (m ∷ ms) = all (independent m) ms && all_independent ms

  fits-joined :
      (gs ig : List String) (m n : Mutant)
      → fits above (add (node_of m) gs) (add_range_of_nodes_to_set ig (above (node_of m))) n
        ≡ (fits above gs ig n && independent m n)
  unfolding fits
  fits-joined gs ig m n = ground (
    arith,
    elem-add_range (node_of n) ig (above (node_of m)),
    any-elem-add (node_of m) gs (above (node_of n)),
  )

  -- Behind a mutant that joins, what fits is what fitted before and is independent of it.
  all-fits-joined :
      (gs ig : List String) (m : Mutant) (ns : List Mutant)
      → all (fits above (add (node_of m) gs) (add_range_of_nodes_to_set ig (above (node_of m)))) ns
        ≡ (all (fits above gs ig) ns && all (independent m) ns)
  all-fits-joined gs ig m ns =
      all_eq _ (λ n. fits above gs ig n && independent m n) ns (fits-joined gs ig m)
      ∙ all_both (fits above gs ig) (independent m) ns

  group_fits :
      (gs ig : List String) (ms : List Mutant)
      → all (fits above gs ig) (create_group above gs ig ms).0 ≡ true
  unfolding create_group
  group_fits gs ig [] = refl
  group_fits gs ig (m ∷ ms) = elim (Bool-cases (fits above gs ig m)) [
    | inl e ↦
        rw (e, create_group)
          (ground (
            arith,
            e,
            group_fits (add (node_of m) gs) (add_range_of_nodes_to_set ig (above (node_of m))) ms,
            all-fits-joined gs ig m
                (create_group above (add (node_of m) gs)
                  (add_range_of_nodes_to_set ig (above (node_of m))) ms).0,
          ))
    | inr e ↦ rw (e, create_group) (group_fits gs ig ms)
  ]

  group_independent :
      (gs ig : List String) (ms : List Mutant)
      → all_independent (create_group above gs ig ms).0 ≡ true
  unfolding create_group
  group_independent gs ig [] = refl
  group_independent gs ig (m ∷ ms) = elim (Bool-cases (fits above gs ig m)) [
    | inl e ↦
        rw (e, create_group)
          (ground (
            arith,
            group_independent (add (node_of m) gs)
                (add_range_of_nodes_to_set ig (above (node_of m))) ms,
            group_fits (add (node_of m) gs) (add_range_of_nodes_to_set ig (above (node_of m))) ms,
            all-fits-joined gs ig m
                (create_group above (add (node_of m) gs)
                  (add_range_of_nodes_to_set ig (above (node_of m))) ms).0,
          ))
    | inr e ↦ rw (e, create_group) (group_independent gs ig ms)
  ]

  groups_independent :
      (fuel : ℕ) (ms : List Mutant)
      → all (λ group. all_independent group) (create_groups_from above fuel ms) ≡ true
  unfolding create_groups_from
  groups_independent zero ms = refl
  groups_independent (suc fuel) [] = refl
  groups_independent (suc fuel) (m ∷ ms) = ground (
    arith,
    group_independent [] [] (m ∷ ms),
    groups_independent fuel (create_group above [] [] (m ∷ ms)).1,
  )

  count-group :
      (p : Mutant → Bool) (gs ig : List String) (ms : List Mutant)
      → let r = create_group above gs ig ms in count_of p r.0 + count_of p r.1 ≡ count_of p ms
  unfolding create_group
  count-group p gs ig [] = omega arith
  count-group p gs ig (m ∷ ms) = elim (Bool-cases (fits above gs ig m)) [
    | inl e ↦
        rw (e, create_group)
          (ground (
            arith,
            count-group p (add (node_of m) gs) (add_range_of_nodes_to_set ig (above (node_of m)))
                ms,
          ))
    | inr e ↦ rw (e, create_group) (ground (arith, count-group p gs ig ms))
  ]

  left_shorter :
      (gs ig : List String) (ms : List Mutant) → length (create_group above gs ig ms).1 ≤ length ms
  unfolding create_group
  left_shorter gs ig [] = omega arith
  left_shorter gs ig (m ∷ ms) = elim (Bool-cases (fits above gs ig m)) [
    | inl e ↦
        rw (e, create_group)
          (omega (
            arith,
            left_shorter (add (node_of m) gs) (add_range_of_nodes_to_set ig (above (node_of m))) ms,
          ))
    | inr e ↦ rw (e, create_group) (omega (arith, left_shorter gs ig ms))
  ]

  first_fits : (m : Mutant) → fits above [] [] m ≡ true
  unfolding fits
  first_fits m = ground (arith, none_there (above (node_of m)))

  first_leaves :
      (m : Mutant) (ms : List Mutant) → length (create_group above [] [] (m ∷ ms)).1 ≤ length ms
  unfolding create_group
  first_leaves m ms =
      rw (first_fits m, create_group)
        (left_shorter (add (node_of m) []) (add_range_of_nodes_to_set [] (above (node_of m))) ms)

  count-groups :
      (p : Mutant → Bool) (fuel : ℕ) (ms : List Mutant)
      → length ms ≤ fuel
      → count_in p (create_groups_from above fuel ms) ≡ count_of p ms
  unfolding create_groups_from
  count-groups p zero [] h = refl
  count-groups p (suc fuel) [] h = refl
  count-groups p zero (m ∷ ms) h = omega arith
  count-groups p (suc fuel) (m ∷ ms) h = omega (
    arith,
    count-groups p fuel (create_group above [] [] (m ∷ ms)).1 (omega (arith, first_leaves m ms)),
    count-group p [] [] (m ∷ ms),
  )

-- The loop ends with no mutant left: of any kind of mutant there are as many in the groups together
-- as were to be grouped, so that each is in one group and in no two.
pub mutant_groups-count :
    (p : Mutant → Bool) (nodes : Nodes) (ms : List Mutant)
    → count_in p (mutant_groups nodes ms) ≡ count_of p ms
mutant_groups-count p nodes ms =
    count-groups (get_all_parent_references_including_self nodes) p (length ms) ms (omega arith)

-- In a group no mutant's file is that of another, nor among the files that refer to it.
pub mutant_groups-independent :
    (nodes : Nodes) (ms : List Mutant)
    → all
        (all_independent (get_all_parent_references_including_self nodes))
        (mutant_groups nodes ms)
      ≡ true
mutant_groups-independent nodes ms =
    groups_independent (get_all_parent_references_including_self nodes) (length ms) ms
