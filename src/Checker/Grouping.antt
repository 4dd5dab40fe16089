-- ===== src/Checker/Grouping.antt =====
-- typescript-checker.ts: `group`.
use isep_mutation_levels.Prelude.{
  ℕ, ◌+◌, ◌≡◌, refl, String, Bool, true, false, not, List, [], ◌∷◌, map, Option, none, some, all,
  ◌=s=◌, if◌then◌else◌, arith,
}
use isep_mutation_levels.Api.{Mutant}
use isep_mutation_levels.Checker.Graph.{Nodes}
use isep_mutation_levels.Checker.Groups.{create_groups, mutant_groups, is_in_graph}
use isep_mutation_levels.Checker.Partition.{count_of, count_in, mutant_groups-count}

-- `split` of packages/util.
unfoldable pub split {ℓ} : {A : Type ℓ} → (A → Bool) → List A → List A × List A
split p [] = ([], [])
split p (x ∷ xs) =
    let (left, right) = split p xs in if p x then (x ∷ left, right) else (left, x ∷ right)

abbrev pub ids_of : List Mutant → List String
ids_of ms = map (λ m. m.id) ms

abbrev pub outside_group : List Mutant → List (List String) → List (List String)
outside_group [] groups = groups
outside_group (m ∷ ms) groups = ids_of (m ∷ ms) ∷ groups

-- `none` is the error of `createGroups`.
unfoldable pub group :
    (prioritize_performance_over_accuracy : Bool)
    → List Mutant
    → Nodes
    → Option (List (List String))
unfolding split create_groups
group false mutants nodes = some (map (λ m. m.id ∷ []) mutants)
group true mutants nodes =
    let (outside, inside) = split (λ m. not (is_in_graph nodes m)) mutants in
    elim (create_groups inside nodes) [
      | none ↦ none
      | some groups ↦ some (outside_group outside groups)
    ]

split-count :
    (p q : Mutant → Bool) (ms : List Mutant)
    → count_of p (split q ms).0 + count_of p (split q ms).1 ≡ count_of p ms
unfolding split
split-count p q [] = refl
split-count p q (m ∷ ms) = ground (arith, split-count p q ms)

split-all : (q : Mutant → Bool) (ms : List Mutant) → all q (split (λ m. not (q m)) ms).1 ≡ true
unfolding split
split-all q [] = refl
split-all q (m ∷ ms) = ground (arith, split-all q ms)

-- How often an id is in a group, and in all groups.
abbrev pub count_id : String → List String → ℕ
count_id id [] = 0
count_id id (x ∷ xs) = (if x =s= id then 1 else 0) + count_id id xs

abbrev pub count_ids : String → List (List String) → ℕ
count_ids id [] = 0
count_ids id (g ∷ gs) = count_id id g + count_ids id gs

count_id-ids_of :
    (id : String) (ms : List Mutant) → count_id id (ids_of ms) ≡ count_of (λ m. m.id =s= id) ms
count_id-ids_of id [] = refl
count_id-ids_of id (m ∷ ms) = ground (arith, count_id-ids_of id ms)

count_ids-map :
    (id : String) (groups : List (List Mutant))
    → count_ids id (map ids_of groups) ≡ count_in (λ m. m.id =s= id) groups
count_ids-map id [] = refl
count_ids-map id (g ∷ gs) = omega (arith, count_id-ids_of id g, count_ids-map id gs)

count_ids-outside_group :
    (id : String) (outside : List Mutant) (groups : List (List String))
    → count_ids id (outside_group outside groups)
      ≡ count_of (λ m. m.id =s= id) outside + count_ids id groups
count_ids-outside_group id [] groups = omega arith
count_ids-outside_group id (m ∷ ms) groups = omega (arith, count_id-ids_of id (m ∷ ms))

count_ids-singles :
    (id : String) (ms : List Mutant)
    → count_ids id (map (λ m. m.id ∷ []) ms) ≡ count_of (λ m. m.id =s= id) ms
count_ids-singles id [] = refl
count_ids-singles id (m ∷ ms) = ground (arith, count_ids-singles id ms)

create_groups_inside :
    (inside : List Mutant) (nodes : Nodes)
    → all (is_in_graph nodes) inside ≡ true
    → create_groups inside nodes ≡ some (map ids_of (mutant_groups nodes inside))
unfolding create_groups
create_groups_inside inside nodes h = rw h refl

pub record Grouped (mutants : List Mutant) (answer : Option (List (List String))) : Type 0 where
  pub groups : List (List String)
  pub returns : answer ≡ some groups
  pub counts : (id : String) → count_ids id groups ≡ count_of (λ m. m.id =s= id) mutants

-- Grouping never fails, and every mutant is in the groups as often as it was given: each mutant with its
-- own id is in one group and in no two, whether it is in the project or not.
pub group-Grouped :
    (prioritize : Bool) (mutants : List Mutant) (nodes : Nodes)
    → Grouped mutants (group prioritize mutants nodes)
unfolding group
group-Grouped false mutants nodes = record {
  groups = map (λ m. m.id ∷ []) mutants;
  returns = refl;
  counts = λ id. count_ids-singles id mutants;
}
group-Grouped true mutants nodes =
    let outside = (split (λ m. not (is_in_graph nodes m)) mutants).0 in
    let inside = (split (λ m. not (is_in_graph nodes m)) mutants).1 in
    record {
      groups = outside_group outside (map ids_of (mutant_groups nodes inside));
      returns =
          rw (group, create_groups_inside inside nodes (split-all (is_in_graph nodes) mutants))
            refl;
      counts = λ id. omega (
        arith,
        count_ids-outside_group id outside (map ids_of (mutant_groups nodes inside)),
        count_ids-map id (mutant_groups nodes inside),
        mutant_groups-count (λ m. m.id =s= id) nodes inside,
        split-count (λ m. m.id =s= id) (λ m. not (is_in_graph nodes m)) mutants,
      );
    }
