-- ===== src/Placement/Once.antt =====
-- That the traversal of packages/instrumenter/src/transformers/babel-transformer.ts places each mutant once.
use mathlib.Core.Option.{some_inj}
use isep_mutation_levels.Prelude.{
  ℕ, ◌+◌, ◌≡◌, refl, sym, ap, ◌∙◌, String, List, [], ◌∷◌, ◌++◌, Option, none, some, inl, inr, arith,
  if◌then◌else◌, Bool-cases,
}
use isep_mutation_levels.Placement.Defs.{Placer}
use isep_mutation_levels.Placement.Locations.{MutateRanges, should_skip}
use isep_mutation_levels.Placement.Counting.{occurrences}
use isep_mutation_levels.Placement.Traversal.{
  Tree, Trees, branch, nil, cons, Placed, mutants_at, transform_babel,
}
use isep_mutation_levels.Placement.Flow.{flow, flow_all, settle, placed_at, transform_babel-flow}

abbrev pub count_placed : String → List Placed → ℕ
count_placed id [] = 0
count_placed id (p ∷ ps) = occurrences id p.mutants + count_placed id ps

occurrences-append :
    (id : String) (a b : List String)
    → occurrences id (a ++ b) ≡ occurrences id a + occurrences id b
occurrences-append id [] b = omega arith
occurrences-append id (x ∷ a) b = omega (arith, occurrences-append id a b)

count_placed-append :
    (id : String) (a b : List Placed)
    → count_placed id (a ++ b) ≡ count_placed id a + count_placed id b
count_placed-append id [] b = omega arith
count_placed-append id (x ∷ a) b = omega (arith, count_placed-append id a b)

-- A mutant is placed here or goes on up.
settle-count :
    (id : String) (node : ℕ) (placer : Option Placer) (placed : List Placed) (mutants : List String)
    → count_placed id (settle node placer placed mutants).0
        + occurrences id (settle node placer placed mutants).1
      ≡ count_placed id placed + occurrences id mutants
settle-count id node none placed mutants = refl
settle-count id node (some placer) placed [] = omega (arith, count_placed-append id placed [])
settle-count id node (some placer) placed (m ∷ mutants) =
    omega (arith, count_placed-append id placed (placed_at node placer (m ∷ mutants)))

ended :
    (up : List String) (placed found : List Placed)
    → (elim up [ [] ↦ some placed | m ∷ ms ↦ none ]) ≡ some found
    → (up ≡ []) × (placed ≡ found)
ended [] placed found h = (refl, some_inj.0 h)
ended (m ∷ ms) placed found h = cc

module _ (mutate : MutateRanges) where
  -- How often `collectMutants` returned a mutant.
  abbrev mutual
    pub collected : String → Tree → ℕ
    collected id (branch node loc is_leaf_kind placer mutants children) =
        let below = collected_all id children in
        if should_skip mutate is_leaf_kind loc
        then 0
        else occurrences id (mutants_at mutate loc mutants) + below

    pub collected_all : String → Trees → ℕ
    collected_all id nil = 0
    collected_all id (cons tree trees) = collected id tree + collected_all id trees

  mutual
    flow-count :
        (id : String) (tree : Tree)
        → count_placed id (flow mutate tree).0 + occurrences id (flow mutate tree).1
          ≡ collected id tree
    flow-count id (branch node loc is_leaf_kind placer mutants children) =
        elim (Bool-cases (should_skip mutate is_leaf_kind loc)) [
          | inl skipped ↦ rw (skipped, flow, collected) refl
          | inr entered ↦
              rw (entered, flow, collected)
                (omega (
                  arith,
                  settle-count id node placer (flow_all mutate children).0
                      (mutants_at mutate loc mutants ++ (flow_all mutate children).1),
                  occurrences-append id (mutants_at mutate loc mutants)
                      (flow_all mutate children).1,
                  flow_all-count id children,
                ))
        ]

    flow_all-count :
        (id : String) (trees : Trees)
        → count_placed id (flow_all mutate trees).0 + occurrences id (flow_all mutate trees).1
          ≡ collected_all id trees
    flow_all-count id nil = refl
    flow_all-count id (cons tree trees) = omega (
      arith,
      count_placed-append id (flow mutate tree).0 (flow_all mutate trees).0,
      occurrences-append id (flow mutate tree).1 (flow_all mutate trees).1,
      flow-count id tree,
      flow_all-count id trees,
    )

  -- When the traversal ends without an error, each mutant has been placed exactly as often as
  -- `collectMutants` returned it.
  pub transform_babel-collected :
      (tree : Tree) (placed : List Placed)
      → transform_babel mutate tree ≡ some placed
      → (id : String) → count_placed id placed ≡ collected id tree
  transform_babel-collected tree placed h id =
      let (left, same) =
        ended (flow mutate tree).1 (flow mutate tree).0 placed
          (sym (transform_babel-flow mutate tree) ∙ h) in
      let none_left : occurrences id (flow mutate tree).1 ≡ 0 = ap (occurrences id) left in
      let placed_all : count_placed id (flow mutate tree).0 ≡ count_placed id placed =
        ap (count_placed id) same in
      omega (arith, flow-count id tree, none_left, placed_all)
