-- ===== src/Placement/Traversal.antt =====
-- The traversal of packages/instrumenter/src/transformers/babel-transformer.ts with its placement map:
-- mutants are registered at the nearest node around them that can hold them, and placed as the
-- traversal leaves that node.
use isep_mutation_levels.Prelude.{
  ℕ, String, Bool, List, [], ◌∷◌, ◌++◌, Option, none, some, if◌then◌else◌,
}
use isep_mutation_levels.Syntax.{NodePath}
use isep_mutation_levels.Placement.Paths.{Babel}
use isep_mutation_levels.Placement.Defs.{Placer, can_place}
use isep_mutation_levels.Placement.Locations.{
  SourceLocation, MutateRanges, should_skip, should_mutate,
}

-- `mutantPlacers.find((p) => p.canPlace(path))`.
unfoldable pub find_placer : Babel → List Placer → NodePath → Option Placer
unfolding can_place
find_placer babel [] path = none
find_placer babel (placer ∷ placers) path =
    if can_place babel placer path then some placer else find_placer babel placers path

-- A syntax tree as the traversal meets it: of each node its place, whether it is a type, an import or a
-- decorator, the placer that is found for it, and the mutants (by id) that `collectMutants` returns.
mutual
  pub data Tree : Type 0 where
    branch :
        (node : ℕ)
        → SourceLocation
        → (is_leaf_kind : Bool) → (placer : Option Placer) → (mutants : List String) → Trees
        → Tree

  pub data Trees : Type 0 where
    nil : Trees
    cons : Tree → Trees → Trees

-- A node on the path with its entry in the placement map. An entry is only read and written while its
-- node is on the path.
abbrev pub Frame : Type 0
Frame = ℕ × Option (Placer × List String)

-- What `place` is called with.
pub record Placed : Type 0 where
  pub node : ℕ
  pub placer : Placer
  pub mutants : List String

abbrev pub bind {ℓ κ} : {A : Type ℓ} {B : Type κ} → Option A → (A → Option B) → Option B
bind none f = none
bind (some a) f = f a

-- `none` is the error 'Mutants cannot be placed'.
unfoldable pub register_in_placement_map : List String → List Frame → Option (List Frame)
register_in_placement_map mutants [] = none
register_in_placement_map mutants ((node, some (placer, applied)) ∷ frames) =
    some ((node, some (placer, applied ++ mutants)) ∷ frames)
register_in_placement_map mutants ((node, none) ∷ frames) =
    bind (register_in_placement_map mutants frames) (λ frames'. some ((node, none) ∷ frames'))

-- `if (mutantsToPlace.length)`.
unfoldable pub register_if_any : List String → List Frame → Option (List Frame)
unfolding register_in_placement_map
register_if_any [] frames = some frames
register_if_any (m ∷ mutants) frames = register_in_placement_map (m ∷ mutants) frames

unfoldable pub add_to_placement_map_if_possible :
    (node : ℕ) → Option Placer → List Frame → List Frame
add_to_placement_map_if_possible node placer frames =
    (node, elim placer [ none ↦ none | some p ↦ some (p, []) ]) ∷ frames

-- On the way up: what is placed at the node, and the path above it.
unfoldable pub place_mutants_if_needed : List Frame → List Placed × List Frame
place_mutants_if_needed [] = ([], [])
place_mutants_if_needed ((node, none) ∷ frames) = ([], frames)
place_mutants_if_needed ((node, some (placer, [])) ∷ frames) = ([], frames)
place_mutants_if_needed ((node, some (placer, m ∷ ms)) ∷ frames) =
    (record { node = node; placer = placer; mutants = m ∷ ms } ∷ [], frames)

module _ (mutate : MutateRanges) where
  abbrev pub mutants_at : SourceLocation → List String → List String
  mutants_at loc mutants = if should_mutate mutate loc then mutants else []

  unfoldable mutual
    unfolding should_skip should_mutate register_if_any add_to_placement_map_if_possible
        place_mutants_if_needed

    pub traverse : Tree → List Frame → Option (List Placed × List Frame)
    traverse (branch node loc is_leaf_kind placer mutants children) frames =
        let visited =
          bind
            (register_if_any (mutants_at loc mutants)
              (add_to_placement_map_if_possible node placer frames))
            λ entered. bind (traverse_all children entered) λ below.
              let (placed, frames') = place_mutants_if_needed below.1 in
              some (below.0 ++ placed, frames') in
        if should_skip mutate is_leaf_kind loc then some ([], frames) else visited

    pub traverse_all : Trees → List Frame → Option (List Placed × List Frame)
    traverse_all nil frames = some ([], frames)
    traverse_all (cons tree trees) frames =
        bind (traverse tree frames)
          λ first. bind (traverse_all trees first.1) λ rest. some (first.0 ++ rest.0, rest.1)

  -- The placements in a file, in their order.
  unfoldable pub transform_babel : Tree → Option (List Placed)
  unfolding traverse
  transform_babel tree = elim (traverse tree []) [ none ↦ none | some r ↦ some r.0 ]
