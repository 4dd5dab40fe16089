-- ===== src/Placement/Flow.antt =====
-- Where the traversal of packages/instrumenter/src/transformers/babel-transformer.ts places mutants, against
-- a description without the placement map: mutants flow up to the nearest node that can hold them.
use mathlib.Core.Path.{fun_ext}
use isep_mutation_levels.Prelude.{
  ℕ, ◌≡◌, refl, ap, sym, ◌∙◌, String, List, [], ◌∷◌, ◌++◌, Option, none, some, inl, inr,
  if◌then◌else◌, append_assoc, append-nil, Bool-cases,
}
use isep_mutation_levels.Placement.Defs.{Placer}
use isep_mutation_levels.Placement.Locations.{MutateRanges, should_skip}
use isep_mutation_levels.Placement.Traversal.{
  Tree, Trees, branch, nil, cons, Frame, Placed, register_in_placement_map, register_if_any,
  add_to_placement_map_if_possible, place_mutants_if_needed, bind, mutants_at, traverse,
  traverse_all, transform_babel,
}

abbrev pub placed_at : (node : ℕ) → Placer → List String → List Placed
placed_at node placer [] = []
placed_at node placer (m ∷ ms) = record { node = node; placer = placer; mutants = m ∷ ms } ∷ []

-- At a node that can hold mutants those that have come up are placed; else they go on.
abbrev pub settle :
    (node : ℕ) → Option Placer → List Placed → List String → List Placed × List String
settle node none placed mutants = (placed, mutants)
settle node (some placer) placed mutants = (placed ++ placed_at node placer mutants, [])

bind_assoc {ℓ κ μ} :
    {A : Type ℓ} {B : Type κ} {C : Type μ} (o : Option A) (f : A → Option B) (g : B → Option C)
    → bind (bind o f) g ≡ bind o (λ a. bind (f a) g)
bind_assoc none f g = refl
bind_assoc (some a) f g = refl

bind-some {ℓ} : {A : Type ℓ} (o : Option A) → bind o some ≡ o
bind-some none = refl
bind-some (some a) = refl

register-append :
    (a b : List String) (frames : List Frame)
    → register_in_placement_map (a ++ b) frames
      ≡ bind (register_in_placement_map a frames) (register_in_placement_map b)
unfolding register_in_placement_map
register-append a b [] = refl
register-append a b ((node, some (placer, applied)) ∷ frames) =
    ap (λ l. some ((node, some (placer, l)) ∷ frames)) (sym (append_assoc applied a b))
register-append a b ((node, none) ∷ frames) = rw (register-append a b frames) (
    bind_assoc (register_in_placement_map a frames) _ _
    ∙ sym (bind_assoc (register_in_placement_map a frames) _ _))

register_if_any-append :
    (a b : List String) (frames : List Frame)
    → register_if_any (a ++ b) frames ≡ bind (register_if_any a frames) (register_if_any b)
unfolding register_if_any
register_if_any-append [] b frames = refl
register_if_any-append (x ∷ a) [] frames =
    rw append-nil (sym (bind-some (register_in_placement_map (x ∷ a) frames)))
register_if_any-append (x ∷ a) (y ∷ b) frames = register-append (x ∷ a) (y ∷ b) frames

-- A node that can hold no mutants leaves them to those above it.
register_if_any-none :
    (mutants : List String) (node : ℕ) (frames : List Frame)
    → register_if_any mutants (add_to_placement_map_if_possible node none frames)
      ≡ bind (register_if_any mutants frames) λ frames'. some ((node, none) ∷ frames')
unfolding register_if_any register_in_placement_map add_to_placement_map_if_possible
register_if_any-none [] node frames = refl
register_if_any-none (m ∷ mutants) node frames = refl

register_if_any-some :
    (mutants : List String) (node : ℕ) (placer : Placer) (frames : List Frame)
    → register_if_any mutants (add_to_placement_map_if_possible node (some placer) frames)
      ≡ some ((node, some (placer, mutants)) ∷ frames)
unfolding register_if_any register_in_placement_map add_to_placement_map_if_possible
register_if_any-some [] node placer frames = refl
register_if_any-some (m ∷ mutants) node placer frames = refl

answer :
    (up : List String) (placed : List Placed)
    → (elim (bind {B = List Placed × List Frame}
        (register_if_any up [])
        (λ frames'. some (placed, frames'))) [ none ↦ none | some r ↦ some r.0 ])
      ≡ (elim up [ [] ↦ some placed | m ∷ ms ↦ none ])
unfolding register_if_any register_in_placement_map
answer [] placed = refl
answer (m ∷ ms) placed = refl

module _ (mutate : MutateRanges) where
  -- The placements below and at a node, and the mutants that it leaves to the nodes above it.
  abbrev mutual
    pub flow : Tree → List Placed × List String
    flow (branch node loc is_leaf_kind placer mutants children) =
        let (placed, up) = flow_all children in
        if should_skip mutate is_leaf_kind loc
        then ([], [])
        else settle node placer placed (mutants_at mutate loc mutants ++ up)

    pub flow_all : Trees → List Placed × List String
    flow_all nil = ([], [])
    flow_all (cons tree trees) =
        let (placed, up) = flow tree in
        let (placed', up') = flow_all trees in (placed ++ placed', up ++ up')

  -- Behind a node: the mutants that have come up are placed, or registered above it.
  leave-settle :
      (node : ℕ) (placer : Option Placer) (placed : List Placed) (mutants : List String)
      (frames : List Frame)
      → bind {B = List Placed × List Frame}
          (register_if_any mutants (add_to_placement_map_if_possible node placer frames))
          (λ frames'.
            some
              (placed ++ (place_mutants_if_needed frames').0, (place_mutants_if_needed frames').1))
        ≡ bind
            (register_if_any (settle node placer placed mutants).1 frames)
            λ frames'. some ((settle node placer placed mutants).0, frames')
  unfolding place_mutants_if_needed add_to_placement_map_if_possible register_if_any
  leave-settle node none placed mutants frames = rw (register_if_any-none mutants node frames) (
      bind_assoc (register_if_any mutants frames) _ _
      ∙ ap (λ l. bind (register_if_any mutants frames) (λ frames'. some (l, frames')))
          (append-nil placed))
  leave-settle node (some placer) placed [] frames = refl
  leave-settle node (some placer) placed (m ∷ mutants) frames = refl

  -- Two parts of the traversal in a row, of each of which its flow is known.
  module _ (after : List Frame → Option (List Placed × List Frame)) (placed : List Placed)
      (up : List String)
      (after_flow : (frames : List Frame)
        → after frames ≡ bind (register_if_any up frames) λ frames'. some (placed, frames')) where
    abbrev Continuation : Type 0
    Continuation = List Placed × List Frame → Option (List Placed × List Frame)

    register-after :
        (mutants : List String) (frames : List Frame) (k : Continuation)
        → bind (register_if_any mutants frames) (λ entered. bind (after entered) k)
          ≡ bind (register_if_any (mutants ++ up) frames) (λ frames'. k (placed, frames'))
    register-after mutants frames k = rw (register_if_any-append mutants up frames) (
        ap (bind (register_if_any mutants frames)) (
          fun_ext λ entered.
            ap (λ o. bind o k) (after_flow entered) ∙ bind_assoc (register_if_any up entered) _ k)
        ∙ sym (bind_assoc (register_if_any mutants frames) (register_if_any up) _))

  mutual
    unfolding traverse

    traverse-flow :
        (tree : Tree) (frames : List Frame)
        → traverse mutate tree frames
          ≡ bind (register_if_any (flow tree).1 frames) λ frames'. some ((flow tree).0, frames')
    traverse-flow (branch node loc is_leaf_kind placer mutants children) frames =
        elim (Bool-cases (should_skip mutate is_leaf_kind loc)) [
          | inl skipped ↦ rw (skipped, flow) refl
          | inr entered ↦
              rw (entered, flow)
                (register-after (traverse_all mutate children) (flow_all children).0
                    (flow_all children).1 (traverse_all-flow children)
                    (mutants_at mutate loc mutants)
                    (add_to_placement_map_if_possible node placer frames)
                    (λ below. some (
                      below.0 ++ (place_mutants_if_needed below.1).0,
                      (place_mutants_if_needed below.1).1,
                    ))
                  ∙ leave-settle node placer (flow_all children).0
                      (mutants_at mutate loc mutants ++ (flow_all children).1) frames)
        ]

    traverse_all-flow :
        (trees : Trees) (frames : List Frame)
        → traverse_all mutate trees frames
          ≡ bind
              (register_if_any (flow_all trees).1 frames)
              λ frames'. some ((flow_all trees).0, frames')
    traverse_all-flow nil frames = refl
    traverse_all-flow (cons tree trees) frames = rw (traverse-flow tree frames) (
        bind_assoc (register_if_any (flow tree).1 frames) _ _
        ∙ register-after (traverse_all mutate trees) (flow_all trees).0 (flow_all trees).1
            (traverse_all-flow trees) (flow tree).1 frames
            λ rest. some ((flow tree).0 ++ rest.0, rest.1))

  -- If every mutant that `collectMutants` returned has a node around it that can hold it, the traversal
  -- places them all: at each node that can hold mutants, in the order in which the traversal leaves
  -- them, its own and those that nodes below it could not hold. Otherwise it ends with the error that
  -- mutants cannot be placed.
  pub transform_babel-flow :
      (tree : Tree)
      → transform_babel mutate tree
        ≡ (elim (flow tree).1 [ [] ↦ some (flow tree).0 | m ∷ ms ↦ none ])
  unfolding transform_babel
  transform_babel-flow tree =
      rw (traverse-flow tree [], transform_babel) (answer (flow tree).1 (flow tree).0)
