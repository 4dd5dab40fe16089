-- ===== src/Checker/References.antt =====
-- Which files `getAllParentReferencesIncludingSelf` and its counterpart for children find.
use isep_mutation_levels.Prelude.{
  ◌≤◌, ◌≡◌, refl, subst, ◌↔◌, inl, inr, String, Bool, true, not, ◌&&◌, List, [], ◌∷◌, some, length,
  length-map, length-keep, all, elem, lookup, keys, arith, eq_iff, ◌=s=◌, Bool-cases, Option-cases,
}
use mathlib.Core.Option.{some_inj}
use isep_mutation_levels.Checker.Graph.{
  FileNode, Nodes, parents_of, children_of, collect_references,
  get_all_parent_references_including_self, get_all_child_references_including_self,
}
use isep_mutation_levels.Checker.Closure.{Reach, unvisited, complete, walk_in, sound}

-- Every reference of a node is to a node of the graph.
abbrev pub is_closed : Nodes → Bool
is_closed nodes =
    all
      (λ e.
        all (λ y. elem y (keys nodes)) e.1.parents && all (λ y. elem y (keys nodes)) e.1.children)
      nodes

all-elem :
    (p : String → Bool) (y : String) (xs : List String)
    → all p xs ≡ true
    → elem y xs ≡ true
    → p y ≡ true
all-elem p y (x ∷ xs) h there = elim (Bool-cases (x =s= y)) [
  | inl e ↦ rw (← (eq_iff x y).0 e) (ground (arith, h))
  | inr e ↦ all-elem p y xs (ground (arith, h)) (rw e at there)
]
all-elem p y [] h there = cc

all-lookup :
    (p : FileNode → Bool) (x : String) (m : Nodes) {n : FileNode}
    → all (λ e. p e.1) m ≡ true
    → lookup x m ≡ some n
    → p n ≡ true
all-lookup p x [] h there = cc
all-lookup p x ((k, v) ∷ m) h there = elim (Bool-cases (k =s= x)) [
  | inl e ↦ both_of (rw e at there) (ground (arith, h))
  | inr e ↦ all-lookup p x m (ground (arith, h)) (rw e at there)
]
  where
    both_of : {v n : FileNode} → some v ≡ some n → p v ≡ true → p n ≡ true
    both_of same holds = subst (λ z. p z ≡ true) (some_inj.0 same) holds

refs_known :
    (nodes : Nodes) (x y : String)
    → is_closed nodes ≡ true
    → (elem y (parents_of nodes x) ≡ true → elem y (keys nodes) ≡ true)
      × (elem y (children_of nodes x) ≡ true → elem y (keys nodes) ≡ true)
refs_known nodes x y h = elim (Option-cases (lookup x nodes)) [
  | inl e ↦ rw (e, parents_of, children_of) (λ no. cc, λ no. cc)
  | inr (n, e) ↦
      let both =
        all-lookup
          (λ n.
            all (λ y. elem y (keys nodes)) n.parents && all (λ y. elem y (keys nodes)) n.children)
          x nodes h e in
      rw (e, parents_of, children_of)
        (
          λ r. all-elem (λ y. elem y (keys nodes)) y n.parents (ground (arith, both)) r,
          λ r. all-elem (λ y. elem y (keys nodes)) y n.children (ground (arith, both)) r,
        )
]

enough_fuel :
    (next : String → List String) (nodes : Nodes) → unvisited next (keys nodes) [] ≤ length nodes
enough_fuel next nodes =
    omega (arith, length-keep (λ u. not (elem u [])) (keys nodes), length-map (λ e. e.0) nodes)

collect_iff :
    (next : String → List String) (nodes : Nodes) (n x : String)
    → ((x y : String) → elem y (next x) ≡ true → elem y (keys nodes) ≡ true)
    → elem n (keys nodes) ≡ true
    → (elem x (collect_references next (length nodes) n []) ≡ true) ↔ Reach next n x
collect_iff next nodes n x known there =
    let (walk, itself) =
      complete next (keys nodes) (length nodes) known n [] refl there (enough_fuel next nodes) in
    (
      λ h. elim (sound next (keys nodes) (length nodes) n [] x h) [ inl never ↦ cc | inr r ↦ r ],
      λ r. walk_in next (keys nodes) n x _ walk itself r,
    )

-- In a graph whose references all lead to its nodes, the walk from a node ends, and finds exactly
-- the files from which references lead to it, and itself.
pub get_all_parent_references_including_self_iff :
    (nodes : Nodes) (n x : String)
    → is_closed nodes ≡ true
    → elem n (keys nodes) ≡ true
    → (elem x (get_all_parent_references_including_self nodes n) ≡ true)
      ↔ Reach (parents_of nodes) n x
unfolding get_all_parent_references_including_self
get_all_parent_references_including_self_iff nodes n x h there =
    collect_iff (parents_of nodes) nodes n x (λ a b. (refs_known nodes a b h).0) there

-- In such a graph the walk from a node over the children ends too, and finds exactly the files to
-- which references lead from it, and itself.
pub get_all_child_references_including_self_iff :
    (nodes : Nodes) (n x : String)
    → is_closed nodes ≡ true
    → elem n (keys nodes) ≡ true
    → (elem x (get_all_child_references_including_self nodes n) ≡ true)
      ↔ Reach (children_of nodes) n x
unfolding get_all_child_references_including_self
get_all_child_references_including_self_iff nodes n x h there =
    collect_iff (children_of nodes) nodes n x (λ a b. (refs_known nodes a b h).1) there
