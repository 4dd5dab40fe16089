-- ===== src/Checker/Related.antt =====
-- ts-file-node.ts: `getMutantsWithReferenceToChildrenOrSelf`, the mutants that an error in a file may come
-- from.
use isep_mutation_levels.Prelude.{
  ℕ, zero, suc, ◌≡◌, refl, ap, sym, ◌∙◌, String, true, false, List, [], ◌∷◌, ◌++◌, inl, inr, length,
  elem, add, keep, ◌=s=◌, if◌then◌else◌, Bool-cases, append_assoc, append-nil, arith,
}
use isep_mutation_levels.Api.{Mutant}
use isep_mutation_levels.Checker.Graph.{
  Nodes, children_of, fold, collect_references, get_all_child_references_including_self,
}
use isep_mutation_levels.Checker.Groups.{node_of}

abbrev pub flat_map {ℓ κ} : {A : Type ℓ} {B : Type κ} → (A → List B) → List A → List B
flat_map f [] = []
flat_map f (x ∷ xs) = f x ++ flat_map f xs

-- `mutants.filter((m) => toPosixFileName(m.fileName) == this.fileName)`.
abbrev pub mutants_in : List Mutant → String → List Mutant
mutants_in mutants name = keep (λ m. node_of m =s= name) mutants

abbrev pub Found : Type 0
Found = List Mutant × List String

-- `flatMap` over the children of a node, with the array that the calls fill.
abbrev pub fold_found : (String → List String → Found) → List String → List String → Found
fold_found visit [] checked = ([], checked)
fold_found visit (x ∷ xs) checked =
    let (found, checked') = visit x checked in
    let (more, checked'') = fold_found visit xs checked' in (found ++ more, checked'')

-- Each call that goes on has a node more in the array, so that the number of nodes is fuel enough.
unfoldable pub collect_related :
    Nodes → List Mutant → (fuel : ℕ) → String → (nodes_checked : List String) → Found
collect_related nodes mutants zero name checked = ([], checked)
collect_related nodes mutants (suc fuel) name checked =
    let visited : Found =
      let (children, checked') =
        fold_found (collect_related nodes mutants fuel) (children_of nodes name)
          (checked ++ name ∷ []) in
      (mutants_in mutants name ++ children, checked') in
    if elem name checked then ([], checked) else visited

unfoldable pub get_mutants_with_reference_to_children_or_self :
    Nodes → String → List Mutant → List Mutant
unfolding collect_related
get_mutants_with_reference_to_children_or_self nodes name mutants =
    (collect_related nodes mutants (length nodes) name []).0

flat_map-append :
    (f : String → List Mutant) (a b : List String)
    → flat_map f (a ++ b) ≡ flat_map f a ++ flat_map f b
flat_map-append f [] b = refl
flat_map-append f (x ∷ a) b =
    ap (λ l. f x ++ l) (flat_map-append f a b)
    ∙ sym (append_assoc (f x) (flat_map f a) (flat_map f b))

module _ (nodes : Nodes) (mutants : List Mutant) where
  -- A call adds nodes to the array, and returns the mutants in them.
  record Adds (found : Found) (checked after : List String) : Type 0 where
    added : List String
    visited : after ≡ checked ++ added
    same : found.1 ≡ after
    mutants_there : found.0 ≡ flat_map (mutants_in mutants) added

  Adds-append :
      {first : Found} {checked after final : List String} (rest : List String → Found)
      → Adds first checked after
      → Adds (rest after) after final
      → Adds (first.0 ++ (rest first.1).0, (rest first.1).1) checked final
  Adds-append {first} {checked} {after} rest a b = record {
    added = a.added ++ b.added;
    visited = b.visited ∙ ap (λ l. l ++ b.added) a.visited ∙ append_assoc checked a.added b.added;
    same = ap (λ l. (rest l).1) a.same ∙ b.same;
    mutants_there =
        ap (λ l. first.0 ++ (rest l).0) a.same
        ∙ ap (λ l. first.0 ++ l) b.mutants_there
        ∙ ap (λ l. l ++ flat_map (mutants_in mutants) b.added) a.mutants_there
        ∙ sym (flat_map-append (mutants_in mutants) a.added b.added);
  }

  nothing_added : (checked : List String) → Adds ([], checked) checked checked
  nothing_added checked = record {
    added = [];
    visited = sym (append-nil checked);
    same = refl;
    mutants_there = refl;
  }

  -- The node itself, then those below it.
  Adds-node :
      (x : String) {below : Found} {checked after : List String}
      → Adds below (checked ++ x ∷ []) after
      → Adds (mutants_in mutants x ++ below.0, below.1) checked after
  Adds-node x {below} {checked} b = record {
    added = x ∷ b.added;
    visited = b.visited ∙ append_assoc checked (x ∷ []) b.added;
    same = b.same;
    mutants_there = ap (λ l. mutants_in mutants x ++ l) b.mutants_there;
  }

  abbrev walk : ℕ → String → List String → List String
  walk fuel x seen = elim (elem x seen) [
    | true ↦ seen
    | false ↦ collect_references (children_of nodes) fuel x seen
  ]

  Adds-fold :
      (fuel : ℕ)
      → ((x : String) (checked : List String)
          → Adds (collect_related nodes mutants fuel x checked) checked (walk fuel x checked))
      → (xs checked : List String)
      → Adds
          (fold_found (collect_related nodes mutants fuel) xs checked)
          checked
          (fold (walk fuel) xs checked)
  Adds-fold fuel each [] checked = nothing_added checked
  Adds-fold fuel each (x ∷ xs) checked =
      Adds-append (fold_found (collect_related nodes mutants fuel) xs) (each x checked)
        (Adds-fold fuel each xs (walk fuel x checked))

  walk_new :
      (fuel : ℕ) (x : String) (checked : List String)
      → elem x checked ≡ false
      → walk (suc fuel) x checked ≡ fold (walk fuel) (children_of nodes x) (checked ++ x ∷ [])
  unfolding collect_references
  walk_new fuel x checked new =
      let at_end : add x checked ≡ checked ++ x ∷ [] = ground (arith, new) in
      rw (walk, new) (ap (fold (walk fuel) (children_of nodes x)) at_end)

  Adds-collect :
      (fuel : ℕ) (x : String) (checked : List String)
      → Adds (collect_related nodes mutants fuel x checked) checked (walk fuel x checked)
  unfolding collect_related collect_references
  Adds-collect zero x checked = elim (Bool-cases (elem x checked)) [
    | inl old ↦ rw (old, walk) (nothing_added checked)
    | inr new ↦ rw (new, walk) (nothing_added checked)
  ]
  Adds-collect (suc fuel) x checked = elim (Bool-cases (elem x checked)) [
    | inl old ↦ rw (old, walk) (nothing_added checked)
    | inr new ↦
        rw (new, walk_new fuel x checked new)
          (Adds-node x
            (Adds-fold fuel (Adds-collect fuel) (children_of nodes x) (checked ++ x ∷ [])))
  ]

  -- The mutants that an error in a file may come from are those in the file and in the files that it
  -- refers to, directly or not: file by file, in the order in which the references are walked.
  pub get_mutants_with_reference_to_children_or_self_lem :
      (name : String)
      → get_mutants_with_reference_to_children_or_self nodes name mutants
        ≡ flat_map (mutants_in mutants) (get_all_child_references_including_self nodes name)
  unfolding get_mutants_with_reference_to_children_or_self get_all_child_references_including_self
  get_mutants_with_reference_to_children_or_self_lem name =
      let a = Adds-collect (length nodes) name [] in
      a.mutants_there ∙ ap (flat_map (mutants_in mutants)) (sym a.visited)
