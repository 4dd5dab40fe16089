-- ===== src/Checker/Imports.antt =====
-- typescript-compiler.ts: the graph of the files, built from their imports.
use isep_mutation_levels.Prelude.{
  ◌≡◌, ◌≢◌, refl, ap, sym, ◌∙◌, String, Bool, true, false, not, ◌&&◌, List, [], ◌∷◌, map, Option,
  none, some, inl, inr, keep, elem, ◌=s=◌, lookup, keys, Bool-cases, Option-cases, arith, eq_iff,
}
use isep_mutation_levels.Checker.Graph.{FileNode, Nodes, parents_of, children_of}

-- The getter `nodes`: a node for each source file, with the imports that have a node as children, and as
-- parents the files whose children it is among.
abbrev pub SourceFiles : Type 0
SourceFiles = List (String × List String)

unfoldable pub children_in : SourceFiles → (imports : List String) → List String
children_in files imports = keep (λ name. elem name (keys files)) imports

unfoldable pub parents_in : SourceFiles → String → List String
unfolding children_in
parents_in files name = map (λ f. f.0) (keep (λ f. elem name (children_in files f.1)) files)

unfoldable pub nodes_from : SourceFiles → SourceFiles → Nodes
unfolding children_in parents_in
nodes_from files [] = []
nodes_from files ((name, imports) ∷ rest) =
    (name, record { parents = parents_in files name; children = children_in files imports })
    ∷ nodes_from files rest

unfoldable pub project_nodes : SourceFiles → Nodes
unfolding nodes_from
project_nodes files = nodes_from files files

-- A map has each key once.
abbrev pub distinct : List String → Bool
distinct [] = true
distinct (x ∷ xs) = not (elem x xs) && distinct xs

node_in : SourceFiles → String → Option (List String) → Option FileNode
unfolding parents_in children_in
node_in files a none = none
node_in files a (some imports) =
    some (record { parents = parents_in files a; children = children_in files imports })

lookup-nodes_from :
    (files fs : SourceFiles) (a : String)
    → lookup a (nodes_from files fs) ≡ node_in files a (lookup a fs)
unfolding nodes_from node_in
lookup-nodes_from files [] a = refl
lookup-nodes_from files ((j, imports) ∷ fs) a = elim (Bool-cases (j =s= a)) [
  | inl here ↦ rw here (
      ap
        (λ name.
          some (record { parents = parents_in files name; children = children_in files imports }))
        ((eq_iff j a).0 here))
  | inr elsewhere ↦ rw elsewhere (lookup-nodes_from files fs a)
]

abbrev holds_at : (List String → Bool) → Option (List String) → Bool
holds_at q none = false
holds_at q (some imports) = q imports

elem-keep_absent :
    (q : List String → Bool) (fs : SourceFiles) (a : String)
    → elem a (keys fs) ≡ false
    → elem a (map (λ f. f.0) (keep (λ f. q f.1) fs)) ≡ false
elem-keep_absent q [] a h = refl
elem-keep_absent q ((j, imports) ∷ fs) a h = ground (arith, h, elem-keep_absent q fs a)

elem-keep-keys :
    (q : List String → Bool) (fs : SourceFiles) (a : String)
    → distinct (keys fs) ≡ true
    → elem a (map (λ f. f.0) (keep (λ f. q f.1) fs)) ≡ holds_at q (lookup a fs)
elem-keep-keys q [] a h = refl
elem-keep-keys q ((j, imports) ∷ fs) a h = elim (Bool-cases (j =s= a)) [
  | inl here ↦
      let absent : elem a (keys fs) ≡ false =
        ap (λ x. elem x (keys fs)) (sym ((eq_iff j a).0 here)) ∙ ground (arith, h) in
      ground (arith, here, elem-keep_absent q fs a absent)
  | inr elsewhere ↦
      let later : distinct (keys fs) ≡ true = ground (arith, h) in
      ground (arith, elsewhere, elem-keep-keys q fs a later)
]

lookup_present : (fs : SourceFiles) (b : String) → elem b (keys fs) ≡ true → lookup b fs ≢ none
lookup_present [] b h e = cc
lookup_present ((j, imports) ∷ fs) b h e = ground (arith, h, e, lookup_present fs b)

abbrev parents_at : Option FileNode → List String
parents_at o = elim o [ none ↦ [] | some n ↦ n.parents ]

abbrev children_below : Option FileNode → List String
children_below o = elim o [ none ↦ [] | some n ↦ n.children ]

children_at :
    (files : SourceFiles) (a b : String) (found : Option (List String))
    → holds_at (λ l. elem b (children_in files l)) found
      ≡ elem b (children_below (node_in files a found))
unfolding node_in
children_at files a b none = refl
children_at files a b (some imports) = refl

-- Of each file the graph has the files that it imports, as far as they are source files, as children; and a
-- file is a parent of another exactly if the other is its child.
pub project_nodes-dual :
    (files : SourceFiles) (a b : String)
    → distinct (keys files) ≡ true
    → elem b (keys files) ≡ true
    → elem a (parents_of (project_nodes files) b) ≡ elem b (children_of (project_nodes files) a)
unfolding project_nodes parents_in node_in
project_nodes-dual files a b one h = elim (Option-cases (lookup b files)) [
  | inl missing ↦ absurd (lookup_present files b h missing)
  | inr (imports, there) ↦
      ap (λ o. elem a (parents_at o)) (lookup-nodes_from files files b ∙ ap (node_in files b) there)
      ∙ elem-keep-keys (λ l. elem b (children_in files l)) files a one
      ∙ children_at files a b (lookup a files)
      ∙ sym (ap (λ o. elem b (children_below o)) (lookup-nodes_from files files a))
]
