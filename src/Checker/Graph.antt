-- ===== src/Checker/Graph.antt =====
-- ts-file-node.ts: the files of a project and their references. A file node is known by its name,
-- and an object's parents and children by theirs.
use isep_mutation_levels.Prelude.{
  ℕ, zero, suc, String, true, false, List, [], ◌∷◌, none, some, length, elem, add, lookup,
}
use isep_mutation_levels.Differ.Report.{normalize_file_name}

pub record FileNode : Type 0 where
  pub parents : List String
  pub children : List String

abbrev pub Nodes : Type 0
Nodes = List (String × FileNode)

abbrev pub parents_of : Nodes → String → List String
parents_of nodes name = elim (lookup name nodes) [ none ↦ [] | some n ↦ n.parents ]

abbrev pub children_of : Nodes → String → List String
children_of nodes name = elim (lookup name nodes) [ none ↦ [] | some n ↦ n.children ]

-- `forEach` over the references of a node, with the set that it fills.
abbrev pub fold : (String → List String → List String) → List String → List String → List String
fold visit [] visited = visited
fold visit (x ∷ xs) visited = fold visit xs (visit x visited)

-- Each call below another one has a node more in the set, so that the number of nodes is fuel
-- enough.
unfoldable pub collect_references :
    (next : String → List String) → (fuel : ℕ) → String → List String → List String
collect_references next zero node visited = visited
collect_references next (suc fuel) node visited =
    fold
      (λ x seen. elim (elem x seen) [ true ↦ seen | false ↦ collect_references next fuel x seen ])
      (next node) (add node visited)

unfoldable pub get_all_parent_references_including_self : Nodes → String → List String
unfolding collect_references
get_all_parent_references_including_self nodes name =
    collect_references (parents_of nodes) (length nodes) name []

unfoldable pub get_all_child_references_including_self : Nodes → String → List String
unfolding collect_references
get_all_child_references_including_self nodes name =
    collect_references (children_of nodes) (length nodes) name []

-- `toPosixFileName`.
unfoldable pub to_posix_file_name : String → String
unfolding normalize_file_name
to_posix_file_name name = normalize_file_name name
