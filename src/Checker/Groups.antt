-- ===== src/Checker/Groups.antt =====
-- create-groups.ts: `createGroups`.
use isep_mutation_levels.Prelude.{
  ℕ, zero, suc, String, Bool, true, false, not, ◌&&◌, List, [], ◌∷◌, map, Option, none, some,
  length, any, all, elem, add, lookup, if◌then◌else◌,
}
use isep_mutation_levels.Api.{Mutant}
use isep_mutation_levels.Checker.Graph.{
  Nodes, to_posix_file_name, get_all_parent_references_including_self,
}

unfoldable pub node_of : Mutant → String
unfolding to_posix_file_name
node_of m = to_posix_file_name m.file_name

unfoldable pub add_range_of_nodes_to_set : List String → List String → List String
add_range_of_nodes_to_set nodes [] = nodes
add_range_of_nodes_to_set nodes (x ∷ xs) = add_range_of_nodes_to_set (add x nodes) xs

unfoldable pub parents_have_overlap_with :
    (above : List String) → (group_nodes : List String) → Bool
parents_have_overlap_with above group_nodes = any (λ parent. elem parent group_nodes) above

module _ (above : String → List String) where
  -- Whether a mutant joins the group.
  unfoldable pub fits : (group_nodes nodes_to_ignore : List String) → Mutant → Bool
  unfolding node_of parents_have_overlap_with
  fits group_nodes nodes_to_ignore m =
      not (elem (node_of m) nodes_to_ignore)
      && not (parents_have_overlap_with (above (node_of m)) group_nodes)

  -- One pass over the mutants that are left: the group, and those that stay.
  unfoldable pub create_group :
      (group_nodes nodes_to_ignore : List String) → List Mutant → List Mutant × List Mutant
  unfolding fits add_range_of_nodes_to_set
  create_group group_nodes nodes_to_ignore [] = ([], [])
  create_group group_nodes nodes_to_ignore (m ∷ ms) =
      let joins = fits group_nodes nodes_to_ignore m in
      let (group, left) =
        create_group (if joins then add (node_of m) group_nodes else group_nodes)
          (if joins
            then add_range_of_nodes_to_set nodes_to_ignore (above (node_of m))
            else nodes_to_ignore)
          ms in
      if joins then (m ∷ group, left) else (group, m ∷ left)

  -- The loop while mutants are left; each pass takes one at least.
  unfoldable pub create_groups_from : (fuel : ℕ) → List Mutant → List (List Mutant)
  unfolding create_group
  create_groups_from zero mutants = []
  create_groups_from (suc fuel) [] = []
  create_groups_from (suc fuel) (m ∷ ms) =
      let (group, left) = create_group [] [] (m ∷ ms) in group ∷ create_groups_from fuel left

abbrev pub is_in_graph : Nodes → Mutant → Bool
is_in_graph nodes m = elim (lookup (node_of m) nodes) [ none ↦ false | some _ ↦ true ]

abbrev pub mutant_groups : Nodes → List Mutant → List (List Mutant)
mutant_groups nodes mutants =
    create_groups_from (get_all_parent_references_including_self nodes) (length mutants) mutants

-- `none` is the error for a mutant that is in no node. The first pass looks all nodes up.
unfoldable pub create_groups : List Mutant → Nodes → Option (List (List String))
unfolding create_groups_from
create_groups mutants nodes =
    if all (is_in_graph nodes) mutants
    then some (map (map (λ m. m.id)) (mutant_groups nodes mutants))
    else none
