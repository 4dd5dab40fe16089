-- ===== src/Checker/Samples.antt =====
-- The project of the description of `createGroups`: A imports B and C, C imports D, and each file has
-- a mutant.
use isep_mutation_levels.Prelude.{
  ◌≡◌, refl, ◌↔◌, String, true, List, [], ◌∷◌, none, some, all, elem,
}
use isep_mutation_levels.Api.{Mutant}
use isep_mutation_levels.Differ.Positions.{at}
use isep_mutation_levels.Prelude.Int.{pos}
use isep_mutation_levels.Checker.Graph.{
  FileNode, Nodes, parents_of, get_all_parent_references_including_self,
}
use isep_mutation_levels.Checker.Groups.{node_of, create_groups, mutant_groups}
use isep_mutation_levels.Checker.Closure.{Reach}
use isep_mutation_levels.Checker.References.{get_all_parent_references_including_self_iff}
use isep_mutation_levels.Checker.Partition.{all_independent, mutant_groups-independent}

abbrev pub node : List String → List String → FileNode
node parents children = record { parents = parents; children = children }

abbrev pub project : Nodes
project =
    ("A.ts", node [] ("B.ts" ∷ "C.ts" ∷ []))
    ∷ ("B.ts", node ("A.ts" ∷ []) [])
    ∷ ("C.ts", node ("A.ts" ∷ []) ("D.ts" ∷ []))
    ∷ ("D.ts", node ("C.ts" ∷ []) [])
    ∷ []

abbrev pub mutant_in : String → String → Mutant
mutant_in id file = record {
  id = id;
  file_name = file;
  location = record {
    start = at (pos 0) (pos 0);
    end = record { line = some (pos 0); column = pos 1 };
  };
  mutator_name = "BooleanLiteral";
  replacement = "false";
  status = none;
  status_reason = none;
  covered_by = none;
  killed_by = none;
  tests_completed = none;
  static = none;
}

abbrev pub mutants : List Mutant
mutants =
    mutant_in "a" "A.ts" ∷ mutant_in "b" "B.ts" ∷ mutant_in "c" "C.ts" ∷ mutant_in "d" "D.ts" ∷ []

-- B and C are in one group; D, which C imports, is in another one than C.
groups : create_groups mutants project ≡ some (("a" ∷ []) ∷ ("b" ∷ "c" ∷ []) ∷ ("d" ∷ []) ∷ [])
unfolding create_groups node_of get_all_parent_references_including_self
groups = refl

mutant_groups-independent_example :
    all
      (all_independent (get_all_parent_references_including_self project))
      (mutant_groups project mutants)
    ≡ true
mutant_groups-independent_example = mutant_groups-independent project mutants

get_all_parent_references_including_self_iff_example :
    (elem "A.ts" (get_all_parent_references_including_self project "D.ts") ≡ true)
    ↔ Reach (parents_of project) "D.ts" "A.ts"
get_all_parent_references_including_self_iff_example =
    get_all_parent_references_including_self_iff project "D.ts" "A.ts" refl refl
