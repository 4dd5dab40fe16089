-- ===== src/Executor/Facade.antt =====
-- packages/core/src/checker/checker-facade.ts: what the program accepts of a checker's answers. `none`
-- is an error.
use isep_mutation_levels.Prelude.{
  String, List, [], ◌∷◌, Option, none, some, length, add, lookup, insert, ltb, if◌then◌else◌,
}
use isep_mutation_levels.Executor.Report.{CheckResult}
use isep_mutation_levels.Executor.Execute.{RunPlan}

-- `toMap`.
unfoldable pub to_map : List RunPlan → List (String × RunPlan) → List (String × RunPlan)
to_map [] acc = acc
to_map (r ∷ rs) acc = to_map rs (insert r.0.id r acc)

-- The plan for each id that the checker answers for; an id that was not asked for is an error.
unfoldable pub plans_of :
    List (String × RunPlan) → List (String × CheckResult) → Option (List (RunPlan × CheckResult))
plans_of by_id [] = some []
plans_of by_id ((id, answer) ∷ answers) = elim (lookup id by_id) [
  | none ↦ none
  | some plan ↦ elim (plans_of by_id answers) [
    | none ↦ none
    | some results ↦ some ((plan, answer) ∷ results)
  ]
]

-- `check`, the entries of the object that the inner checker answers with being given.
unfoldable pub facade_check :
    (inner : List (String × CheckResult)) → List RunPlan → Option (List (RunPlan × CheckResult))
unfolding to_map plans_of
facade_check inner plans = elim (plans_of (to_map plans []) inner) [
  | none ↦ none
  | some results ↦ if ltb (length results) (length plans) then none else some results
]

unfoldable pub group_of : List (String × RunPlan) → List String → Option (List RunPlan)
group_of by_id [] = some []
group_of by_id (id ∷ ids) = elim (lookup id by_id) [
  | none ↦ none
  | some plan ↦ elim (group_of by_id ids) [ none ↦ none | some plans ↦ some (plan ∷ plans) ]
]

unfoldable pub groups_of :
    List (String × RunPlan) → List (List String) → Option (List (List RunPlan))
unfolding group_of
groups_of by_id [] = some []
groups_of by_id (ids ∷ groups) = elim (group_of by_id ids) [
  | none ↦ none
  | some plans ↦ elim (groups_of by_id groups) [ none ↦ none | some rest ↦ some (plans ∷ rest) ]
]

abbrev pub all_ids : List String → List String → List String
all_ids [] acc = acc
all_ids (id ∷ ids) acc = all_ids ids (add id acc)

abbrev pub grouped_ids : List (List String) → List String → List String
grouped_ids [] acc = acc
grouped_ids (ids ∷ groups) acc = grouped_ids groups (all_ids ids acc)

-- `group`.
unfoldable pub facade_group :
    (inner : List (List String)) → List RunPlan → Option (List (List RunPlan))
unfolding to_map groups_of
facade_group inner plans = elim (groups_of (to_map plans []) inner) [
  | none ↦ none
  | some groups ↦ if ltb (length (grouped_ids inner [])) (length plans) then none else some groups
]
