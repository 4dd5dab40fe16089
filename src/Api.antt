-- ===== src/Api.antt =====
-- packages/api/src/core/mutant.ts: a mutant and its status, which the instrumenter, the incremental
-- differ and the planner share.
use isep_mutation_levels.Prelude.{ℕ, String, Bool, List, Option}
use isep_mutation_levels.Differ.Positions.{Location}

-- `MutantStatus` of the report schema.
pub data MutantStatus : Type 0 where
  killed survived no_coverage compile_error runtime_error timeout ignored pending : MutantStatus

pub record Mutant : Type 0 where
  pub id : String
  pub file_name : String
  pub location : Location
  pub mutator_name : String
  pub replacement : String
  pub status : Option MutantStatus
  pub status_reason : Option String
  pub covered_by : Option (List String)
  pub killed_by : Option (List String)
  pub tests_completed : Option ℕ
  pub static : Option Bool
