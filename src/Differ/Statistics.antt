-- ===== src/Differ/Statistics.antt =====
-- diff-statistics-collector.ts: how many mutants or tests of each file a run adds and removes.
use isep_mutation_levels.Prelude.{
  ℕ, ◌+◌, String, List, [], lookup, insert, ◌==◌, or_else, if◌then◌else◌,
}

pub record DiffChanges : Type 0 where
  pub added : ℕ
  pub removed : ℕ

pub data DiffChange : Type 0 where
  addition removal : DiffChange

pub record Statistics : Type 0 where
  pub changes_by_file : List (String × DiffChanges)
  pub total : DiffChanges

abbrev pub no_changes : DiffChanges
no_changes = record { added = 0; removed = 0 }

abbrev pub no_statistics : Statistics
no_statistics = record { changes_by_file = []; total = no_changes }

abbrev pub add_changes : DiffChange → ℕ → DiffChanges → DiffChanges
add_changes addition amount c = record c { added = c.added + amount }
add_changes removal amount c = record c { removed = c.removed + amount }

unfoldable pub count : String → DiffChange → (amount : ℕ) → Statistics → Statistics
count file change amount s =
    if amount == 0
    then s
    else let changes = or_else (lookup file s.changes_by_file) no_changes in
      record {
        changes_by_file = insert file (add_changes change amount changes) s.changes_by_file;
        total = add_changes change amount s.total;
      }
