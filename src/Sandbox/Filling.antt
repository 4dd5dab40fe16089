-- ===== src/Sandbox/Filling.antt =====
-- packages/core/src/sandbox/sandbox.ts: the files are put in their places at the same time, each in its own
-- steps, and moved back. Also `moveDirectoryRecursiveSync` of utils/file-utils.ts.
use isep_mutation_levels.Prelude.{
  ℕ, zero, suc, String, Bool, true, false, List, [], ◌∷◌, Option, none, some, if◌then◌else◌, insert,
  map,
}
use isep_mutation_levels.Sandbox.Files.{
  Disk, ProjectFile, has_changes, write_in_place, backup_to, write_to_sandbox,
}

-- How far `sandboxFile` is for a file: its promise is resolved or rejected at the end.
pub data Stage : Type 0 where
  not_begun backed_up fulfilled rejected : Stage

pub record Filling : Type 0 where
  pub tasks : List (Stage × ProjectFile)
  pub disk : Disk

-- What the file system answers.
abbrev pub after : Stage → Option Disk → Disk → Stage × Disk
after next (some written) d = (next, written)
after next none d = (rejected, d)

-- `sandboxFile` up to its next `await`.
unfoldable pub sandbox_file : (in_place : Bool) → Stage → ProjectFile → Disk → Stage × Disk
unfolding write_in_place backup_to write_to_sandbox
sandbox_file true not_begun f d =
    if has_changes f then after backed_up (backup_to f d) d else (fulfilled, d)
sandbox_file true backed_up f d = (fulfilled, write_in_place f d)
sandbox_file false not_begun f d = after fulfilled (write_to_sandbox f d) d
sandbox_file false backed_up f d = (fulfilled, d)
sandbox_file in_place fulfilled f d = (fulfilled, d)
sandbox_file in_place rejected f d = (rejected, d)

abbrev pub advanced : ProjectFile → List (Stage × ProjectFile) → Stage × Disk → Filling
advanced f tasks (stage, d) = record { tasks = (stage, f) ∷ tasks; disk = d }

-- The file with the number that is given takes its next step.
unfoldable pub advance : (in_place : Bool) → ℕ → List (Stage × ProjectFile) → Disk → Filling
unfolding sandbox_file
advance in_place k [] d = record { tasks = []; disk = d }
advance in_place zero ((stage, f) ∷ tasks) d = advanced f tasks (sandbox_file in_place stage f d)
advance in_place (suc k) (task ∷ tasks) d =
    let rest = advance in_place k tasks d in record { tasks = task ∷ rest.tasks; disk = rest.disk }

-- `fillSandbox`, with the order in which the steps are taken, to its end or to an exit before it.
unfoldable pub fill_sandbox : (in_place : Bool) → (order : List ℕ) → Filling → Filling
unfolding advance
fill_sandbox in_place [] s = s
fill_sandbox in_place (k ∷ order) s =
    fill_sandbox in_place order (advance in_place k s.tasks s.disk)

abbrev pub begin : List ProjectFile → Disk → Filling
begin files d = record { tasks = map (λ f. (not_begun, f)) files; disk = d }

abbrev pub move_files : (from to : List (String × String)) → List (String × String)
move_files [] to = to
move_files ((name, content) ∷ from) to = insert name content (move_files from to)

-- `dispose`.
unfoldable pub dispose_sandbox : (in_place : Bool) → Disk → Disk
dispose_sandbox in_place d =
    if in_place then record { working = move_files d.temporary d.working; temporary = [] } else d
