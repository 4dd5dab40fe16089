-- ===== src/Sandbox/Samples.antt =====
-- packages/core/src/sandbox and fs: three files, of which two are mutated.
use isep_mutation_levels.Prelude.{ℕ, ◌≡◌, refl, String, true, List, [], ◌∷◌, some, lookup}
use isep_mutation_levels.Sandbox.Files.{Disk, ProjectFile, new_file}
use isep_mutation_levels.Sandbox.Filling.{fill_sandbox, begin, dispose_sandbox}
use isep_mutation_levels.Sandbox.Exit.{dispose_sandbox-restores}
use isep_mutation_levels.Sandbox.Same.{
  Use, reads, reads_original, sets, use_file, last_content, text_in_place, text_in_sandbox,
  use_file-text,
}

abbrev base : List (String × String)
base = ("a.ts", "a") ∷ ("b.ts", "b") ∷ ("c.ts", "c") ∷ []

abbrev project : Disk
project = record { working = base; temporary = [] }

abbrev mutated : String → String → String → ProjectFile
mutated name original current = record {
  name = name;
  original_content = some original;
  current_content = some current;
}

abbrev files : List ProjectFile
files =
    mutated "a.ts" "a" "a with mutants" ∷ mutated "b.ts" "b" "b with mutants" ∷ new_file "c.ts" ∷ []

-- The exit comes when the first file is written and the second is backed up.
abbrev order : List ℕ
order = 0 ∷ 1 ∷ 2 ∷ 0 ∷ []

written_half :
    (fill_sandbox true order (begin files project)).disk.working
    ≡ ("a.ts", "a with mutants") ∷ ("b.ts", "b") ∷ ("c.ts", "c") ∷ []
unfolding fill_sandbox
written_half = refl

dispose_sandbox-restores_example :
    ((dispose_sandbox true (fill_sandbox true order (begin files project)).disk).temporary ≡ [])
    × ((n : String)
        → lookup n
            (dispose_sandbox true (fill_sandbox true order (begin files project)).disk).working
          ≡ lookup n base)
dispose_sandbox-restores_example =
    dispose_sandbox-restores base files order ((refl, (refl, tt)), ((refl, tt), (tt, tt)))
      ((λ c e. e), ((λ c e. e), ((λ c e. absurd cc), tt)))

abbrev uses : List Use
uses = reads ∷ sets "b with mutants" ∷ reads_original ∷ reads ∷ []

use_file-text_example :
    (f : ProjectFile) × (use_file uses (new_file "b.ts") project ≡ some f)
    × (text_in_place f project ≡ some (last_content uses "b"))
    × (text_in_sandbox f project ≡ some (last_content uses "b"))
use_file-text_example = use_file-text uses "b.ts" "b" project refl
