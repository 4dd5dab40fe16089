-- ===== src/Sandbox/Files.antt =====
-- packages/core/src/fs/project-file.ts: a file of the project in memory and on the disk. Names are
-- relative to the working directory. An error of the file system is `none`.
use isep_mutation_levels.Prelude.{
  String, Bool, true, false, not, List, Option, none, some, ◌=s=◌, if◌then◌else◌, lookup, insert,
  and_then, or_else,
}

-- The project's directory, and the sandbox or backup directory.
pub record Disk : Type 0 where
  pub working : List (String × String)
  pub temporary : List (String × String)

pub record ProjectFile : Type 0 where
  pub name : String
  pub current_content : Option String
  pub original_content : Option String

abbrev pub is_none {ℓ} : {A : Type ℓ} → Option A → Bool
is_none none = true
is_none (some a) = false

abbrev pub is_same_text : Option String → Option String → Bool
is_same_text none none = true
is_same_text (some a) (some b) = a =s= b
is_same_text _ _ = false

-- The constructor.
abbrev pub new_file : (name : String) → ProjectFile
new_file name = record { name = name; current_content = none; original_content = none }

abbrev pub has_changes : ProjectFile → Bool
has_changes f = not (is_same_text f.current_content f.original_content)

unfoldable pub set_content : String → ProjectFile → ProjectFile
set_content content f = record f { current_content = some content }

-- What `readOriginal` does with the content of the file.
abbrev pub remember : String → ProjectFile → ProjectFile
remember content f = record f {
  original_content = some content;
  current_content = some (or_else f.current_content content);
}

abbrev pub original_of : Option String → ProjectFile → Disk → Option (String × ProjectFile)
original_of (some content) f d = some (content, f)
original_of none f d =
    and_then (lookup f.name d.working) (λ content. some (content, remember content f))

unfoldable pub read_original : ProjectFile → Disk → Option (String × ProjectFile)
read_original f d = original_of f.original_content f d

abbrev pub current_of :
    Option String → ProjectFile → Option (String × ProjectFile) → Option (String × ProjectFile)
current_of (some content) f read = some (content, f)
current_of none f read = and_then read (λ r. some (r.0, record r.1 { current_content = some r.0 }))

unfoldable pub read_content : ProjectFile → Disk → Option (String × ProjectFile)
unfolding read_original
read_content f d = current_of f.current_content f (read_original f d)

abbrev pub put : Option String → (has_changes : Bool) → (name : String) → Disk → Disk
put none changed name d = d
put (some content) changed name d =
    if changed then record d { working = insert name content d.working } else d

unfoldable pub write_in_place : ProjectFile → Disk → Disk
write_in_place f d = put f.current_content (has_changes f) f.name d

-- `copyFile` to the temporary directory, or `writeFile` for a content in memory.
abbrev pub copy_file : (name : String) → Disk → Option Disk
copy_file name d =
    and_then (lookup name d.working)
      (λ content. some (record d { temporary = insert name content d.temporary }))

abbrev pub copy_content : Option String → (name : String) → Disk → Option Disk
copy_content none name d = copy_file name d
copy_content (some content) name d = some (record d { temporary = insert name content d.temporary })

unfoldable pub backup_to : ProjectFile → Disk → Option Disk
backup_to f d = copy_content f.original_content f.name d

unfoldable pub write_to_sandbox : ProjectFile → Disk → Option Disk
write_to_sandbox f d = copy_content f.current_content f.name d
