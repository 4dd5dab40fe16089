-- ===== src/Checker/Files.antt =====
-- typescript-checker/src/fs and typescript-compiler.ts: the files in memory, and what `check` of the compiler
-- does to them.
use isep_mutation_levels.Prelude.{
  ℕ, String, Bool, true, false, List, [], ◌∷◌, ◌++◌, Option, none, some, ◌=s=◌, if◌then◌else◌, take,
  drop, and_then,
}
use isep_mutation_levels.Api.{Mutant}
use isep_mutation_levels.Differ.Positions.{Text, Location}
use isep_mutation_levels.Instrument.Collector.{codes}
use isep_mutation_levels.Checker.Groups.{node_of}

-- `ScriptFile`. `source_file` is the text that the cached syntax tree was made from. A watcher is only
-- looked at.
pub record ScriptFile : Type 0 where
  pub content : Text
  pub original_content : Text
  pub source_file : Option Text
  pub is_watched : Bool

unfoldable pub script_file : Text → ScriptFile
script_file content = record {
  content = content;
  original_content = content;
  source_file = none;
  is_watched = false;
}

unfoldable pub write : Text → ScriptFile → ScriptFile
write content file = record file { content = content }

-- The text whose offsets count: that of the syntax tree, which is made when it is missing.
abbrev pub source_of : ScriptFile → Text
source_of file = elim file.source_file [ none ↦ file.content | some source ↦ source ]

-- `none` is the error about a file without a watcher.
unfoldable pub reset_mutant : ScriptFile → Option ScriptFile
reset_mutant file =
    if file.is_watched then some (record file { content = file.original_content }) else none

-- `HybridFileSystem`: what `getFile` answers for a name, with `none` for a file that does not exist.
abbrev pub FileSystem : Type 0
FileSystem = String → Option ScriptFile

abbrev pub set_file : String → ScriptFile → FileSystem → FileSystem
set_file name file fs other = if name =s= other then some file else fs other

-- `watchFile`.
unfoldable pub watch_file : (name : String) → FileSystem → FileSystem
watch_file name fs = elim (fs name) [
  | none ↦ fs
  | some file ↦ set_file name (record file { is_watched = true }) fs
]

pub record Compiler : Type 0 where
  pub fs : FileSystem
  pub last_mutants : List Mutant

-- Change a file: `none` if there is no such file, or the change fails.
unfoldable pub change_file :
    (ScriptFile → Option ScriptFile) → (name : String) → FileSystem → Option FileSystem
change_file f name fs = and_then (and_then (fs name) f) (λ file. some (set_file name file fs))

-- What has been done when a piece of code ends: all of it, or what came before an exception.
abbrev pub Ended : Type 0 → Type 0
Ended A = Bool × A

-- An exception ends the loop, and the files before it stay changed.
unfoldable pub change_all :
    (Mutant → ScriptFile → Option ScriptFile) → List Mutant → FileSystem → Ended FileSystem
unfolding change_file
change_all f [] fs = (true, fs)
change_all f (m ∷ ms) fs = elim (change_file (f m) (node_of m) fs) [
  | none ↦ (false, fs)
  | some fs' ↦ change_all f ms fs'
]

unfoldable pub reset_all : List Mutant → FileSystem → Ended FileSystem
unfolding reset_mutant change_all
reset_all = change_all (λ _. reset_mutant)

abbrev pub and_also : Ended FileSystem → (FileSystem → Ended FileSystem) → Ended FileSystem
and_also (true, fs) f = f fs
and_also (false, fs) f = (false, fs)

-- What TypeScript says of where a location starts and ends in a text.
module _ (offsets_of : Text → Location → ℕ × ℕ) where
  -- The text with the code at the offsets replaced.
  abbrev pub replaced : (original : Text) → (offsets : ℕ × ℕ) → (replacement : Text) → Text
  replaced original offsets replacement =
      take (offsets.0) original ++ (replacement ++ drop (offsets.1) original)

  abbrev pub mutated : Mutant → ScriptFile → ScriptFile
  mutated m file = record file {
    source_file = some (source_of file);
    content =
        replaced file.original_content (offsets_of (source_of file) m.location)
          (codes m.replacement);
  }

  unfoldable pub mutate : Mutant → ScriptFile → Option ScriptFile
  mutate m file = if file.is_watched then some (mutated m file) else none

  unfoldable pub mutate_all : List Mutant → FileSystem → Ended FileSystem
  unfolding mutate change_all
  mutate_all = change_all mutate

  -- The files that the compiler is to look at; the wait for it and its diagnostics follow. An exception in
  -- one of the loops leaves the mutants of the check before as the last ones.
  unfoldable pub compile_files : List Mutant → Compiler → Ended Compiler
  unfolding reset_all mutate_all
  compile_files mutants c =
      let (through, fs) = and_also (reset_all c.last_mutants c.fs) (mutate_all mutants) in
      (through, record { fs = fs; last_mutants = if through then mutants else c.last_mutants })
