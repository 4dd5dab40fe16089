-- ===== src/Checker/Watched.antt =====
-- typescript-checker/src/fs and typescript-compiler.ts: which files can be changed, and that a check leaves
-- no mutant behind.
use isep_mutation_levels.Prelude.{
  ℕ, ◌≡◌, ap, sym, ◌∙◌, refl, String, Bool, true, false, List, [], ◌∷◌, Option, none, some, inl,
  inr, all, ◌=s=◌, if◌then◌else◌, Bool-cases, Option-cases, arith, eq_iff, and_then,
}
use isep_mutation_levels.Api.{Mutant}
use isep_mutation_levels.Differ.Positions.{Text, Location}
use isep_mutation_levels.Checker.Groups.{node_of}
use isep_mutation_levels.Checker.Files.{
  ScriptFile, FileSystem, Compiler, set_file, change_file, change_all, reset_mutant, mutate,
  mutated, reset_all, mutate_all, compile_files,
}
use isep_mutation_levels.Checker.Rewritten.{settled}
use isep_mutation_levels.Checker.Restored.{AllKept, compile_files_restores}

abbrev is_there : Option ScriptFile → Bool
is_there none = false
is_there (some file) = true

abbrev is_watched : Option ScriptFile → Bool
is_watched none = false
is_watched (some file) = file.is_watched

-- The files of the mutants are there, with a watcher.
abbrev pub all_watched : FileSystem → List Mutant → Bool
all_watched fs ms = all (λ m. is_watched (fs (node_of m))) ms

-- The same files with the same watchers.
record Keeps (fs fs' : FileSystem) : Type 0 where
  pub watched : (name : String) → is_watched (fs' name) ≡ is_watched (fs name)
  pub there : (name : String) → is_there (fs' name) ≡ is_there (fs name)

Keeps-trans : (a b c : FileSystem) → Keeps a b → Keeps b c → Keeps a c
Keeps-trans a b c k l = record {
  watched = λ name. l.watched name ∙ k.watched name;
  there = λ name. l.there name ∙ k.there name;
}

all_watched-Keeps :
    (fs fs' : FileSystem) (ms : List Mutant) → Keeps fs fs' → all_watched fs' ms ≡ all_watched fs ms
all_watched-Keeps fs fs' [] k = refl
all_watched-Keeps fs fs' (m ∷ ms) k =
    ground (arith, k.watched (node_of m), all_watched-Keeps fs fs' ms k)

-- A change that does not fail with a watcher, and leaves the watcher.
abbrev CanChange : (ScriptFile → Option ScriptFile) → Type 0
CanChange f =
    (file : ScriptFile)
    → file.is_watched ≡ true
    → (g : ScriptFile) × (f file ≡ some g) × (g.is_watched ≡ true)

set_file-Keeps :
    (n : String) (g file : ScriptFile) (fs : FileSystem)
    → fs n ≡ some file
    → file.is_watched ≡ true
    → g.is_watched ≡ true
    → Keeps fs (set_file n g fs)
set_file-Keeps n g file fs found on on' =
    let here =
      λ (name : String) (e : (n =s= name) ≡ true). (ap fs (sym ((eq_iff n name).0 e)) ∙ found) in
    record {
      watched = λ name. elim (Bool-cases (n =s= name)) [
        | inl e ↦ rw e (on' ∙ sym (ap is_watched (here name e) ∙ on))
        | inr e ↦ rw e refl
      ];
      there = λ name. elim (Bool-cases (n =s= name)) [
        | inl e ↦ rw e (sym (ap is_there (here name e)))
        | inr e ↦ rw e refl
      ];
    }

change_file-Keeps :
    (f : ScriptFile → Option ScriptFile) (n : String) (fs : FileSystem)
    → CanChange f
    → is_watched (fs n) ≡ true
    → (fs' : FileSystem) × (change_file f n fs ≡ some fs') × Keeps fs fs'
unfolding change_file
change_file-Keeps f n fs can h = elim (Option-cases (fs n)) [
  | inl missing ↦ absurd (ground (arith, h, missing))
  | inr (file, found) ↦
      let on : file.is_watched ≡ true = sym (ap is_watched found) ∙ h in
      let (g, changed, on') = can file on in
      (
        set_file n g fs,
        ap (λ o. and_then (and_then o f) (λ x. some (set_file n x fs))) found
            ∙ ap (λ o. and_then o (λ x. some (set_file n x fs))) changed,
        set_file-Keeps n g file fs found on on',
      )
]

if_on : (b : Bool) (x : ScriptFile) → b ≡ true → (if b then some x else none) ≡ some x
if_on true x h = refl
if_on false x h = cc

reset_mutant-CanChange : CanChange reset_mutant
unfolding reset_mutant
reset_mutant-CanChange file on =
    let g : ScriptFile = record file { content = file.original_content } in
    (g, if_on file.is_watched g on, on)

change_all-Keeps :
    (f : Mutant → ScriptFile → Option ScriptFile)
    → ((m : Mutant) → CanChange (f m))
    → (ms : List Mutant) (fs : FileSystem) → all_watched fs ms ≡ true
    → (fs' : FileSystem) × (change_all f ms fs ≡ (true, fs')) × Keeps fs fs'
unfolding change_all
change_all-Keeps f can [] fs h = (fs, refl, record { watched = λ name. refl; there = λ name. refl })
change_all-Keeps f can (m ∷ ms) fs h =
    let (fs1, first, k) = change_file-Keeps (f m) (node_of m) fs (can m) (ground (arith, h)) in
    let (fs2, rest, l) =
      change_all-Keeps f can ms fs1 (all_watched-Keeps fs fs1 ms k ∙ ground (arith, h)) in
    (fs2, rw (first, change_all) rest, Keeps-trans fs fs1 fs2 k l)

module _ (offsets_of : Text → Location → ℕ × ℕ) where
  mutate-CanChange : (m : Mutant) → CanChange (mutate offsets_of m)
  unfolding mutate
  mutate-CanChange m file on =
      (mutated offsets_of m file, if_on file.is_watched (mutated offsets_of m file) on, on)

  compile_files-Keeps :
      (mutants : List Mutant) (c : Compiler)
      → all_watched c.fs c.last_mutants ≡ true
      → all_watched c.fs mutants ≡ true
      → (fs : FileSystem) × (compile_files offsets_of mutants c
          ≡ (true, record { fs = fs; last_mutants = mutants }))
        × Keeps c.fs fs
  unfolding compile_files reset_all mutate_all
  compile_files-Keeps mutants c h g =
      let (fs1, resets, k) =
        change_all-Keeps (λ _. reset_mutant) (λ _. reset_mutant-CanChange) c.last_mutants c.fs h in
      let (fs2, mutations, l) =
        change_all-Keeps (mutate offsets_of) mutate-CanChange mutants fs1
          (all_watched-Keeps c.fs fs1 mutants k ∙ g) in
      (fs2, rw (resets, mutations) refl, Keeps-trans c.fs fs1 fs2 k l)

abbrev pub content_of : Option ScriptFile → Option Text
content_of none = none
content_of (some file) = some file.content

abbrev pub original_text_of : Option ScriptFile → Option Text
original_text_of none = none
original_text_of (some file) = some file.original_content

same_text :
    (o before : Option ScriptFile)
    → is_there o ≡ is_there before
    → ((file : ScriptFile)
        → o ≡ some file
        → (b : ScriptFile) × (before ≡ some b) × (file.content ≡ b.original_content))
    → content_of o ≡ original_text_of before
same_text none none there h = refl
same_text none (some b) there h = cc
same_text (some file) before there h =
    let (b, found, same) = h file refl in ap some same ∙ sym (ap original_text_of found)

-- Let every file be as a check leaves it: with its original text, if no mutant of the last check is in
-- it, and with offsets that are those of the original text. So no file has been written since, and
-- no check has ended with an exception before it had changed all files. If the mutants of the last check and
-- those given are in files that are there with a watcher, a check of the mutants given and one of no
-- mutants behind it end with no exception, and then every file has the text that it had on the disk.
pub compile_files-back :
    (offsets_of : Text → Location → ℕ × ℕ) (mutants : List Mutant) (c : Compiler)
    → AllKept c
    → all_watched c.fs c.last_mutants ≡ true
    → all_watched c.fs mutants ≡ true
    → (c' c'' : Compiler) × (compile_files offsets_of mutants c ≡ (true, c'))
      × (compile_files offsets_of [] c' ≡ (true, c''))
      × ((name : String) → content_of (c''.fs name) ≡ original_text_of (c.fs name))
compile_files-back offsets_of mutants c kept h g =
    let (fs1, done, k) = compile_files-Keeps offsets_of mutants c h g in
    let c' : Compiler = record { fs = fs1; last_mutants = mutants } in
    let (fs2, undone, l) =
      compile_files-Keeps offsets_of [] c' (all_watched-Keeps c.fs fs1 mutants k ∙ g) refl in
    let c'' : Compiler = record { fs = fs2; last_mutants = [] } in
    (
      c',
      c'',
      done,
      undone,
      λ name. same_text (fs2 name) (c.fs name) (l.there name ∙ k.there name) λ file found.
          compile_files_restores offsets_of mutants c c' c'' kept (ap settled done)
            (ap settled undone) name file found,
    )
