-- ===== src/Sandbox/Same.antt =====
-- packages/core/src/fs/project-file.ts with sandbox/sandbox.ts: in place and in a sandbox directory the tests
-- see the same text of a file.
use isep_mutation_levels.Prelude.{
  ◌≡◌, ◌∙◌, sym, ap, refl, String, Bool, true, false, not, List, [], ◌∷◌, Option, none, some,
  if◌then◌else◌, arith, eq_iff, eq_refl, lookup, insert, lookup-insert, and_then, or_else,
}
use isep_mutation_levels.Sandbox.Files.{
  Disk, ProjectFile, new_file, is_same_text, has_changes, set_content, remember, read_original,
  read_content, original_of, current_of, put, copy_content, backup_to, write_to_sandbox,
  write_in_place,
}
use isep_mutation_levels.Sandbox.Filling.{not_begun, backed_up, fulfilled, after, sandbox_file}

-- What the instrumenter, the preprocessors and the report do with a file.
pub data Use : Type 0 where
  reads reads_original : Use
  sets : (content : String) → Use

unfoldable pub use_file : List Use → ProjectFile → Disk → Option ProjectFile
unfolding set_content read_original read_content
use_file [] f d = some f
use_file (reads ∷ uses) f d = and_then (read_content f d) (λ r. use_file uses r.1 d)
use_file (reads_original ∷ uses) f d = and_then (read_original f d) (λ r. use_file uses r.1 d)
use_file (sets content ∷ uses) f d = use_file uses (set_content content f) d

-- The content that was set last.
abbrev pub last_content : List Use → String → String
last_content [] text = text
last_content (sets content ∷ uses) text = last_content uses content
last_content (reads ∷ uses) text = last_content uses text
last_content (reads_original ∷ uses) text = last_content uses text

-- What the tests see at the end, in place and in a sandbox directory.
unfoldable pub text_in_place : ProjectFile → Disk → Option String
unfolding sandbox_file
text_in_place f d =
    let begun = sandbox_file true not_begun f d in
    lookup f.name (sandbox_file true begun.0 f begun.1).1.working

unfoldable pub text_in_sandbox : ProjectFile → Disk → Option String
unfolding sandbox_file
text_in_sandbox f d = lookup f.name (sandbox_file false not_begun f d).1.temporary

-- A file that has been read or set, with the text that the tests will see.
record HasText (name : String) (d : Disk) (original text : String) (f : ProjectFile) : Type 0 where
  pub named : f.name ≡ name
  pub text_is : or_else f.current_content original ≡ text
  pub fresh : (c : String) → f.original_content ≡ some c → c ≡ original

remember-HasText :
    (name original text : String) (d : Disk) (f : ProjectFile)
    → HasText name d original text f
    → HasText name d original text (remember original f)
remember-HasText name original text d f h = record {
  named = h.named;
  text_is = h.text_is;
  fresh = λ c e. cc;
}

original_of-HasText :
    (read : Option String) (name original text : String) (d : Disk) (f : ProjectFile)
    → f.original_content ≡ read
    → lookup name d.working ≡ some original
    → HasText name d original text f
    → (g : ProjectFile) × (original_of read f d ≡ some (original, g))
      × HasText name d original text g
original_of-HasText (some c) name original text d f e there h =
    (f, ap (λ x. some (x, f)) (h.fresh c e), h)
original_of-HasText none name original text d f e there h = (
  remember original f,
  ap (λ o. and_then o (λ content. some (content, remember content f)))
      (ap (λ n. lookup n d.working) h.named ∙ there),
  remember-HasText name original text d f h,
)

read_original-HasText :
    (name original text : String) (d : Disk) (f : ProjectFile)
    → lookup name d.working ≡ some original
    → HasText name d original text f
    → (g : ProjectFile) × (read_original f d ≡ some (original, g)) × HasText name d original text g
unfolding read_original
read_original-HasText name original text d f there h =
    original_of-HasText f.original_content name original text d f refl there h

current_of-HasText :
    (current : Option String) (name original text : String) (d : Disk) (f : ProjectFile)
    → f.current_content ≡ current
    → lookup name d.working ≡ some original
    → HasText name d original text f
    → (g : ProjectFile) × (current_of current f (read_original f d) ≡ some (text, g))
      × HasText name d original text g
current_of-HasText (some c) name original text d f e there h =
    (f, ap (λ x. some (x, f)) (sym (ap (λ o. or_else o original) e) ∙ h.text_is), h)
current_of-HasText none name original text d f e there h =
    let r = read_original-HasText name original text d f there h in
    let is_original = sym (ap (λ o. or_else o original) e) ∙ h.text_is in
    (
      record r.0 { current_content = some original },
      ap (λ o. current_of none f o) r.1
          ∙ ap (λ x. some (x, record r.0 { current_content = some original })) is_original,
      record { named = r.2.named; text_is = is_original; fresh = r.2.fresh },
    )

use_file-HasText :
    (uses : List Use) (name original text : String) (d : Disk) (f : ProjectFile)
    → lookup name d.working ≡ some original
    → HasText name d original text f
    → (g : ProjectFile) × (use_file uses f d ≡ some g)
      × HasText name d original (last_content uses text) g
unfolding use_file read_content set_content
use_file-HasText [] name original text d f there h = (f, refl, h)
use_file-HasText (reads ∷ uses) name original text d f there h =
    let r = current_of-HasText f.current_content name original text d f refl there h in
    let rest = use_file-HasText uses name original text d r.0 there r.2 in
    (rest.0, ap (λ o. and_then o (λ r. use_file uses r.1 d)) r.1 ∙ rest.1, rest.2)
use_file-HasText (reads_original ∷ uses) name original text d f there h =
    let r = read_original-HasText name original text d f there h in
    let rest = use_file-HasText uses name original text d r.0 there r.2 in
    (rest.0, ap (λ o. and_then o (λ r. use_file uses r.1 d)) r.1 ∙ rest.1, rest.2)
use_file-HasText (sets content ∷ uses) name original text d f there h =
    use_file-HasText uses name original content d (set_content content f) there
      (record { named = h.named; text_is = refl; fresh = h.fresh })

-- A copy in the sandbox directory.
copied-text :
    (current : Option String) (name original : String) (d : Disk)
    → lookup name d.working ≡ some original
    → lookup name (after fulfilled (copy_content current name d) d).1.temporary
      ≡ some (or_else current original)
copied-text (some c) name original d there =
    ground (arith, lookup-insert name name c d.temporary, eq_refl name)
copied-text none name original d there =
    rw there (ground (arith, lookup-insert name name original d.temporary, eq_refl name))

-- A backup, and then the text in its place.
put-text :
    (current : Option String) (changed : Bool) (name original : String) (d : Disk)
    → lookup name d.working ≡ some original
    → (changed ≡ false → or_else current original ≡ original)
    → lookup name (put current changed name d).working ≡ some (or_else current original)
put-text none changed name original d there h = there
put-text (some c) true name original d there h =
    ground (arith, lookup-insert name name c d.working, eq_refl name)
put-text (some c) false name original d there h = there ∙ ap some (sym (h refl))

begun-text :
    (changed : Bool) (read : Option String) (f : ProjectFile) (original : String) (d : Disk)
    → lookup f.name d.working ≡ some original
    → changed ≡ has_changes f
    → (changed ≡ false → or_else f.current_content original ≡ original)
    → lookup f.name
        (sandbox_file true
          (if changed then after backed_up (copy_content read f.name d) d else (fulfilled, d)).0
          f
          (if changed
            then after backed_up (copy_content read f.name d) d
            else (fulfilled, d)).1).1.working
      ≡ some (or_else f.current_content original)
unfolding sandbox_file write_in_place
begun-text true (some c) f original d there e h =
    put-text f.current_content (has_changes f) f.name original
      (record d { temporary = insert f.name c d.temporary }) there (λ same. h (e ∙ same))
begun-text true none f original d there e h = rw there (
    put-text f.current_content (has_changes f) f.name original
      (record d { temporary = insert f.name original d.temporary }) there (λ same. h (e ∙ same)))
begun-text false read f original d there e h = there ∙ ap some (sym (h refl))

unchanged :
    (current read : Option String) (original : String)
    → ((c : String) → read ≡ some c → c ≡ original)
    → not (is_same_text current read) ≡ false
    → or_else current original ≡ original
unchanged none read original fresh h = refl
unchanged (some a) none original fresh h = cc
unchanged (some a) (some b) original fresh h = (eq_iff a b).0 (ground (arith, h)) ∙ fresh b refl

in_place :
    (name original text : String) (d : Disk) (f : ProjectFile)
    → lookup name d.working ≡ some original
    → HasText name d original text f
    → text_in_place f d ≡ some text
unfolding text_in_place sandbox_file backup_to
in_place name original text d f there h =
    begun-text (has_changes f) f.original_content f original d
      (ap (λ n. lookup n d.working) h.named ∙ there) refl
      (unchanged f.current_content f.original_content original h.fresh)
    ∙ ap some h.text_is

in_sandbox :
    (name original text : String) (d : Disk) (f : ProjectFile)
    → lookup name d.working ≡ some original
    → HasText name d original text f
    → text_in_sandbox f d ≡ some text
unfolding text_in_sandbox sandbox_file write_to_sandbox
in_sandbox name original text d f there h =
    copied-text f.current_content f.name original d (ap (λ n. lookup n d.working) h.named ∙ there)
    ∙ ap some h.text_is

-- A file of the project that is on the disk can be read and set in any way, without an error. What the tests then
-- see of it is the content that was set last, or the one on the disk: the same in place and in a sandbox
-- directory.
pub use_file-text :
    (uses : List Use) (name original : String) (d : Disk)
    → lookup name d.working ≡ some original
    → (f : ProjectFile) × (use_file uses (new_file name) d ≡ some f)
      × (text_in_place f d ≡ some (last_content uses original))
      × (text_in_sandbox f d ≡ some (last_content uses original))
use_file-text uses name original d there =
    let r =
      use_file-HasText uses name original original d (new_file name) there
        (record { named = refl; text_is = refl; fresh = λ c e. cc }) in
    (
      r.0,
      r.1,
      in_place name original (last_content uses original) d r.0 there r.2,
      in_sandbox name original (last_content uses original) d r.0 there r.2,
    )
