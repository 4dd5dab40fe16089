-- ===== src/Sandbox/Restored.antt =====
-- packages/core/src/sandbox/sandbox.ts: in place, `dispose` gives the original files back at any time.
use isep_mutation_levels.Prelude.{
  ◌≡◌, ◌∙◌, sym, ap, subst, refl, String, Bool, true, false, List, [], ◌∷◌, Option, none, some, inl,
  inr, ◌=s=◌, if◌then◌else◌, Bool-cases, Option-cases, arith, eq_iff, lookup, insert, lookup-insert,
  All, map,
}
use isep_mutation_levels.Sandbox.Files.{
  Disk, ProjectFile, is_none, has_changes, write_in_place, copy_file, copy_content, put, backup_to,
}
use isep_mutation_levels.Sandbox.Filling.{
  Stage, not_begun, backed_up, fulfilled, rejected, after, sandbox_file, move_files,
}

abbrev pub first_of : Option String → Option String → Option String
first_of (some a) b = some a
first_of none b = b

-- What `dispose` makes of a file.
abbrev pub restored : String → Disk → Option String
restored n d = first_of (lookup n d.temporary) (lookup n d.working)

-- What was read of a file is what the disk has.
abbrev pub IsFresh : List (String × String) → ProjectFile → Type 0
IsFresh base f =
    (content : String) → f.original_content ≡ some content → lookup f.name base ≡ some content

abbrev pub names_of : List (Stage × ProjectFile) → List String
names_of tasks = map (λ t. t.1.name) tasks

abbrev pub IsOther : String → String → Type 0
IsOther n m = (n =s= m) ≡ false

abbrev pub AllDistinct : List String → Type 0
AllDistinct [] = Unit
AllDistinct (n ∷ names) = All (IsOther n) names × AllDistinct names

abbrev pub HasBackup : Stage → Option String → Type 0
HasBackup not_begun o = o ≡ none
HasBackup backed_up o = is_none o ≡ false
HasBackup _ o = Unit

abbrev pub IsTask : List (String × String) → Disk → Stage × ProjectFile → Type 0
IsTask base d (stage, f) = HasBackup stage (lookup f.name d.temporary) × IsFresh base f

pub restored-dispose_sandbox :
    (n : String) (temporary working : List (String × String))
    → lookup n (move_files temporary working) ≡ first_of (lookup n temporary) (lookup n working)
restored-dispose_sandbox n [] working = refl
restored-dispose_sandbox n ((name, content) ∷ temporary) working = ground (
  arith,
  lookup-insert n name content (move_files temporary working),
  restored-dispose_sandbox n temporary working,
)

shadowed : (o a b : Option String) → is_none o ≡ false → first_of o a ≡ first_of o b
shadowed none a b h = cc
shadowed (some c) a b h = refl

restored-insert :
    (n name content : String) (temporary working base : List (String × String))
    → first_of (lookup n temporary) (lookup n working) ≡ lookup n base
    → lookup name base ≡ some content
    → first_of (lookup n (insert name content temporary)) (lookup n working) ≡ lookup n base
restored-insert n name content temporary working base same is_base =
    elim (Bool-cases (name =s= n)) [
      | inl e ↦
          rw (lookup-insert n name content temporary, e)
            (sym is_base ∙ ap (λ m. lookup m base) ((eq_iff name n).0 e))
      | inr e ↦ rw (lookup-insert n name content temporary, e) same
    ]

restored-shadowed :
    (n name content : String) (temporary working : List (String × String))
    → is_none (lookup name temporary) ≡ false
    → first_of (lookup n temporary) (lookup n (insert name content working))
      ≡ first_of (lookup n temporary) (lookup n working)
restored-shadowed n name content temporary working there = elim (Bool-cases (name =s= n)) [
  | inl e ↦
      shadowed _ _ _ (subst (λ m. is_none (lookup m temporary) ≡ false) ((eq_iff name n).0 e) there)
  | inr e ↦ rw (lookup-insert n name content working, e) refl
]

-- A step keeps what can be restored, and touches no other file's backup.
pub record Kept (base : List (String × String)) (f : ProjectFile) (s : Stage × Disk) (d : Disk)
    : Type 0 where
  pub same : (n : String) → restored n s.1 ≡ lookup n base
  pub backup : HasBackup s.0 (lookup f.name s.1.temporary)
  pub others : (n : String) → IsOther f.name n → lookup n s.1.temporary ≡ lookup n d.temporary

backed_up-Kept :
    (base : List (String × String)) (f : ProjectFile) (d : Disk) (content : String)
    → ((n : String) → restored n d ≡ lookup n base)
    → lookup f.name base ≡ some content
    → Kept base f (backed_up, record d { temporary = insert f.name content d.temporary }) d
backed_up-Kept base f d content same is_base = record {
  same = λ n. restored-insert n f.name content d.temporary d.working base (same n) is_base;
  backup = ground (arith, lookup-insert f.name f.name content d.temporary, eq_iff f.name f.name);
  others = λ n other. rw (lookup-insert n f.name content d.temporary, other) refl;
}

rejected-Kept :
    (base : List (String × String)) (f : ProjectFile) (d : Disk)
    → ((n : String) → restored n d ≡ lookup n base)
    → Kept base f (rejected, d) d
rejected-Kept base f d same = record { same = same; backup = tt; others = λ n other. refl }

copied-Kept :
    (base : List (String × String)) (f : ProjectFile) (d : Disk)
    → ((n : String) → restored n d ≡ lookup n base)
    → IsTask base d (not_begun, f)
    → Kept base f (after backed_up (copy_file f.name d) d) d
copied-Kept base f d same t = elim (Option-cases (lookup f.name d.working)) [
  | inl missing ↦ rw missing (rejected-Kept base f d same)
  | inr (content, there) ↦ rw there (
      backed_up-Kept base f d content same
        (sym (same f.name) ∙ (ap (λ o. first_of o (lookup f.name d.working)) t.0 ∙ there)))
]

copy_content-Kept :
    (original : Option String) (base : List (String × String)) (f : ProjectFile) (d : Disk)
    → original ≡ f.original_content
    → ((n : String) → restored n d ≡ lookup n base)
    → IsTask base d (not_begun, f)
    → Kept base f (after backed_up (copy_content original f.name d) d) d
copy_content-Kept none base f d e same t = copied-Kept base f d same t
copy_content-Kept (some content) base f d e same t =
    backed_up-Kept base f d content same (t.1 content (sym e))

fulfilled-Kept :
    (base : List (String × String)) (f : ProjectFile) (d : Disk)
    → ((n : String) → restored n d ≡ lookup n base)
    → Kept base f (fulfilled, d) d
fulfilled-Kept base f d same = record { same = same; backup = tt; others = λ n other. refl }

put-Kept :
    (current : Option String) (changed : Bool) (base : List (String × String)) (f : ProjectFile)
    (d : Disk)
    → ((n : String) → restored n d ≡ lookup n base)
    → IsTask base d (backed_up, f)
    → Kept base f (fulfilled, put current changed f.name d) d
put-Kept none changed base f d same t = fulfilled-Kept base f d same
put-Kept (some content) false base f d same t = fulfilled-Kept base f d same
put-Kept (some content) true base f d same t = record {
  same = λ n. restored-shadowed n f.name content d.temporary d.working t.0 ∙ same n;
  backup = tt;
  others = λ n other. refl;
}

begun-Kept :
    (changed : Bool) (base : List (String × String)) (f : ProjectFile) (d : Disk)
    → ((n : String) → restored n d ≡ lookup n base)
    → IsTask base d (not_begun, f)
    → Kept base f (if changed then after backed_up (backup_to f d) d else (fulfilled, d)) d
unfolding backup_to
begun-Kept true base f d same t = copy_content-Kept f.original_content base f d refl same t
begun-Kept false base f d same t = fulfilled-Kept base f d same

pub sandbox_file-Kept :
    (stage : Stage) (base : List (String × String)) (f : ProjectFile) (d : Disk)
    → ((n : String) → restored n d ≡ lookup n base)
    → IsTask base d (stage, f)
    → Kept base f (sandbox_file true stage f d) d
unfolding sandbox_file write_in_place
sandbox_file-Kept not_begun base f d same t = begun-Kept (has_changes f) base f d same t
sandbox_file-Kept backed_up base f d same t =
    put-Kept f.current_content (has_changes f) base f d same t
sandbox_file-Kept fulfilled base f d same t = fulfilled-Kept base f d same
sandbox_file-Kept rejected base f d same t = rejected-Kept base f d same
