-- ===== src/Sandbox/Exit.antt =====
-- packages/core/src/sandbox/sandbox.ts: `dispose` at any time, also at an unexpected exit.
use isep_mutation_levels.Prelude.{
  ℕ, zero, suc, ◌≡◌, ◌∙◌, sym, ap, subst, refl, String, true, List, [], ◌∷◌, arith, eq_iff, lookup,
  All, map,
}
use isep_mutation_levels.Sandbox.Files.{Disk, ProjectFile}
use isep_mutation_levels.Sandbox.Filling.{
  Stage, not_begun, Filling, sandbox_file, advance, fill_sandbox, begin, dispose_sandbox,
}
use isep_mutation_levels.Sandbox.Restored.{
  restored, IsFresh, names_of, IsOther, AllDistinct, HasBackup, IsTask, restored-dispose_sandbox,
  sandbox_file-Kept,
}

-- What holds at any time while the sandbox is filled.
record Restores (base : List (String × String)) (names : List String) (s : Filling) : Type 0 where
  pub same : (n : String) → restored n s.disk ≡ lookup n base
  pub backups : All (IsTask base s.disk) s.tasks
  pub named : names_of s.tasks ≡ names

keep-IsTask :
    (base : List (String × String)) (f : ProjectFile) (d e : Disk)
    → ((n : String) → IsOther f.name n → lookup n e.temporary ≡ lookup n d.temporary)
    → (tasks : List (Stage × ProjectFile)) → All (IsOther f.name) (names_of tasks)
    → All (IsTask base d) tasks
    → All (IsTask base e) tasks
keep-IsTask base f d e others [] distinct h = tt
keep-IsTask base f d e others ((stage, g) ∷ tasks) distinct h = (
  (subst (HasBackup stage) (sym (others g.name distinct.0)) h.0.0, h.0.1),
  keep-IsTask base f d e others tasks distinct.1 h.1,
)

IsOther-sym : (n m : String) → IsOther n m → IsOther m n
IsOther-sym n m h = ground (arith, h, eq_iff n m, eq_iff m n)

All-IsOther-sym :
    (n : String) (names : List String) → All (IsOther n) names → All (λ m. IsOther m n) names
All-IsOther-sym n [] h = tt
All-IsOther-sym n (m ∷ names) h = (IsOther-sym n m h.0, All-IsOther-sym n names h.1)

-- A step of one of the files.
record Steps (base : List (String × String)) (tasks : List (Stage × ProjectFile)) (d : Disk)
    (s : Filling) : Type 0 where
  pub restores : Restores base (names_of tasks) s
  pub others :
      (n : String)
      → All (λ m. IsOther m n) (names_of tasks)
      → lookup n s.disk.temporary ≡ lookup n d.temporary

advance-Steps :
    (k : ℕ) (base : List (String × String)) (tasks : List (Stage × ProjectFile)) (d : Disk)
    → ((n : String) → restored n d ≡ lookup n base)
    → All (IsTask base d) tasks
    → AllDistinct (names_of tasks)
    → Steps base tasks d (advance true k tasks d)
unfolding advance
advance-Steps zero base [] d same h distinct = record {
  restores = record { same = same; backups = tt; named = refl };
  others = λ n other. refl;
}
advance-Steps (suc k) base [] d same h distinct = record {
  restores = record { same = same; backups = tt; named = refl };
  others = λ n other. refl;
}
advance-Steps zero base ((stage, f) ∷ tasks) d same h distinct =
    let kept = sandbox_file-Kept stage base f d same h.0 in
    record {
      restores = record {
        same = kept.same;
        backups = (
          (kept.backup, h.0.1),
          keep-IsTask base f d (sandbox_file true stage f d).1 kept.others tasks distinct.0 h.1,
        );
        named = refl;
      };
      others = λ n other. kept.others n other.0;
    }
advance-Steps (suc k) base ((stage, f) ∷ tasks) d same h distinct =
    let rest = advance-Steps k base tasks d same h.1 distinct.1 in
    record {
      restores = record {
        same = rest.restores.same;
        backups = (
          (
            subst (HasBackup stage)
                (sym (rest.others f.name (All-IsOther-sym f.name (names_of tasks) distinct.0)))
                h.0.0,
            h.0.1,
          ),
          rest.restores.backups,
        );
        named = ap (λ names. f.name ∷ names) rest.restores.named;
      };
      others = λ n other. rest.others n other.1;
    }

fill_sandbox-Restores :
    (order : List ℕ) (base : List (String × String)) (names : List String) (s : Filling)
    → AllDistinct names
    → Restores base names s
    → Restores base names (fill_sandbox true order s)
unfolding fill_sandbox
fill_sandbox-Restores [] base names s distinct r = r
fill_sandbox-Restores (k ∷ order) base names s distinct r =
    let steps =
      advance-Steps k base s.tasks s.disk r.same r.backups
        (subst AllDistinct (sym r.named) distinct) in
    fill_sandbox-Restores order base names (advance true k s.tasks s.disk) distinct (record {
      same = steps.restores.same;
      backups = steps.restores.backups;
      named = steps.restores.named ∙ r.named;
    })

begin-tasks :
    (base : List (String × String)) (files : List ProjectFile)
    → All (IsFresh base) files
    → All
        (IsTask base (record { working = base; temporary = [] }))
        (map (λ f. (not_begun, f)) files)
begin-tasks base [] h = tt
begin-tasks base (f ∷ files) h = ((refl, h.0), begin-tasks base files h.1)

begin-names :
    (files : List ProjectFile)
    → names_of (map (λ f. (not_begun, f)) files) ≡ map (λ f. f.name) files
begin-names [] = refl
begin-names (f ∷ files) = ap (λ names. f.name ∷ names) (begin-names files)

-- In place, with distinct files whose original contents, where they were read, are those on the disk:
-- whatever steps `fillSandbox` has taken for each of the files, in whatever order, and also if copying has
-- failed, `dispose` gives each file of the project the content it had, and leaves no backup.
pub dispose_sandbox-restores :
    (base : List (String × String)) (files : List ProjectFile) (order : List ℕ)
    → AllDistinct (map (λ f. f.name) files)
    → All (IsFresh base) files
    → ((dispose_sandbox true
          (fill_sandbox true order
            (begin files (record { working = base; temporary = [] }))).disk).temporary
        ≡ [])
      × ((n : String)
          → lookup n
              (dispose_sandbox true
                (fill_sandbox true order
                  (begin files (record { working = base; temporary = [] }))).disk).working
            ≡ lookup n base)
unfolding dispose_sandbox
dispose_sandbox-restores base files order distinct fresh =
    let d : Disk = record { working = base; temporary = [] } in
    let s = fill_sandbox true order (begin files d) in
    let r =
      fill_sandbox-Restores order base (map (λ f. f.name) files) (begin files d) distinct (record {
        same = λ n. refl;
        backups = begin-tasks base files fresh;
        named = begin-names files;
      }) in
    (refl, λ n. restored-dispose_sandbox n s.disk.temporary s.disk.working ∙ r.same n)
