-- ===== src/Checker/Restored.antt =====
-- typescript-checker/src/fs and typescript-compiler.ts: what the compiler gets to see.
use mathlib.Core.Option.{some_inj}
use isep_mutation_levels.Prelude.{
  ℕ, ◌≡◌, ap, subst, sym, ◌∙◌, refl, String, true, false, if◌then◌else◌, List, [], some, inl, inr,
  Bool-cases, arith, and_then, and_then-some,
}
use isep_mutation_levels.Api.{Mutant}
use isep_mutation_levels.Differ.Positions.{Text, Location}
use isep_mutation_levels.Checker.Files.{
  ScriptFile, FileSystem, Ended, and_also, Compiler, source_of, reset_all, mutate_all,
  compile_files,
}
use isep_mutation_levels.Checker.Rewritten.{
  settled, touches, text_with, text_with_untouched, WasReset, WasMutated, reset_all-WasReset,
  mutate_all-WasMutated,
}

-- A file that no mutant of the last check is in has its original text, and the offsets are those of the
-- original text.
abbrev pub IsKept : List Mutant → String → ScriptFile → Type 0
IsKept last name file =
    (source_of file ≡ file.original_content)
    × (touches name last ≡ false → file.content ≡ file.original_content)

-- Every file on the disk of a compiler.
abbrev pub AllKept : Compiler → Type 0
AllKept c =
    (name : String) (file : ScriptFile) → c.fs name ≡ some file → IsKept c.last_mutants name file

settled-and_also :
    (first : Ended FileSystem) (f : FileSystem → Ended FileSystem)
    → settled (and_also first f) ≡ and_then (settled first) (λ fs. settled (f fs))
settled-and_also (true, fs) f = refl
settled-and_also (false, fs) f = refl

settled-remember :
    (mutants last : List Mutant) (loops : Ended FileSystem) {c' : Compiler}
    → settled (loops.0, record { fs = loops.1; last_mutants = if loops.0 then mutants else last })
      ≡ some c'
    → settled loops ≡ some c'.fs × (c'.last_mutants ≡ mutants)
settled-remember mutants last (true, fs) {c'} h =
    let same = some_inj.0 h in (ap (λ x. some x.fs) same, sym (ap (λ x. x.last_mutants) same))
settled-remember mutants last (false, fs) {c'} h = cc

module _ (offsets_of : Text → Location → ℕ × ℕ) where
  text-IsKept :
      (mutants last : List Mutant) (name : String) (before mid after : ScriptFile)
      → IsKept last name before
      → WasReset last name before mid
      → WasMutated offsets_of mutants name mid after
      → (after.content
          ≡ text_with offsets_of mutants name after.original_content after.original_content)
        × IsKept mutants name after
  text-IsKept mutants last name before mid after (sourced, untouched) r w =
      let fresh : mid.content ≡ mid.original_content = elim (Bool-cases (touches name last)) [
        | inl touched ↦ ground (arith, r.content, r.original, touched)
        | inr never ↦ ground (arith, r.content, r.original, never, untouched never)
      ] in
      let text : after.content
          ≡ text_with offsets_of mutants name after.original_content after.original_content =
        w.content (r.source sourced)
        ∙ ap (text_with offsets_of mutants name mid.original_content) fresh
        ∙ ap (λ t. text_with offsets_of mutants name t t) (sym w.original) in
      (
        text,
        (
          w.source (r.source sourced),
          λ h.
              text
              ∙ text_with_untouched offsets_of mutants name after.original_content
                  after.original_content h,
        ),
      )

  -- After a check a file, which was there before with the same original text, holds that text with the
  -- last of its mutants among those checked, if there is one, whatever was checked before; and the next
  -- check finds all files kept.
  pub compile_files-text :
      (mutants : List Mutant) (c c' : Compiler)
      → AllKept c
      → settled (compile_files offsets_of mutants c) ≡ some c'
      → (name : String) (file : ScriptFile) → c'.fs name ≡ some file
      → (before : ScriptFile) × (c.fs name ≡ some before)
        × (file.original_content ≡ before.original_content)
        × (file.content
            ≡ text_with offsets_of mutants name file.original_content file.original_content)
        × IsKept mutants name file
  unfolding compile_files
  compile_files-text mutants c c' kept done name file found =
      let resetting = reset_all c.last_mutants c.fs in
      let loops = and_also resetting (mutate_all offsets_of mutants) in
      let (whole, _) = settled-remember mutants c.last_mutants loops {c' = c'} done in
      let (fs1, resets, mutations) =
        and_then-some (settled resetting) (λ fs. settled (mutate_all offsets_of mutants fs))
          (sym (settled-and_also resetting (mutate_all offsets_of mutants)) ∙ whole) in
      let (mid, there, w) =
        mutate_all-WasMutated offsets_of mutants fs1 c'.fs mutations name file found in
      let (before, at_first, r) =
        reset_all-WasReset c.last_mutants c.fs fs1 resets name mid there in
      let (text, still_kept) =
        text-IsKept mutants c.last_mutants name before mid file (kept name before at_first) r w in
      (before, at_first, w.original ∙ r.original, text, still_kept)

  compile_files-last :
      (mutants : List Mutant) (c c' : Compiler)
      → settled (compile_files offsets_of mutants c) ≡ some c'
      → c'.last_mutants ≡ mutants
  unfolding compile_files
  compile_files-last mutants c c' done =
      let loops = and_also (reset_all c.last_mutants c.fs) (mutate_all offsets_of mutants) in
      (settled-remember mutants c.last_mutants loops {c' = c'} done).1

  -- A check of no mutants behind any other gives every file back the text that it had on the disk.
  pub compile_files_restores :
      (mutants : List Mutant) (c c' c'' : Compiler)
      → AllKept c
      → settled (compile_files offsets_of mutants c) ≡ some c'
      → settled (compile_files offsets_of [] c') ≡ some c''
      → (name : String) (file : ScriptFile) → c''.fs name ≡ some file
      → (before : ScriptFile) × (c.fs name ≡ some before) × (file.content ≡ before.original_content)
  compile_files_restores mutants c c' c'' kept done undone name file found =
      let last : c'.last_mutants ≡ mutants = compile_files-last mutants c c' done in
      let kept' : AllKept c' = λ n f h.
        let (b, _, _, _, k) = compile_files-text mutants c c' kept done n f h in
        subst (λ l. IsKept l n f) (sym last) k in
      let (mid, there, same, text, _) = compile_files-text [] c' c'' kept' undone name file found in
      let (before, first, same', _, _) = compile_files-text mutants c c' kept done name mid there in
      (before, first, text ∙ same ∙ same')
