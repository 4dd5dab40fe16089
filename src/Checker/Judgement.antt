-- ===== src/Checker/Judgement.antt =====
-- typescript-checker.ts: the recursion of `checkErrors` ends, and an error about a diagnostic ends the check.
use mathlib.Core.Path.{fun_ext}
use isep_mutation_levels.Prelude.{
  ℕ, suc, ◌≡◌, refl, ap, ◌∙◌, List, [], ◌∷◌, none, some, inl, inr, insert, Option-cases, arith,
}
use isep_mutation_levels.Api.{Mutant}
use isep_mutation_levels.Checker.Graph.{Nodes}
use isep_mutation_levels.Checker.Blame.{why_bad, first_bad, Looped-step, why_bad-first, related_to}
use isep_mutation_levels.Checker.Alone.{answered, single}
use isep_mutation_levels.Checker.Check.{
  Diagnostic, CheckError, Result, ok, err, ErrorsMap, Blame, blame_related, blame_errors,
  check_each, judge, check_errors, only, reset,
}

module _ {C : Type 0} (compile : List Mutant → C → List Diagnostic × C) (nodes : Nodes) where
  judge-single :
      (one : Mutant → ErrorsMap → C → Result ErrorsMap × C) (m : Mutant) (errors_map : ErrorsMap)
      (errors : List Diagnostic) (c : C)
      → judge compile nodes one (m ∷ []) errors_map (errors, c) ≡ answered m errors_map errors c
  unfolding judge blame_errors check_each
  judge-single one m errors_map [] c = refl
  judge-single one m errors_map (e ∷ es) c = refl

  -- The recursion ends: any fuel of two or more gives the answer that the group's diagnostics give
  -- with each suspect checked alone, once.
  pub check_errors-single :
      (fuel : ℕ) (mutants : List Mutant) (errors_map : ErrorsMap) (c : C)
      → check_errors compile nodes (suc (suc fuel)) mutants errors_map c
        ≡ judge compile nodes (single compile) mutants errors_map (compile mutants c)
  unfolding check_errors
  check_errors-single fuel mutants errors_map c =
      ap (λ one. judge compile nodes one mutants errors_map (compile mutants c))
        (fun_ext λ m. fun_ext λ em. fun_ext λ d.
          judge-single (λ n em' d'. check_errors compile nodes fuel (n ∷ []) em' d') m em
            (compile (m ∷ []) d).0 (compile (m ∷ []) d).1)

  -- The loop over the errors ends at the first that is of no use.
  blame_errors-first_bad :
      (mutants : List Mutant) (errors : List Diagnostic) (b : Blame) (e : CheckError)
      → first_bad nodes errors ≡ some e
      → blame_errors nodes mutants errors b ≡ err e
  unfolding blame_errors
  blame_errors-first_bad mutants [] b e h = cc
  blame_errors-first_bad mutants (x ∷ errors) b e h = elim (Option-cases (why_bad nodes x)) [
    | inl good ↦
        let later : first_bad nodes errors ≡ some e = ground (arith, good, h) in
        Looped-step nodes mutants x errors b good
        ∙ blame_errors-first_bad mutants errors
            (blame_related mutants (related_to nodes mutants x) x b) e later
    | inr (e', bad) ↦
        let same : e' ≡ e = ground (arith, bad, h) in
        why_bad-first nodes mutants x errors b e' bad ∙ ap err same
  ]

  pub judge-some :
      (one : Mutant → ErrorsMap → C → Result ErrorsMap × C) (mutants : List Mutant)
      (errors_map : ErrorsMap) (errors : List Diagnostic) (c : C) (n : Mutant)
      → only mutants errors ≡ some n
      → judge compile nodes one mutants errors_map (errors, c)
        ≡ (ok (insert n.id errors errors_map), c)
  unfolding judge
  judge-some one mutants errors_map errors c n alone = rw (judge, alone) refl

  module _ (one : Mutant → ErrorsMap → C → Result ErrorsMap × C) (mutants : List Mutant)
      (errors_map : ErrorsMap) (errors : List Diagnostic) (c : C)
      (group : only mutants errors ≡ none) where
    judge-err :
        (e : CheckError)
        → blame_errors nodes mutants errors (record { errors_map = errors_map; suspects = [] })
          ≡ err e
        → judge compile nodes one mutants errors_map (errors, c) ≡ (err e, c)
    unfolding judge
    judge-err e bad = rw (judge, group, bad) refl

    pub judge-ok :
        (b : Blame)
        → blame_errors nodes mutants errors (record { errors_map = errors_map; suspects = [] })
          ≡ ok b
        → judge compile nodes one mutants errors_map (errors, c)
          ≡ check_each compile nodes one b.suspects b.errors_map (reset compile nodes b.suspects c)
    unfolding judge
    judge-ok b good = rw (judge, group, good) refl

  -- If the compiler's answer to a group of mutants (or to none) has an error that was reported without a file,
  -- or in a file that is not of the project, the check of the group ends with the error about the
  -- first of these, and the compiler stays as that answer left it.
  pub check_errors-first_bad :
      (fuel : ℕ) (mutants : List Mutant) (errors_map : ErrorsMap) (c : C) (e : CheckError)
      → only mutants (compile mutants c).0 ≡ none
      → first_bad nodes (compile mutants c).0 ≡ some e
      → check_errors compile nodes (suc fuel) mutants errors_map c ≡ (err e, (compile mutants c).1)
  unfolding check_errors
  check_errors-first_bad fuel mutants errors_map c e group bad =
      judge-err (λ m em d. check_errors compile nodes fuel (m ∷ []) em d) mutants errors_map
        (compile mutants c).0 (compile mutants c).1 group e
        (blame_errors-first_bad mutants (compile mutants c).0
          (record { errors_map = errors_map; suspects = [] }) e bad)
