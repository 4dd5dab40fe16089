-- ===== src/Checker/Verdicts.antt =====
-- typescript-checker.ts: which errors `checkErrors` puts down to a mutant.
use mathlib.Core.Option.{some_inj}
use isep_mutation_levels.Prelude.{
  ◌≡◌, refl, ap, ◌∙◌, String, Bool, true, false, List, [], ◌∷◌, none, some, inl, inr, ◌=s=◌,
  if◌then◌else◌, lookup, insert, Option-cases, arith, All,
}
use isep_mutation_levels.Api.{Mutant}
use isep_mutation_levels.Checker.Graph.{Nodes}
use isep_mutation_levels.Checker.Blame.{
  as_entry, put_down_to, is_suspect, first_bad, blame_errors-Looped,
}
use isep_mutation_levels.Checker.Suspects.{unseen}
use isep_mutation_levels.Checker.Alone.{single, Settled, settle, check_each-Settled, entry_after}
use isep_mutation_levels.Checker.Judgement.{check_errors-single, judge-some, judge-ok}
use isep_mutation_levels.Checker.Check.{
  Diagnostic, ErrorsMap, has_mutant, judge, check_errors, max_depth, only, reset,
}

unseen-none : (ms : List Mutant) → unseen [] ms ≡ true
unseen-none [] = refl
unseen-none (m ∷ ms) = unseen-none ms

only_lem :
    (id : String) (mutants : List Mutant) (errors : List Diagnostic) (n : Mutant)
    → only mutants errors ≡ some n
    → (has_mutant id mutants ≡ (n.id =s= id)) × (as_entry errors ≡ some errors)
only_lem id [] errors n h = cc
only_lem id (m ∷ []) [] n h = cc
only_lem id (m ∷ []) (e ∷ es) n h = (ground (arith, ap (λ x. x.id) (some_inj.0 h)), refl)
only_lem id (m ∷ m' ∷ ms) errors n h = cc

module _ {C : Type 0} (compile : List Mutant → C → List Diagnostic × C) (nodes : Nodes) where
  module _ (answers : List Mutant → List Diagnostic) (last : C → List Mutant)
      (compile_last : (ms : List Mutant) (c : C) → last (compile ms c).1 ≡ ms)
      (compile_noticed : (ms : List Mutant) (c : C)
        → unseen (last c) ms ≡ true
        → (compile ms c).0 ≡ answers ms) where
    -- What is put down to a mutant: if it was checked alone, all errors; else the errors whose only
    -- related mutant it is; if there are none and it is a suspect, the errors of checking it alone.
    abbrev pub verdict : List Mutant → Mutant → List Diagnostic
    verdict mutants m =
        let in_group = put_down_to nodes mutants (answers mutants) m.id in
        let alone =
          if is_suspect nodes mutants (answers mutants) m.id then answers (m ∷ []) else [] in
        elim (only mutants (answers mutants)) [
          | some n ↦ answers mutants
          | none ↦ elim in_group [ [] ↦ alone | e ∷ es ↦ e ∷ es ]
        ]

    checked_alone :
        (mutants : List Mutant) (m n : Mutant) (c : C)
        → has_mutant m.id mutants ≡ true
        → only mutants (answers mutants) ≡ some n
        → Settled m
            (judge compile nodes (single compile) mutants [] (answers mutants, c))
            (as_entry (verdict mutants m))
    checked_alone mutants m n c there alone = record {
      errors_map = insert n.id (answers mutants) [];
      returns =
          ap (λ x. x.0)
            (judge-some compile nodes (single compile) mutants [] (answers mutants) c n alone);
      entry_is =
          let one = only_lem m.id mutants (answers mutants) n alone in
          rw (verdict, alone) (ground (arith, one, there));
    }

    entry_after_lem :
        (m : Mutant) (suspects : List Mutant) (errors_map : ErrorsMap) (put : List Diagnostic)
        (suspect : Bool)
        → lookup m.id errors_map ≡ as_entry put
        → has_mutant m.id suspects ≡ suspect
        → entry_after answers m suspects errors_map
          ≡ as_entry (elim put [ [] ↦ if suspect then answers (m ∷ []) else [] | e ∷ es ↦ e ∷ es ])
    entry_after_lem m suspects errors_map [] true found suspected =
        rw (entry_after, found, suspected) refl
    entry_after_lem m suspects errors_map [] false found suspected =
        rw (entry_after, found, suspected) refl
    entry_after_lem m suspects errors_map (e ∷ es) suspect found suspected =
        rw (entry_after, found) refl

    -- Behind the reset every suspect is noticed.
    unseen-reset :
        (suspects : List Mutant) (c : C)
        → unseen (last (reset compile nodes suspects c)) suspects ≡ true
    unseen-reset [] c = refl
    unseen-reset (m ∷ ms) c =
        ap (λ before. unseen before (m ∷ ms)) (compile_last [] c) ∙ unseen-none (m ∷ ms)

    in_group :
        (mutants : List Mutant) (m : Mutant) (c : C)
        → All (λ n. n.id ≡ m.id → n ≡ m) mutants
        → first_bad nodes (answers mutants) ≡ none
        → only mutants (answers mutants) ≡ none
        → Settled m
            (judge compile nodes (single compile) mutants [] (answers mutants, c))
            (as_entry (verdict mutants m))
    in_group mutants m c same good group =
        let loop =
          blame_errors-Looped nodes mutants (answers mutants)
            (record { errors_map = []; suspects = [] }) good in
        let found = loop.says.put_down_to m.id [] refl in
        let suspected = loop.says.suspected m.id in
        settle
          (judge-ok compile nodes (single compile) mutants [] (answers mutants) c group loop.after
            loop.returns)
          (rw (verdict, group)
            (entry_after_lem m loop.after.suspects loop.after.errors_map
              (put_down_to nodes mutants (answers mutants) m.id)
              (is_suspect nodes mutants (answers mutants) m.id) found suspected))
          (check_each-Settled compile nodes answers last compile_last compile_noticed m
            loop.after.suspects loop.after.errors_map (reset compile nodes loop.after.suspects c)
            (loop.says.among (λ n. n.id ≡ m.id → n ≡ m) same tt) (loop.says.distinct tt)
            (unseen-reset loop.after.suspects c))

    -- Let the compiler's diagnostics depend on the mutants only, if none of them is among the mutants that
    -- it compiled last: such a one need not be noticed. If it has compiled none of a group's mutants last,
    -- these have different ids, and each diagnostic of the group is about a file of the project: the check
    -- of the group, which goes back to the original files before it checks suspects alone, returns, and puts
    -- down to each of its mutants exactly its verdict. That is all diagnostics, if the mutant was
    -- checked alone; else those whose only related mutant it is; and if there are none and it was under
    -- suspicion, the diagnostics of checking it alone.
    pub check_errors-verdict :
        (mutants : List Mutant) (m : Mutant) (c : C)
        → All (λ n. n.id ≡ m.id → n ≡ m) mutants
        → has_mutant m.id mutants ≡ true
        → unseen (last c) mutants ≡ true
        → first_bad nodes (answers mutants) ≡ none
        → Settled m
            (check_errors compile nodes max_depth mutants [] c)
            (as_entry (verdict mutants m))
    check_errors-verdict mutants m c same there noticed good =
        settle
          (check_errors-single compile nodes 0 mutants [] c
            ∙ ap (λ l. judge compile nodes (single compile) mutants [] (l, (compile mutants c).1))
                (compile_noticed mutants c noticed))
          refl
          (elim (Option-cases (only mutants (answers mutants))) [
            | inl group ↦ in_group mutants m (compile mutants c).1 same good group
            | inr (n, alone) ↦ checked_alone mutants m n (compile mutants c).1 there alone
          ])
