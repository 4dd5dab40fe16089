-- ===== src/Checker/Alone.antt =====
-- typescript-checker.ts: the suspects of a group, each checked alone.
use isep_mutation_levels.Prelude.{
  ◌≡◌, refl, ap, sym, ◌∙◌, true, false, List, [], ◌∷◌, Option, none, some, inl, inr, ◌⊎◌, ◌=s=◌,
  if◌then◌else◌, lookup, insert, lookup-insert, Bool-cases, arith, eq_iff, All,
}
use isep_mutation_levels.Api.{Mutant}
use isep_mutation_levels.Checker.Graph.{Nodes}
use isep_mutation_levels.Checker.Blame.{as_entry}
use isep_mutation_levels.Checker.Suspects.{unseen, Distinct}
use isep_mutation_levels.Checker.Check.{
  Diagnostic, Result, ok, ErrorsMap, has_mutant, is_some, check_each, bind,
}

List-cases :
    (l : List Diagnostic) → (l ≡ []) ⊎ ((e : Diagnostic) × (es : List Diagnostic) × (l ≡ e ∷ es))
List-cases [] = inl refl
List-cases (e ∷ es) = inr (e, es, refl)

module _ {C : Type 0} where
  abbrev pub answered : Mutant → ErrorsMap → List Diagnostic → C → Result ErrorsMap × C
  answered m errors_map [] c = (ok errors_map, c)
  answered m errors_map (e ∷ es) c = (ok (insert m.id (e ∷ es) errors_map), c)

  pub record Settled (m : Mutant) (answer : Result ErrorsMap × C) (entry : Option (List Diagnostic))
      : Type 0 where
    pub errors_map : ErrorsMap
    pub returns : answer.0 ≡ ok errors_map
    pub entry_is : lookup m.id errors_map ≡ entry

  pub settle :
      {m : Mutant} {a b : Result ErrorsMap × C} {e f : Option (List Diagnostic)}
      → a ≡ b
      → f ≡ e
      → Settled m b f
      → Settled m a e
  settle same entries s = record {
    errors_map = s.errors_map;
    returns = ap (λ x. x.0) same ∙ s.returns;
    entry_is = s.entry_is ∙ entries;
  }

-- The entry of a mutant behind the loop over the suspects.
abbrev pub entry_after :
    (List Mutant → List Diagnostic) → Mutant → List Mutant → ErrorsMap → Option (List Diagnostic)
entry_after answers m suspects errors_map = elim (lookup m.id errors_map) [
  | some errors ↦ some errors
  | none ↦ if has_mutant m.id suspects then as_entry (answers (m ∷ [])) else none
]

module _ {C : Type 0} (compile : List Mutant → C → List Diagnostic × C) where
  -- The check of a mutant alone.
  abbrev pub single : Mutant → ErrorsMap → C → Result ErrorsMap × C
  single m errors_map c = answered m errors_map (compile (m ∷ []) c).0 (compile (m ∷ []) c).1

module _ {C : Type 0} (compile : List Mutant → C → List Diagnostic × C) (nodes : Nodes) where
  -- The compiler answers by the mutants, if it notices them: a mutant that is in its files from the
  -- check before is not noticed.
  module _ (answers : List Mutant → List Diagnostic) (last : C → List Mutant)
      (compile_last : (ms : List Mutant) (c : C) → last (compile ms c).1 ≡ ms)
      (compile_noticed : (ms : List Mutant) (c : C)
        → unseen (last c) ms ≡ true
        → (compile ms c).0 ≡ answers ms) where
    module _ (m n : Mutant) (suspects : List Mutant) (errors_map : ErrorsMap) where
      entry_found :
          is_some (lookup n.id errors_map) ≡ true
          → entry_after answers m suspects errors_map
            ≡ entry_after answers m (n ∷ suspects) errors_map
      entry_found found = ground (arith, eq_iff n.id m.id)

      entry_fine :
          is_some (lookup n.id errors_map) ≡ false
          → answers (n ∷ []) ≡ []
          → (n.id ≡ m.id → n ≡ m)
          → entry_after answers m suspects errors_map
            ≡ entry_after answers m (n ∷ suspects) errors_map
      entry_fine new fine same = elim (Bool-cases (n.id =s= m.id)) [
        | inl on ↦
            let none_here : answers (m ∷ []) ≡ [] =
              ap (λ x. answers (x ∷ [])) (sym (same ((eq_iff n.id m.id).0 on))) ∙ fine in
            ground (arith, none_here, on)
        | inr off ↦ ground (arith, off)
      ]

      entry_wrong :
          is_some (lookup n.id errors_map) ≡ false
          → (e : Diagnostic) (es : List Diagnostic) → answers (n ∷ []) ≡ e ∷ es
          → (n.id ≡ m.id → n ≡ m)
          → entry_after answers m suspects (insert n.id (e ∷ es) errors_map)
            ≡ entry_after answers m (n ∷ suspects) errors_map
      entry_wrong new e es wrong same = elim (Bool-cases (n.id =s= m.id)) [
        | inl on ↦
            let some_here : answers (m ∷ []) ≡ e ∷ es =
              ap (λ x. answers (x ∷ [])) (sym (same ((eq_iff n.id m.id).0 on))) ∙ wrong in
            let new_here : lookup m.id errors_map ≡ lookup n.id errors_map =
              ap (λ j. lookup j errors_map) (sym ((eq_iff n.id m.id).0 on)) in
            ground (arith, some_here, on, new_here, lookup-insert m.id n.id (e ∷ es) errors_map)
        | inr off ↦ ground (arith, off, lookup-insert m.id n.id (e ∷ es) errors_map)
      ]

    module _ (n : Mutant) (suspects : List Mutant) (errors_map : ErrorsMap) (c : C) where
      check_each-found :
          is_some (lookup n.id errors_map) ≡ true
          → check_each compile nodes (single compile) (n ∷ suspects) errors_map c
            ≡ check_each compile nodes (single compile) suspects errors_map c
      unfolding check_each
      check_each-found found = rw found refl

      check_each-fine :
          is_some (lookup n.id errors_map) ≡ false
          → unseen (last c) (n ∷ []) ≡ true
          → answers (n ∷ []) ≡ []
          → check_each compile nodes (single compile) (n ∷ suspects) errors_map c
            ≡ check_each compile nodes (single compile) suspects errors_map (compile (n ∷ []) c).1
      unfolding check_each
      check_each-fine new noticed fine = rw new (
          ap
            (λ l.
              bind compile nodes (answered n errors_map l (compile (n ∷ []) c).1)
                (check_each compile nodes (single compile) suspects))
            (compile_noticed (n ∷ []) c noticed ∙ fine))

      check_each-wrong :
          is_some (lookup n.id errors_map) ≡ false
          → unseen (last c) (n ∷ []) ≡ true
          → (e : Diagnostic) (es : List Diagnostic) → answers (n ∷ []) ≡ e ∷ es
          → check_each compile nodes (single compile) (n ∷ suspects) errors_map c
            ≡ check_each compile nodes
                (single compile)
                suspects
                (insert n.id (e ∷ es) errors_map)
                (compile (n ∷ []) c).1
      unfolding check_each
      check_each-wrong new noticed e es wrong = rw new (
          ap
            (λ l.
              bind compile nodes (answered n errors_map l (compile (n ∷ []) c).1)
                (check_each compile nodes (single compile) suspects))
            (compile_noticed (n ∷ []) c noticed ∙ wrong))

    pub check_each-Settled :
        (m : Mutant) (suspects : List Mutant) (errors_map : ErrorsMap) (c : C)
        → All (λ n. n.id ≡ m.id → n ≡ m) suspects
        → Distinct suspects
        → unseen (last c) suspects ≡ true
        → Settled m
            (check_each compile nodes (single compile) suspects errors_map c)
            (entry_after answers m suspects errors_map)
    unfolding check_each
    check_each-Settled m [] errors_map c same distinct noticed = record {
      errors_map = errors_map;
      returns = refl;
      entry_is = ground arith;
    }
    check_each-Settled m (n ∷ suspects) errors_map c same distinct noticed =
        let here : unseen (last c) (n ∷ []) ≡ true = ground (arith, noticed) in
        let later : unseen (last c) suspects ≡ true = ground (arith, noticed) in
        let behind : unseen (last (compile (n ∷ []) c).1) suspects ≡ true =
          rw (compile_last (n ∷ []) c) distinct.0 in
        elim (Bool-cases (is_some (lookup n.id errors_map))) [
          | inl found ↦
              settle (check_each-found n suspects errors_map c found)
                (entry_found m n suspects errors_map found)
                (check_each-Settled m suspects errors_map c same.1 distinct.1 later)
          | inr new ↦ elim (List-cases (answers (n ∷ []))) [
            | inl fine ↦
                settle (check_each-fine n suspects errors_map c new here fine)
                  (entry_fine m n suspects errors_map new fine same.0)
                  (check_each-Settled m suspects errors_map (compile (n ∷ []) c).1 same.1 distinct.1
                    behind)
            | inr (e, es, wrong) ↦
                settle (check_each-wrong n suspects errors_map c new here e es wrong)
                  (entry_wrong m n suspects errors_map new e es wrong same.0)
                  (check_each-Settled m suspects (insert n.id (e ∷ es) errors_map)
                    (compile (n ∷ []) c).1 same.1 distinct.1 behind)
          ]
        ]
