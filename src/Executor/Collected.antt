-- ===== src/Executor/Collected.antt =====
-- mutation-test-report-helper.ts: what stands under each file name in the report.
use isep_mutation_levels.Prelude.{
  ◌≡◌, refl, ap, sym, ◌∙◌, String, true, List, [], ◌∷◌, ◌++◌, Option, none, some, inl, inr, map,
  keep, ◌=s=◌, lookup, insert, lookup-insert, or_else, Bool-cases, append_assoc, append-nil, eq_iff,
}
use isep_mutation_levels.Executor.Reports.{collect_by}

abbrev pub entries {ℓ κ} : {F : Type ℓ} {B : Type κ} → (F → List B) → Option F → List B
entries items none = []
entries items (some f) = items f

module _ {X : Type 0} {F : Type 0} {B : Type 0} (key : X → String) (fresh : X → F)
    (push : X → F → F) (items : F → List B) (item : X → B)
    (pushed : (x : X) (f : F) → items (push x f) ≡ items f ++ item x ∷ [])
    (empty : (x : X) → items (fresh x) ≡ []) where
  entries-or_else : (o : Option F) (x : X) → items (or_else o (fresh x)) ≡ entries items o
  entries-or_else none x = empty x
  entries-or_else (some f) x = refl

  entries-insert :
      (name : String) (x : X) (acc : List (String × F))
      → (key x =s= name) ≡ true
      → entries items
          (lookup name (insert (key x) (push x (or_else (lookup (key x) acc) (fresh x))) acc))
        ≡ entries items (lookup name acc) ++ item x ∷ []
  entries-insert name x acc here =
      let f = or_else (lookup (key x) acc) (fresh x) in
      rw (lookup-insert name (key x) (push x f) acc, here)
        (pushed x f
          ∙ ap (λ l. l ++ item x ∷ [])
              (entries-or_else (lookup (key x) acc) x
                ∙ ap (λ n. entries items (lookup n acc)) ((eq_iff (key x) name).0 here)))

  pub collect_by-entries :
      (name : String) (xs : List X) (acc : List (String × F))
      → entries items (lookup name (collect_by key fresh push xs acc))
        ≡ entries items (lookup name acc) ++ map item (keep (λ x. key x =s= name) xs)
  unfolding collect_by
  collect_by-entries name [] acc = sym (append-nil _)
  collect_by-entries name (x ∷ xs) acc =
      let f = or_else (lookup (key x) acc) (fresh x) in
      let rest = map item (keep (λ y. key y =s= name) xs) in
      collect_by-entries name xs (insert (key x) (push x f) acc)
      ∙ elim (Bool-cases (key x =s= name)) [
        | inl here ↦ rw here (
            ap (λ l. l ++ rest) (entries-insert name x acc here)
            ∙ append_assoc (entries items (lookup name acc)) (item x ∷ []) rest)
        | inr elsewhere ↦ rw (lookup-insert name (key x) (push x f) acc, elsewhere) refl
      ]
