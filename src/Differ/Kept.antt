-- ===== src/Differ/Kept.antt =====
-- What `diff` hands on: which mutants, and which of them as they are.
use isep_mutation_levels.Prelude.{
  ◌≡◌, refl, ap, ◌∙◌, String, Bool, true, false, List, [], ◌∷◌, ◌++◌, map, none, some, inl, inr,
  keep, arith, Bool-cases,
}
use isep_mutation_levels.Api.{Mutant}
use isep_mutation_levels.Coverage.Defs.{TestCoverage}
use isep_mutation_levels.Differ.Statistics.{Statistics}
use isep_mutation_levels.Differ.Report.{IncrementalReport}
use isep_mutation_levels.Differ.Collect.{IncrementalDiffer, Reusable}
use isep_mutation_levels.Differ.Diff.{
  Prepared, is_pending, diff_mutant, count_mutant, diff_mutants, key_set_of, is_forgotten,
  forgotten_mutant, keep_forgotten, prepare, diff,
}

abbrev pub prepared : IncrementalDiffer → TestCoverage → IncrementalReport → Prepared
prepared d coverage report = (prepare d coverage report).0

-- The old results that are kept with no current mutant.
abbrev pub forgotten :
    IncrementalDiffer → List Mutant → TestCoverage → IncrementalReport → List (String × Reusable)
forgotten d ms coverage report =
    keep (is_forgotten d (key_set_of d ms [])) (prepared d coverage report).reusable

keep_forgotten-eq :
    (d : IncrementalDiffer) (p : Prepared) (ks : List String) (entries : List (String × Reusable))
    (coverage : TestCoverage)
    → (keep_forgotten d p ks entries coverage).0
      ≡ map (forgotten_mutant d p) (keep (is_forgotten d ks) entries)
unfolding keep_forgotten
keep_forgotten-eq d p ks [] coverage = refl
keep_forgotten-eq d p ks (e ∷ entries) coverage = elim (Bool-cases (is_forgotten d ks e)) [
  | inl h ↦ rw (h, keep_forgotten-eq d p ks entries)
  | inr h ↦ rw (h, keep_forgotten-eq d p ks entries)
]

diff_mutants-eq :
    (d : IncrementalDiffer) (p : Prepared) (ms : List Mutant) (s : Statistics)
    → (diff_mutants d p ms s).0 ≡ map (λ m. (diff_mutant d p m).0) ms
unfolding diff_mutants
diff_mutants-eq d p [] s = refl
diff_mutants-eq d p (m ∷ ms) s =
    ap (λ rest. (diff_mutant d p m).0 ∷ rest) (diff_mutants-eq d p ms (count_mutant d p m s))

-- The result has the current mutants in their order, then the old results of mutants that are
-- neither among the current ones nor in a place that this run mutates.
pub diff-mutants :
    (d : IncrementalDiffer) (ms : List Mutant) (coverage : TestCoverage)
    (report : IncrementalReport)
    → (diff d ms coverage report).mutants
      ≡ map (λ m. (diff_mutant d (prepared d coverage report) m).0) ms
        ++ map (forgotten_mutant d (prepared d coverage report)) (forgotten d ms coverage report)
unfolding diff
diff-mutants d ms coverage report =
    let p = prepared d coverage report in
    rw (
      diff_mutants-eq d p ms (prepare d coverage report).1.0,
      keep_forgotten-eq d p (key_set_of d ms []) p.reusable p.coverage,
    )

diff_mutant-id :
    (d : IncrementalDiffer) (p : Prepared) (m : Mutant) → (diff_mutant d p m).0.id ≡ m.id
unfolding diff_mutant
diff_mutant-id d p m = ground arith

map-append :
    (xs ys : List Mutant) → map (λ m. m.id) (xs ++ ys) ≡ map (λ m. m.id) xs ++ map (λ m. m.id) ys
map-append [] ys = refl
map-append (x ∷ xs) ys = ap (λ rest. x.id ∷ rest) (map-append xs ys)

ids_current :
    (d : IncrementalDiffer) (p : Prepared) (ms : List Mutant)
    → map (λ m. m.id) (map (λ m. (diff_mutant d p m).0) ms) ≡ map (λ m. m.id) ms
ids_current d p [] = refl
ids_current d p (m ∷ ms) = rw (diff_mutant-id d p m, ids_current d p ms)

ids_forgotten :
    (d : IncrementalDiffer) (p : Prepared) (es : List (String × Reusable))
    → map (λ m. m.id) (map (forgotten_mutant d p) es) ≡ map (λ e. e.0) es
unfolding forgotten_mutant
ids_forgotten d p [] = refl
ids_forgotten d p ((k, r) ∷ es) = ap (λ rest. k ∷ rest) (ids_forgotten d p es)

-- The ids of the result are those of the current mutants, in their order, and then the identifying
-- keys of the forgotten ones.
pub diff-ids :
    (d : IncrementalDiffer) (ms : List Mutant) (coverage : TestCoverage)
    (report : IncrementalReport)
    → map (λ m. m.id) (diff d ms coverage report).mutants
      ≡ map (λ m. m.id) ms ++ map (λ e. e.0) (forgotten d ms coverage report)
diff-ids d ms coverage report =
    let p = prepared d coverage report in
    rw (
      diff-mutants d ms coverage report,
      map-append (map (λ m. (diff_mutant d p m).0) ms)
          (map (forgotten_mutant d p) (forgotten d ms coverage report)),
      ids_current d p ms,
      ids_forgotten d p (forgotten d ms coverage report),
    )

-- The mutant has a status, or retesting is forced.
abbrev pub is_decided : IncrementalDiffer → Mutant → Bool
is_decided d m = elim m.status [ none ↦ d.force | some _ ↦ true ]

diff_mutant-decided :
    (d : IncrementalDiffer) (p : Prepared) (m : Mutant)
    → is_decided d m ≡ true
    → (diff_mutant d p m).0 ≡ m
unfolding diff_mutant
diff_mutant-decided d p m h = let still : is_pending d m ≡ false = ground (arith, h) in rw still

map-append-cons {ℓ κ} :
    {A : Type ℓ} {B : Type κ} (f : A → B) (xs : List A) (y : A) (ys : List A) (zs : List B)
    → map f (xs ++ y ∷ ys) ++ zs ≡ map f xs ++ f y ∷ (map f ys ++ zs)
map-append-cons f [] y ys zs = refl
map-append-cons f (x ∷ xs) y ys zs = ap (λ rest. f x ∷ rest) (map-append-cons f xs y ys zs)

-- A mutant that has a status already, or any mutant if retesting is forced, is handed on as it is and in
-- its place, behind the mutants of the same ids as those that are before it, whatever the earlier run
-- has found.
pub diff-decided :
    (d : IncrementalDiffer) (before : List Mutant) (m : Mutant) (after : List Mutant)
    (coverage : TestCoverage) (report : IncrementalReport)
    → is_decided d m ≡ true
    → (xs ys : List Mutant) × ((diff d (before ++ m ∷ after) coverage report).mutants
        ≡ xs ++ m ∷ ys)
      × (map (λ x. x.id) xs ≡ map (λ x. x.id) before)
diff-decided d before m after coverage report h =
    let p = prepared d coverage report in
    let rest = map (forgotten_mutant d p) (forgotten d (before ++ m ∷ after) coverage report) in
    let handed_on : Mutant → Mutant = λ x. (diff_mutant d p x).0 in
    let xs = map handed_on before in
    let ys = map handed_on after ++ rest in
    (
      xs,
      ys,
      diff-mutants d (before ++ m ∷ after) coverage report
          ∙ map-append-cons handed_on before m after rest
          ∙ ap (λ x. xs ++ x ∷ ys) (diff_mutant-decided d p m h),
      ids_current d p before,
    )
