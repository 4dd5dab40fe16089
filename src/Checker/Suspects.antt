-- ===== src/Checker/Suspects.antt =====
-- typescript-checker.ts: the sets of mutants, which are told apart by their ids.
use isep_mutation_levels.Prelude.{
  ◌≡◌, refl, String, Bool, true, false, not, ◌||◌, all, List, [], ◌∷◌, ◌++◌, inl, inr, Bool-cases,
  arith, eq_iff, All, All-append,
}
use isep_mutation_levels.Api.{Mutant}
use isep_mutation_levels.Checker.Check.{has_mutant, add_mutant, add_mutants}

has_mutant-append :
    (id : String) (a b : List Mutant)
    → has_mutant id (a ++ b) ≡ (has_mutant id a || has_mutant id b)
has_mutant-append id [] b = refl
has_mutant-append id (x ∷ a) b = ground (arith, has_mutant-append id a b)

pub has_mutant-add_mutants :
    (id : String) (ms s : List Mutant)
    → has_mutant id (add_mutants ms s) ≡ (has_mutant id s || has_mutant id ms)
unfolding add_mutants add_mutant
has_mutant-add_mutants id [] s = ground arith
has_mutant-add_mutants id (m ∷ ms) s = ground (
  arith,
  has_mutant-add_mutants id ms (add_mutant m s),
  has_mutant-append id s (m ∷ []),
  eq_iff m.id id,
)

-- None of the mutants is among those of before.
abbrev pub unseen : (before mutants : List Mutant) → Bool
unseen before mutants = all (λ m. not (has_mutant m.id before)) mutants

-- No two of the mutants have one id.
abbrev pub Distinct : List Mutant → Type 0
Distinct [] = Unit {0}
Distinct (m ∷ ms) = (unseen (m ∷ []) ms ≡ true) × Distinct ms

unseen-snoc :
    (before ms : List Mutant) (m : Mutant)
    → unseen before ms ≡ true
    → has_mutant m.id before ≡ false
    → unseen before (ms ++ m ∷ []) ≡ true
unseen-snoc before [] m h new = ground arith
unseen-snoc before (x ∷ ms) m h new = ground (arith, unseen-snoc before ms m)

Distinct-snoc :
    (s : List Mutant) (m : Mutant) → Distinct s → has_mutant m.id s ≡ false → Distinct (s ++ m ∷ [])
Distinct-snoc [] m d new = (refl, tt)
Distinct-snoc (x ∷ s) m d new =
    (unseen-snoc (x ∷ []) s m d.0 (ground arith), Distinct-snoc s m d.1 (ground arith))

-- A set of mutants stays one.
pub Distinct-add_mutants : (ms s : List Mutant) → Distinct s → Distinct (add_mutants ms s)
unfolding add_mutants add_mutant
Distinct-add_mutants [] s d = d
Distinct-add_mutants (m ∷ ms) s d = elim (Bool-cases (has_mutant m.id s)) [
  | inl old ↦ rw old (Distinct-add_mutants ms s d)
  | inr new ↦ rw new (Distinct-add_mutants ms (s ++ m ∷ []) (Distinct-snoc s m d new))
]

module _ (P : Mutant → Type 0) where
  pub All-add_mutants : (ms s : List Mutant) → All P ms → All P s → All P (add_mutants ms s)
  unfolding add_mutants add_mutant
  All-add_mutants [] s hm hs = hs
  All-add_mutants (m ∷ ms) s hm hs = elim (Bool-cases (has_mutant m.id s)) [
    | inl old ↦ rw old (All-add_mutants ms s hm.1 hs)
    | inr new ↦
        rw new (All-add_mutants ms (s ++ m ∷ []) hm.1 (All-append P s (m ∷ []) hs (hm.0, tt)))
  ]
