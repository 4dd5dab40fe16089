-- ===== src/Coverage/Laws.antt =====
-- What `testCoverageFrom` makes of a dry run's coverage.
use isep_mutation_levels.Prelude.{
  ℕ, ◌+◌, ◌≡◌, refl, ap, ◌∙◌, String, Bool, true, false, ◌&&◌, ◌||◌, List, [], ◌∷◌, ◌++◌, map,
  Option, none, some, inl, inr, lookup, insert, lookup-insert, any, ltb, ◌=s=◌, eq_iff, or_else,
  if◌then◌else◌, arith, Bool-cases,
}
use isep_mutation_levels.Coverage.Defs.{
  TestResult, CoverageData, MutantCoverage, CompleteDryRunResult, add_result, tests_by_id_from,
  cover_by, ByMutant, tests_by_mutant_id_from, count_hits, count_all_hits, test_coverage_from,
}

-- The hits of a mutant in a coverage report.
abbrev pub hits_in : String → CoverageData → ℕ
hits_in m [] = 0
hits_in m ((mutant, count) ∷ coverage) =
    if mutant =s= m then count + hits_in m coverage else hits_in m coverage

abbrev pub all_hits_in : String → List CoverageData → ℕ
all_hits_in m [] = 0
all_hits_in m (coverage ∷ rest) = hits_in m coverage + all_hits_in m rest

abbrev pub hits : String → CoverageData → ℕ
hits m acc = or_else (lookup m acc) 0

hits-insert :
    (m k : String) (count : ℕ) (acc : CoverageData)
    → hits m (insert k (hits k acc + count) acc)
      ≡ (if k =s= m then hits m acc + count else hits m acc)
hits-insert m k count acc = elim (Bool-cases (k =s= m)) [
  | inl e ↦ rw (lookup-insert m k (hits k acc + count) acc, e, (eq_iff k m).0 e)
  | inr e ↦ rw (lookup-insert m k (hits k acc + count) acc, e)
]

hits-count_hits :
    (m : String) (coverage acc : CoverageData)
    → hits m (count_hits coverage acc) ≡ hits m acc + hits_in m coverage
unfolding count_hits
hits-count_hits m [] acc = omega arith
hits-count_hits m ((mutant, count) ∷ coverage) acc =
    hits-count_hits m coverage (insert mutant (hits mutant acc + count) acc)
    ∙ rw (hits-insert m mutant count acc) (ground arith)

hits-count_all_hits :
    (m : String) (coverages : List CoverageData) (acc : CoverageData)
    → hits m (count_all_hits coverages acc) ≡ hits m acc + all_hits_in m coverages
unfolding count_all_hits
hits-count_all_hits m [] acc = omega arith
hits-count_all_hits m (coverage ∷ rest) acc =
    omega
      (arith, hits-count_all_hits m rest (count_hits coverage acc), hits-count_hits m coverage acc)

-- With coverage reported, the hit count of a mutant is the sum of its hits outside of tests and of
-- its hits in every test.
pub test_coverage_from-hits :
    (r : CompleteDryRunResult) (c : MutantCoverage) (m : String)
    → r.mutant_coverage ≡ some c
    → hits m (test_coverage_from r).hits_by_mutant_id
      ≡ hits_in m c.static + all_hits_in m (map (λ e. e.1) c.per_test)
unfolding test_coverage_from
test_coverage_from-hits r c m h =
    rw (h, test_coverage_from)
      (omega (arith, hits-count_all_hits m (c.static ∷ map (λ e. e.1) c.per_test) []))

-- The test with the id is among those that cover the mutant.
abbrev pub covers : ByMutant → String → String → Bool
covers acc m id = any (λ s. s.id =s= id) (or_else (lookup m acc) [])

-- The report of one test counts the mutant at least once.
abbrev pub reaches : String → CoverageData → Bool
reaches m coverage = any (λ e. (e.0 =s= m) && ltb 0 e.1) coverage

any-append :
    (p : TestResult → Bool) (xs ys : List TestResult) → any p (xs ++ ys) ≡ (any p xs || any p ys)
any-append p [] ys = refl
any-append p (x ∷ xs) ys = ground (arith, any-append p xs ys)

any-same :
    (id id' : String) (ts : List TestResult)
    → (id =s= id') ≡ true
    → any (λ s. s.id =s= id) ts ≡ any (λ s. s.id =s= id') ts
any-same id id' ts e = rw ((eq_iff id id').0 e)

-- A test that is there adds nothing.
absorb :
    (t : TestResult) (id : String) (ts : List TestResult)
    → any (λ s. s.id =s= t.id) ts ≡ true
    → any (λ s. s.id =s= id) ts ≡ (any (λ s. s.id =s= id) ts || (t.id =s= id))
absorb t id ts e = elim (Bool-cases (t.id =s= id)) [
  | inl same ↦ rw (same, ← any-same t.id id ts same, e)
  | inr other ↦ rw other (ground arith)
]

regroup : (a t x y : Bool) → ((a || (t && x)) || (t && y)) ≡ (a || (t && (x || y)))
regroup a t x y = ground arith

has-add_result :
    (id : String) (t : TestResult) (ts : List TestResult)
    → any (λ s. s.id =s= id) (add_result t ts) ≡ (any (λ s. s.id =s= id) ts || (t.id =s= id))
has-add_result id t ts = elim (Bool-cases (any (λ s. s.id =s= t.id) ts)) [
  | inl e ↦ rw e (absorb t id ts e)
  | inr e ↦ rw (e, any-append (λ s. s.id =s= id) ts (t ∷ [])) (ground arith)
]

covers-insert :
    (k m id : String) (ts : List TestResult) (acc : ByMutant)
    → covers (insert k ts acc) m id
      ≡ (if k =s= m then any (λ s. s.id =s= id) ts else covers acc m id)
covers-insert k m id ts acc =
    rw (lookup-insert m k ts acc)
      (elim (k =s= m)
        as (λ b.
          any (λ s. s.id =s= id) (or_else (if b then some ts else lookup m acc) [])
          ≡ (if b then any (λ s. s.id =s= id) ts else covers acc m id)) [
            | true ↦ refl
            | false ↦ refl
          ])

step_cover :
    (k m id : String) (count : ℕ) (t : TestResult) (acc : ByMutant)
    → covers
        (if ltb 0 count then insert k (add_result t (or_else (lookup k acc) [])) acc else acc)
        m
        id
      ≡ (covers acc m id || ((t.id =s= id) && ((k =s= m) && ltb 0 count)))
step_cover k m id count t acc = elim (Bool-cases (ltb 0 count)) [
  | inr e ↦ rw e (ground arith)
  | inl e ↦
      rw (e, covers-insert k m id (add_result t (or_else (lookup k acc) [])) acc)
        (elim (Bool-cases (k =s= m)) [
          | inl same ↦
              rw (same, has-add_result id t (or_else (lookup k acc) []), (eq_iff k m).0 same)
                (ground arith)
          | inr other ↦ rw other (ground arith)
        ])
]

covers-cover_by :
    (t : TestResult) (coverage : CoverageData) (acc : ByMutant) (m id : String)
    → covers (cover_by t coverage acc) m id
      ≡ (covers acc m id || ((t.id =s= id) && reaches m coverage))
unfolding cover_by
covers-cover_by t [] acc m id = ground arith
covers-cover_by t ((k, count) ∷ coverage) acc m id =
    covers-cover_by t coverage _ m id
    ∙ rw (step_cover k m id count t acc) (regroup (covers acc m id) (t.id =s= id) _ _)

-- The dry run knows the id as that of a test.
abbrev pub is_known : List (String × TestResult) → String → Bool
is_known by_id id = elim (lookup id by_id) [ none ↦ false | some _ ↦ true ]

-- The report of the test with the id counts the mutant.
abbrev pub reported : List (String × CoverageData) → String → String → Bool
reported per_test m id = any (λ e. (e.0 =s= id) && reaches m e.1) per_test

-- Each result stands under its own id.
abbrev WellKeyed : List (String × TestResult) → Type 0
WellKeyed by_id = (id : String) (t : TestResult) → lookup id by_id ≡ some t → t.id ≡ id

WellKeyed-insert :
    (t : TestResult) (acc : List (String × TestResult))
    → WellKeyed acc
    → WellKeyed (insert t.id t acc)
WellKeyed-insert t acc w id u h = elim (Bool-cases (t.id =s= id)) [
  | inl e ↦ ground (arith, rw (lookup-insert id t.id t acc, e) at h, (eq_iff t.id id).0 e)
  | inr e ↦ w id u (rw (lookup-insert id t.id t acc, e) at h)
]

tests_by_id-WellKeyed :
    (ts : List TestResult) (acc : List (String × TestResult))
    → WellKeyed acc
    → WellKeyed (tests_by_id_from ts acc)
unfolding tests_by_id_from
tests_by_id-WellKeyed [] acc w = w
tests_by_id-WellKeyed (t ∷ ts) acc w =
    tests_by_id-WellKeyed ts (insert t.id t acc) (WellKeyed-insert t acc w)

||_move : (a k x y : Bool) → ((a || (k && x)) || (k && y)) ≡ (a || (k && (x || y)))
||_move a k x y = ground arith

is_known_of :
    (by_id : List (String × TestResult)) (k id : String) {found : Option TestResult}
    → (k =s= id) ≡ true
    → lookup k by_id ≡ found
    → lookup id by_id ≡ found
is_known_of by_id k id same e = rw (← (eq_iff k id).0 same) e

unknown :
    (by_id : List (String × TestResult)) (k id : String) (b : Bool)
    → lookup k by_id ≡ none
    → (is_known by_id id && ((k =s= id) && b)) ≡ false
unknown by_id k id b e = elim (Bool-cases (k =s= id)) [
  | inl same ↦ rw (same, is_known_of by_id k id same e, is_known)
  | inr other ↦ rw other (ground arith)
]

known :
    (by_id : List (String × TestResult)) (k id : String) (b : Bool) {t : TestResult}
    → lookup k by_id ≡ some t
    → ((k =s= id) && b) ≡ (is_known by_id id && ((k =s= id) && b))
known by_id k id b e = elim (Bool-cases (k =s= id)) [
  | inl same ↦ rw (same, is_known_of by_id k id same e, is_known)
  | inr other ↦ rw other (ground arith)
]

covers-tests_by_mutant_id :
    (by_id : List (String × TestResult)) (per_test : List (String × CoverageData)) (acc : ByMutant)
    (m id : String)
    → WellKeyed by_id
    → covers (tests_by_mutant_id_from by_id per_test acc) m id
      ≡ (covers acc m id || (is_known by_id id && reported per_test m id))
unfolding tests_by_mutant_id_from
covers-tests_by_mutant_id by_id [] acc m id w = ground arith
covers-tests_by_mutant_id by_id ((test_id, coverage) ∷ per_test) acc m id w =
    covers-tests_by_mutant_id by_id per_test _ m id w
    ∙ rw (step_test (lookup test_id by_id) refl) (||_move (covers acc m id) (is_known by_id id) _ _)
  where
    step_test :
        (found : Option TestResult)
        → lookup test_id by_id ≡ found
        → covers
            (elim (lookup test_id by_id) [ none ↦ acc | some t ↦ cover_by t coverage acc ])
            m
            id
          ≡ (covers acc m id || (is_known by_id id && ((test_id =s= id) && reaches m coverage)))
    step_test none e = rw (e, unknown by_id test_id id (reaches m coverage) e) (ground arith)
    step_test (some t) e =
        rw (e, covers-cover_by t coverage acc m id, w test_id t e)
          (ap (λ b. covers acc m id || b) (known by_id test_id id (reaches m coverage) {t = t} e))

-- With coverage reported, the tests kept for a mutant are those that the dry run knows and whose
-- own report counts the mutant at least once.
pub test_coverage_from-covers :
    (r : CompleteDryRunResult) (c : MutantCoverage) (m id : String)
    → r.mutant_coverage ≡ some c
    → covers (test_coverage_from r).tests_by_mutant_id m id
      ≡ (is_known (test_coverage_from r).tests_by_id id && reported c.per_test m id)
unfolding test_coverage_from
test_coverage_from-covers r c m id h =
    rw (h, test_coverage_from)
      (covers-tests_by_mutant_id (tests_by_id_from r.tests []) c.per_test [] m id
        (tests_by_id-WellKeyed r.tests [] (λ k t e. ground arith)))
