-- ===== src/Differ/Decisions.antt =====
-- What `diffTestCoverage` finds of each test, and which results that makes reusable.
use isep_mutation_levels.Prelude.{
  ◌≡◌, refl, ◌∙◌, String, Bool, true, not, ◌&&◌, ◌||◌, List, [], ◌∷◌, Option, none, some, inl, inr,
  any, all, elem, lookup, insert, lookup-insert, ◌=s=◌, eq_iff, or_else, if◌then◌else◌, arith,
  Bool-cases,
}
use isep_mutation_levels.Api.{MutantStatus}
use isep_mutation_levels.Differ.Reuse.{
  DiffAction, added, removed, same, Actions, is_same, is_added, is_there, mark_new, mark_old,
  diff_test_coverage, is_ignored, is_killed, mutant_can_be_reused,
}

abbrev pub new_action : List String → String → DiffAction
new_action old key = if elem key old then same else added

-- Texts that are equal have the same action.
new_action-same :
    (old : List String) (j k : String) → (j =s= k) ≡ true → new_action old j ≡ new_action old k
new_action-same old j k e = rw ((eq_iff j k).0 e)

lookup-mark_new :
    (old new : List String) (acc : Actions) (k : String)
    → lookup k (mark_new old new acc)
      ≡ (if elem k new then some (new_action old k) else lookup k acc)
unfolding mark_new
lookup-mark_new old [] acc k = refl
lookup-mark_new old (j ∷ new) acc k =
    lookup-mark_new old new (insert j (new_action old j) acc) k ∙ elim (Bool-cases (j =s= k)) [
      | inl e ↦
          rw (lookup-insert k j (new_action old j) acc, e, new_action-same old j k e) (ground arith)
      | inr e ↦ rw (lookup-insert k j (new_action old j) acc, e)
    ]

abbrev pub old_action : Bool → List String → String → DiffAction
old_action is_static new_test_keys key =
    if is_static && elem key new_test_keys then same else removed

old_action-same :
    (is_static : Bool) (ks : List String) (j k : String)
    → (j =s= k) ≡ true
    → old_action is_static ks j ≡ old_action is_static ks k
old_action-same is_static ks j k e = rw ((eq_iff j k).0 e)

lookup-same : (acc : Actions) (j k : String) → (j =s= k) ≡ true → lookup j acc ≡ lookup k acc
lookup-same acc j k e = rw ((eq_iff j k).0 e)

lookup-mark_old :
    (is_static : Bool) (ks old : List String) (acc : Actions) (k : String)
    → lookup k (mark_old is_static ks old acc) ≡ (
        if is_there (lookup k acc)
        then lookup k acc
        else if elem k old
        then some (old_action is_static ks k)
        else none)
unfolding mark_old
lookup-mark_old is_static ks [] acc k = ground arith
lookup-mark_old is_static ks (j ∷ old) acc k = elim (Bool-cases (is_there (lookup j acc))) [
  | inl h ↦ rw (h, lookup-mark_old is_static ks old acc k) (ground (arith, lookup-same acc j k))
  | inr h ↦
      rw
        (
          h,
          lookup-mark_old is_static ks old (insert j (old_action is_static ks j) acc) k,
          lookup-insert k j (old_action is_static ks j) acc,
        )
        (ground (arith, lookup-same acc j k, old_action-same is_static ks j k))
]

-- A test that covers the mutant now is the same if it covered it before and added otherwise; one
-- that only covered it before is the same if the mutant is static and the test is still there,
-- and removed otherwise; of any other test nothing is said.
pub diff_test_coverage-lookup :
    (is_static : Bool) (ks : List String) (old new : Option (List String)) (k : String)
    → lookup k (diff_test_coverage is_static ks old new) ≡ (
        if elem k (or_else new [])
        then some (if elem k (or_else old []) then same else added)
        else if elem k (or_else old [])
        then some (if is_static && elem k ks then same else removed)
        else none)
unfolding diff_test_coverage
diff_test_coverage-lookup is_static ks old new k =
    lookup-mark_old is_static ks (or_else old []) (mark_new (or_else old []) (or_else new []) []) k
    ∙ rw (lookup-mark_new (or_else old []) (or_else new []) [] k) (ground arith)

abbrev any_added : Actions → Bool
any_added acc = any (λ e. is_added e.1) acc

any_added-insert :
    (k : String) (v : DiffAction) (acc : Actions)
    → (is_there (lookup k acc) ≡ true → lookup k acc ≡ some v)
    → any_added (insert k v acc) ≡ (is_added v || any_added acc)
any_added-insert k v [] h = refl
any_added-insert k v ((j, w) ∷ acc) h = elim (Bool-cases (j =s= k)) [
  | inl e ↦ ground (arith, h)
  | inr e ↦ rw e (ground (arith, any_added-insert k v acc (rw e at h)))
]

-- Each action is the one that the old keys say.
abbrev Agrees : List String → Actions → Type 0
Agrees old acc =
    (k : String) → is_there (lookup k acc) ≡ true → lookup k acc ≡ some (new_action old k)

Agrees-insert :
    (old : List String) (j : String) (acc : Actions)
    → Agrees old acc
    → Agrees old (insert j (new_action old j) acc)
Agrees-insert old j acc h k there = elim (Bool-cases (j =s= k)) [
  | inl e ↦ rw (lookup-insert k j (new_action old j) acc, e, new_action-same old j k e)
  | inr e ↦
      rw (lookup-insert k j (new_action old j) acc, e)
        (h k (rw (lookup-insert k j (new_action old j) acc, e) at there))
]

any_added-mark_new :
    (old new : List String) (acc : Actions)
    → Agrees old acc
    → any_added (mark_new old new acc) ≡ (any_added acc || not (all (λ k. elem k old) new))
unfolding mark_new
any_added-mark_new old [] acc h = ground arith
any_added-mark_new old (j ∷ new) acc h =
    any_added-mark_new old new (insert j (new_action old j) acc) (Agrees-insert old j acc h)
    ∙ rw (any_added-insert j (new_action old j) acc (h j)) (ground arith)

any_added-mark_old :
    (is_static : Bool) (ks old : List String) (acc : Actions)
    → any_added (mark_old is_static ks old acc) ≡ any_added acc
unfolding mark_old
any_added-mark_old is_static ks [] acc = refl
any_added-mark_old is_static ks (j ∷ old) acc = elim (Bool-cases (is_there (lookup j acc))) [
  | inl h ↦ rw h (any_added-mark_old is_static ks old acc)
  | inr h ↦
      rw h (any_added-mark_old is_static ks old (insert j (old_action is_static ks j) acc))
      ∙ any_added-insert j (old_action is_static ks j) acc (λ there. cc)
      ∙ ground arith
]

-- The test covered the mutant and still does, or the mutant is static and the test still there.
abbrev pub unchanged : Bool → List String → List String → List String → String → Bool
unchanged is_static ks old new k = elem k old && (elem k new || (is_static && elem k ks))

unchanged_eq :
    (is_static : Bool) (ks : List String) (old new : Option (List String)) (k : String)
    → is_same (lookup k (diff_test_coverage is_static ks old new))
      ≡ unchanged is_static ks (or_else old []) (or_else new []) k
unchanged_eq is_static ks old new k =
    rw (diff_test_coverage-lookup is_static ks old new k) (ground arith)

any-eq : (p q : String → Bool) (xs : List String) → ((k : String) → p k ≡ q k) → any p xs ≡ any q xs
any-eq p q [] h = refl
any-eq p q (x ∷ xs) h = rw (h x, any-eq p q xs h)

any_added-diff :
    (is_static : Bool) (ks : List String) (old new : Option (List String))
    → any_added (diff_test_coverage is_static ks old new)
      ≡ not (all (λ k. elem k (or_else old [])) (or_else new []))
unfolding diff_test_coverage
any_added-diff is_static ks old new =
    any_added-mark_old is_static ks (or_else old []) _
    ∙ any_added-mark_new (or_else old []) (or_else new []) [] (λ k there. ground arith)

-- Without coverage every old result is reused. With coverage it is reused exactly if the mutant
-- was not ignored and, where it was killed, one of the tests that killed it is unchanged, and
-- where it was not killed, every test that covers it now covered it before.
pub mutant_can_be_reused-diff :
    (has_coverage is_static : Bool) (status : MutantStatus) (ks : List String)
    (old new killing : Option (List String))
    → mutant_can_be_reused has_coverage status (diff_test_coverage is_static ks old new) killing ≡ (
        not has_coverage
        || (not (is_ignored status)
            && (if is_killed status
                then any
                    (unchanged is_static ks (or_else old []) (or_else new []))
                    (or_else killing [])
                else all (λ k. elem k (or_else old [])) (or_else new []))))
unfolding mutant_can_be_reused
mutant_can_be_reused-diff has_coverage is_static status ks old new killing =
    rw
      (
        any-eq _ _ (or_else killing []) (unchanged_eq is_static ks old new),
        any_added-diff is_static ks old new,
      )
      (ground arith)
