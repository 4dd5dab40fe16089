-- ===== src/Executor/Answers.antt =====
-- The answers that the facade accepts, counted.
use isep_mutation_levels.Prelude.{
  ℕ, suc, ◌+◌, ◌≤◌, ◌≡◌, refl, ap, subst, ◌∙◌, String, Bool, true, false, not, ◌&&◌, ◌||◌, List, [],
  ◌∷◌, map, none, some, length, elem, lookup, insert, lookup-insert, keys, ltb, arith, eq_iff,
  eq_refl, ◌=s=◌, if◌then◌else◌, Bool-cases, Option-cases, inl, inr,
}
use mathlib.Core.Option.{some_inj}
use isep_mutation_levels.Executor.Report.{CheckResult}
use isep_mutation_levels.Executor.Execute.{RunPlan}
use isep_mutation_levels.Executor.Results.{one_if, run_count, answer_count}
use isep_mutation_levels.Executor.Facade.{to_map, plans_of, facade_check}

abbrev pub distinct : List String → Bool
distinct [] = true
distinct (x ∷ xs) = not (elem x xs) && distinct xs

abbrev pub id_count : (String → Bool) → List String → ℕ
id_count p [] = 0
id_count p (x ∷ xs) = one_if (p x) + id_count p xs

abbrev without : String → List String → List String
without x [] = []
without x (y ∷ ys) = if y =s= x then ys else y ∷ without x ys

count-without :
    (p : String → Bool) (x : String) (ys : List String)
    → elem x ys ≡ true
    → id_count p ys ≡ one_if (p x) + id_count p (without x ys)
count-without p x [] h = cc
count-without p x (y ∷ ys) h = elim (Bool-cases (y =s= x)) [
  | inl e ↦ rw (e, (eq_iff y x).0 e)
  | inr e ↦ rw e (omega (arith, count-without p x ys (rw e at h)))
]

length-without :
    (x : String) (ys : List String) → elem x ys ≡ true → suc (length (without x ys)) ≡ length ys
length-without x [] h = cc
length-without x (y ∷ ys) h = ground (arith, length-without x ys, h)

elem-without :
    (x z : String) (ys : List String)
    → (x =s= z) ≡ false
    → elem z ys ≡ true
    → elem z (without x ys) ≡ true
elem-without x z [] d h = h
elem-without x z (y ∷ ys) d h =
    ground (arith, elem-without x z ys d, d, h, eq_iff y x, eq_iff x z, eq_iff y z)

-- Different ids that are all among others, and are no fewer, are the same ids.
pigeonhole :
    (p : String → Bool) (xs ys : List String)
    → distinct xs ≡ true
    → ((z : String) → elem z xs ≡ true → elem z ys ≡ true)
    → length ys ≤ length xs
    → id_count p xs ≡ id_count p ys
pigeonhole p [] [] d within enough = refl
pigeonhole p [] (y ∷ ys) d within enough = omega arith
pigeonhole p (x ∷ xs) ys d within enough =
    let there = within x (rw (eq_refl x)) in
    omega (
      arith,
      count-without p x ys there,
      pigeonhole p xs (without x ys) (ground (arith, d))
          (λ z h.
            elem-without x z ys (ground (arith, h, d, eq_iff x z)) (within z (ground (arith, h))))
          (omega (arith, enough, length-without x ys there)),
    )

abbrev ids_of : List RunPlan → List String
ids_of rs = map (λ r. r.0.id) rs

abbrev is_known : String → List (String × RunPlan) → Bool
is_known id by_id = elim (lookup id by_id) [ none ↦ false | some _ ↦ true ]

-- Each plan stands under its own id.
abbrev WellKeyed : List (String × RunPlan) → Type 0
WellKeyed by_id = (id : String) (r : RunPlan) → lookup id by_id ≡ some r → r.0.id ≡ id

WellKeyed-insert :
    (r : RunPlan) (acc : List (String × RunPlan)) → WellKeyed acc → WellKeyed (insert r.0.id r acc)
WellKeyed-insert r acc w id s h = elim (Bool-cases (r.0.id =s= id)) [
  | inl e ↦
      subst (λ x. x.0.id ≡ id) (some_inj.0 (rw (lookup-insert id r.0.id r acc, e) at h))
        ((eq_iff r.0.id id).0 e)
  | inr e ↦ w id s (rw (lookup-insert id r.0.id r acc, e) at h)
]

to_map-WellKeyed :
    (rs : List RunPlan) (acc : List (String × RunPlan)) → WellKeyed acc → WellKeyed (to_map rs acc)
unfolding to_map
to_map-WellKeyed [] acc w = w
to_map-WellKeyed (r ∷ rs) acc w =
    to_map-WellKeyed rs (insert r.0.id r acc) (WellKeyed-insert r acc w)

known-to_map :
    (id : String) (rs : List RunPlan) (acc : List (String × RunPlan))
    → is_known id (to_map rs acc) ≡ (elem id (ids_of rs) || is_known id acc)
unfolding to_map
known-to_map id [] acc = refl
known-to_map id (r ∷ rs) acc =
    known-to_map id rs (insert r.0.id r acc) ∙ elim (Bool-cases (r.0.id =s= id)) [
      | inl e ↦ rw (is_known, lookup-insert id r.0.id r acc, e) (ground arith)
      | inr e ↦ rw (is_known, lookup-insert id r.0.id r acc, e)
    ]

no_error : {A : Type 0} {a : A} → none ≡ some a → ⊥
no_error h = cc

-- What the answers for known ids are.
record IsAnswer (by_id : List (String × RunPlan)) (inner : List (String × CheckResult))
    (results : List (RunPlan × CheckResult)) : Type 0 where
  counted : (p : String → Bool) → answer_count p results ≡ id_count p (keys inner)
  as_many : length results ≡ length (keys inner)
  all_known : (z : String) → elem z (keys inner) ≡ true → is_known z by_id ≡ true

plans_of-IsAnswer :
    (by_id : List (String × RunPlan)) (inner : List (String × CheckResult))
    (results : List (RunPlan × CheckResult))
    → WellKeyed by_id
    → plans_of by_id inner ≡ some results
    → IsAnswer by_id inner results
unfolding plans_of
plans_of-IsAnswer by_id [] results w h =
    subst (IsAnswer by_id []) (some_inj.0 h)
      (record { counted = λ p. refl; as_many = refl; all_known = λ z there. cc })
plans_of-IsAnswer by_id ((id, answer) ∷ inner) results w h = elim (Option-cases (lookup id by_id)) [
  | inl e ↦ elim (no_error (rw (e, plans_of) at h)) [ ]
  | inr (plan, e) ↦ elim (Option-cases (plans_of by_id inner)) [
    | inl f ↦ elim (no_error (rw (e, f, plans_of) at h)) [ ]
    | inr (rest, f) ↦
        let known = plans_of-IsAnswer by_id inner rest w f in
        subst (IsAnswer by_id ((id, answer) ∷ inner)) (some_inj.0 (rw (e, f, plans_of) at h))
          (record {
            counted = λ p. rw (w id plan e, known.counted p);
            as_many = ap suc known.as_many;
            all_known = λ z there. elim (Bool-cases (id =s= z)) [
              | inl same ↦
                  subst (λ x. is_known x by_id ≡ true) ((eq_iff id z).0 same) (rw (is_known, e))
              | inr other ↦ known.all_known z (rw other at there)
            ];
          })
  ]
]

run-ids : (p : String → Bool) (rs : List RunPlan) → run_count p rs ≡ id_count p (ids_of rs)
run-ids p [] = refl
run-ids p (r ∷ rs) = ap (λ n. one_if (p r.0.id) + n) (run-ids p rs)

length-ids : (rs : List RunPlan) → length (ids_of rs) ≡ length rs
length-ids [] = refl
length-ids (r ∷ rs) = ap suc (length-ids rs)

-- If a checker answers at most once for each id, as the keys of an object do, and the facade accepts
-- the answers, then it hands on exactly one for each plan: of any kind of id there are as many
-- answers as plans.
pub facade_check-answers :
    (p : String → Bool) (inner : List (String × CheckResult)) (plans : List RunPlan)
    (results : List (RunPlan × CheckResult))
    → distinct (keys inner) ≡ true
    → facade_check inner plans ≡ some results
    → answer_count p results ≡ run_count p plans
unfolding facade_check
facade_check-answers p inner plans results once h =
    elim (Option-cases (plans_of (to_map plans []) inner)) [
      | inl e ↦ elim (no_error (rw (e, facade_check) at h)) [ ]
      | inr (found, e) ↦ elim (Bool-cases (ltb (length found) (length plans))) [
        | inl less ↦ elim (no_error (rw (e, facade_check, less) at h)) [ ]
        | inr enough ↦
            let known =
              plans_of-IsAnswer (to_map plans []) inner found
                (to_map-WellKeyed plans [] (λ id r there. elim (no_error there) [ ])) e in
            subst (λ found. answer_count p found ≡ run_count p plans)
              (some_inj.0 (rw (e, facade_check, enough) at h))
              (omega (
                arith,
                known.counted p,
                run-ids p plans,
                pigeonhole p (keys inner) (ids_of plans) once
                    (λ z there. ground (arith, known.all_known z there, known-to_map z plans []))
                    (ground (arith, enough, known.as_many, length-ids plans)),
              ))
      ]
    ]
