-- ===== src/Concurrent/Counts.antt =====
-- How often a resource or a work item stands in the lists of packages/core/src/concurrent/pool.ts.
use isep_mutation_levels.Prelude.{
  ℕ, zero, suc, ◌+◌, ◌≤◌, ◌≡◌, refl, Bool, true, ◌&&◌, List, [], ◌∷◌, ◌++◌, some, ltb, ◌==◌,
  if◌then◌else◌, arith, length,
}
use isep_mutation_levels.Concurrent.State.{
  Answer, is_answered, answer, answer_all, remove, item_of, remove_busy, elem,
}

abbrev pub one : Bool → ℕ
one b = if b then 1 else 0

abbrev pub count : ℕ → List ℕ → ℕ
count x [] = 0
count x (y ∷ ys) = one (y == x) + count x ys

-- The tasks that a resource has, and that a work item is in.
abbrev pub uses : ℕ → List (ℕ × ℕ) → ℕ
uses r [] = 0
uses r ((s, item) ∷ busy) = one (s == r) + uses r busy

abbrev pub works : ℕ → List (ℕ × ℕ) → ℕ
works i [] = 0
works i ((s, item) ∷ busy) = one (item == i) + works i busy

abbrev pub answered : ℕ → List (ℕ × Answer) → ℕ
answered i [] = 0
answered i ((item, a) ∷ rest) = one (item == i) + answered i rest

pub count-append : (x : ℕ) (a b : List ℕ) → count x (a ++ b) ≡ count x a + count x b
count-append x [] b = omega arith
count-append x (y ∷ a) b = omega (arith, count-append x a b)

pub uses-append : (x : ℕ) (a b : List (ℕ × ℕ)) → uses x (a ++ b) ≡ uses x a + uses x b
uses-append x [] b = omega arith
uses-append x ((y, i) ∷ a) b = omega (arith, uses-append x a b)

pub works-append : (x : ℕ) (a b : List (ℕ × ℕ)) → works x (a ++ b) ≡ works x a + works x b
works-append x [] b = omega arith
works-append x ((y, i) ∷ a) b = omega (arith, works-append x a b)

pub answered-append :
    (x : ℕ) (a b : List (ℕ × Answer)) → answered x (a ++ b) ≡ answered x a + answered x b
answered-append x [] b = omega arith
answered-append x ((y, i) ∷ a) b = omega (arith, answered-append x a b)

pub count-remove :
    (x r : ℕ) (l : List ℕ) → elem r l ≡ true → count x (remove r l) + one (r == x) ≡ count x l
count-remove x r [] h = cc
count-remove x r (y ∷ l) h = ground (arith, h, count-remove x r l)

pub length-remove : (r : ℕ) (l : List ℕ) → length (remove r l) ≤ length l
length-remove r [] = omega arith
length-remove r (y ∷ l) = ground (arith, length-remove r l)

pub uses-remove_busy :
    (x r item : ℕ) (busy : List (ℕ × ℕ))
    → item_of r busy ≡ some item
    → uses x (remove_busy r busy) + one (r == x) ≡ uses x busy
uses-remove_busy x r item [] h = cc
uses-remove_busy x r item ((s, i) ∷ busy) h = ground (arith, h, uses-remove_busy x r item busy)

pub works-remove_busy :
    (x r item : ℕ) (busy : List (ℕ × ℕ))
    → item_of r busy ≡ some item
    → works x (remove_busy r busy) + one (item == x) ≡ works x busy
works-remove_busy x r item [] h = cc
works-remove_busy x r item ((s, i) ∷ busy) h = ground (arith, h, works-remove_busy x r item busy)

-- An item counts as answered if it has an answer.
pub answered-is_answered :
    (i : ℕ) (answers : List (ℕ × Answer)) → is_answered i answers ≡ ltb 0 (answered i answers)
answered-is_answered i [] = refl
answered-is_answered i ((item, a) ∷ rest) = ground (arith, answered-is_answered i rest)

pub answered-answer :
    (i item : ℕ) (a : Answer) (answers : List (ℕ × Answer))
    → answered i (answer item a answers)
      ≡ answered i answers + one ((item == i) && (answered i answers == 0))
unfolding answer
answered-answer i item a answers = ground (
  arith,
  answered-append i answers ((item, a) ∷ []),
  answered-is_answered item answers,
  answered-is_answered i answers,
)

pub answered-answer_all :
    (i n : ℕ) (a : Answer) (answers : List (ℕ × Answer))
    → answered i (answer_all n a answers)
      ≡ answered i answers + one (ltb i n && (answered i answers == 0))
unfolding answer_all
answered-answer_all i zero a answers = ground arith
answered-answer_all i (suc n) a answers =
    ground
      (arith, answered-answer_all i n a answers, answered-answer i n a (answer_all n a answers))
