-- ===== src/Concurrent/State.antt =====
-- packages/core/src/concurrent/pool.ts: the state of the pool. Resources and work items are numbered in the
-- order in which they are made.
use isep_mutation_levels.Prelude.{
  ℕ, zero, suc, String, Bool, true, false, not, ◌&&◌, List, [], ◌∷◌, ◌++◌, Option, none, some, any,
  ◌==◌, if◌then◌else◌,
}

-- `MAX_CONCURRENT_INIT`.
abbrev pub max_concurrent_init : ℕ
max_concurrent_init = 2

-- What the `result$` of a work item emits.
pub data Answer : Type 0 where
  output : (value : String) → Answer
  task_error rejection : (error : String) → Answer
  no_result : Answer

-- What `init()` resolves to.
pub data InitSignal : Type 0 where
  pending ready : InitSignal
  init_error : (error : String) → InitSignal

-- The state of the streams: tokens that wait in the `mergeMap` of the inits, resources in it, the two
-- buffers of the `zip`, and the pairs in its `mergeMap`.
pub record Pool : Type 0 where
  pub waiting_tokens : ℕ
  pub tokens_ended : Bool
  pub created : ℕ
  pub initializing : List ℕ
  pub init_signal : InitSignal
  pub idle : List ℕ
  pub todo : List ℕ
  pub busy : List (ℕ × ℕ)
  pub scheduled : ℕ
  pub answers : List (ℕ × Answer)
  pub failed : Option String
  pub is_disposed : Bool

unfoldable pub new_pool : Pool
new_pool = record {
  waiting_tokens = 0;
  tokens_ended = false;
  created = 0;
  initializing = [];
  init_signal = pending;
  idle = [];
  todo = [];
  busy = [];
  scheduled = 0;
  answers = [];
  failed = none;
  is_disposed = false;
}

abbrev pub is_none {ℓ} : {A : Type ℓ} → Option A → Bool
is_none none = true
is_none (some a) = false

abbrev pub is_empty {ℓ} : {A : Type ℓ} → List A → Bool
is_empty [] = true
is_empty (x ∷ xs) = false

-- The subscription to the work goes on.
abbrev pub is_alive : Pool → Bool
is_alive p = is_none p.failed && not p.is_disposed

abbrev pub is_init_error : InitSignal → Bool
is_init_error (init_error e) = true
is_init_error _ = false

abbrev pub is_pending : InitSignal → Bool
is_pending pending = true
is_pending _ = false

abbrev pub is_answered : ℕ → List (ℕ × Answer) → Bool
is_answered item answers = any (λ a. a.0 == item) answers

-- A subject that has completed or failed ignores what comes after.
unfoldable pub answer : (item : ℕ) → Answer → List (ℕ × Answer) → List (ℕ × Answer)
answer item a answers = if is_answered item answers then answers else answers ++ (item, a) ∷ []

-- The subscription to the replay of the work items that were scheduled.
unfoldable pub answer_all : (scheduled : ℕ) → Answer → List (ℕ × Answer) → List (ℕ × Answer)
unfolding answer
answer_all zero a answers = answers
answer_all (suc n) a answers = answer n a (answer_all n a answers)

abbrev pub remove : ℕ → List ℕ → List ℕ
remove x [] = []
remove x (y ∷ ys) = if y == x then ys else y ∷ remove x ys

abbrev pub item_of : ℕ → List (ℕ × ℕ) → Option ℕ
item_of r [] = none
item_of r ((s, item) ∷ busy) = if s == r then some item else item_of r busy

abbrev pub remove_busy : ℕ → List (ℕ × ℕ) → List (ℕ × ℕ)
remove_busy r [] = []
remove_busy r ((s, item) ∷ busy) = if s == r then busy else (s, item) ∷ remove_busy r busy

abbrev pub elem : ℕ → List ℕ → Bool
elem x ys = any (λ y. y == x) ys
