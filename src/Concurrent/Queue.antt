-- ===== src/Concurrent/Queue.antt =====
-- packages/core/src/concurrent/pool.ts: where a work item stands, and the streams that move it.
use isep_mutation_levels.Prelude.{
  ℕ, zero, suc, ◌+◌, ◌≤◌, ◌≡◌, refl, Bool, true, false, ◌||◌, List, [], ◌∷◌, ◌++◌, ltb,
  if◌then◌else◌, arith, length,
}
use isep_mutation_levels.Concurrent.State.{
  Pool, is_alive, is_none, is_init_error, max_concurrent_init,
}
use isep_mutation_levels.Concurrent.Defs.{
  zip_from, next_resource, start_from, start_init, signal_complete,
}
use isep_mutation_levels.Concurrent.Counts.{one, count, works, answered, works-append}

pub record TracksItems (p : Pool) : Type 0 where
  pub once :
      is_alive p ≡ true
      → (i : ℕ) → count i p.todo + works i p.busy + answered i p.answers ≡ one (ltb i p.scheduled)
  pub at_most_once : (i : ℕ) → answered i p.answers ≤ one (ltb i p.scheduled)
  pub working : (i : ℕ) → works i p.busy ≤ one (ltb i p.scheduled)
  pub rejected :
      p.is_disposed ≡ false
      → is_none p.failed ≡ false
      → (i : ℕ) → answered i p.answers ≡ one (ltb i p.scheduled)

pub either :
    (b : Bool) (p q : Pool)
    → (b ≡ true → TracksItems p)
    → (b ≡ false → TracksItems q)
    → TracksItems (if b then p else q)
either true p q hp hq = hp refl
either false p q hp hq = hq refl

-- Moving an item from the queue to a resource.
pub zip_from-TracksItems :
    (idle todo : List ℕ) (p : Pool)
    → ((i : ℕ) → count i todo + works i p.busy + answered i p.answers ≡ one (ltb i p.scheduled))
    → is_alive p ≡ true
    → TracksItems (zip_from idle todo p)
unfolding zip_from
zip_from-TracksItems [] todo p once alive = record {
  once = λ _. once;
  at_most_once = λ i. omega (arith, once i);
  working = λ i. omega (arith, once i);
  rejected = λ going failed. cc;
}
zip_from-TracksItems (r ∷ idle) [] p once alive = record {
  once = λ _. once;
  at_most_once = λ i. omega (arith, once i);
  working = λ i. omega (arith, once i);
  rejected = λ going failed. cc;
}
zip_from-TracksItems (r ∷ idle) (item ∷ todo) p once alive = record {
  once = λ _ i. omega (arith, once i, works-append i p.busy ((r, item) ∷ []));
  at_most_once = λ i. omega (arith, once i);
  working = λ i. omega (arith, once i, works-append i p.busy ((r, item) ∷ []));
  rejected = λ going failed. cc;
}

pub next_resource-TracksItems : (r : ℕ) (p : Pool) → TracksItems p → TracksItems (next_resource r p)
unfolding next_resource
next_resource-TracksItems r p t =
    either (is_alive p) _ p
      (λ alive. zip_from-TracksItems (p.idle ++ r ∷ []) p.todo p (t.once alive) alive) λ _. t

start_from-TracksItems : (n : ℕ) (p : Pool) → TracksItems p → TracksItems (start_from n p)
unfolding start_from
start_from-TracksItems zero p t = t
start_from-TracksItems (suc n) p t =
    either (is_init_error p.init_signal || p.is_disposed) _ _
      (λ _. record {
        once = t.once;
        at_most_once = t.at_most_once;
        working = t.working;
        rejected = t.rejected;
      })
      λ _.
        either (ltb (length p.initializing) max_concurrent_init) _ _
          (λ _. record {
            once = t.once;
            at_most_once = t.at_most_once;
            working = t.working;
            rejected = t.rejected;
          })
          λ _. t

pub start_init-TracksItems : (p : Pool) → TracksItems p → TracksItems (start_init p)
unfolding start_init
start_init-TracksItems p t = start_from-TracksItems p.waiting_tokens p t

pub signal_complete-TracksItems : (p : Pool) → TracksItems p → TracksItems (signal_complete p)
unfolding signal_complete
signal_complete-TracksItems p t = record {
  once = t.once;
  at_most_once = t.at_most_once;
  working = t.working;
  rejected = t.rejected;
}
