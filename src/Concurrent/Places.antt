-- ===== src/Concurrent/Places.antt =====
-- packages/core/src/concurrent/pool.ts: where a resource stands, and the streams that move it.
use isep_mutation_levels.Prelude.{
  ℕ, zero, suc, ◌+◌, ◌≤◌, ◌≡◌, refl, Bool, true, false, ◌||◌, List, [], ◌∷◌, ◌++◌, inl, inr, length,
  length-append, ltb, leb, ◌==◌, if◌then◌else◌, Bool-cases, arith,
}
use isep_mutation_levels.Concurrent.State.{
  Pool, is_alive, is_empty, is_init_error, max_concurrent_init,
}
use isep_mutation_levels.Concurrent.Defs.{
  zip_from, next_resource, start_from, start_init, signal_complete,
}
use isep_mutation_levels.Concurrent.Counts.{one, count, uses, count-append, uses-append}

-- Where a resource stands: in its `init`, idle, or at a task.
abbrev pub places : ℕ → Pool → ℕ
places r p = count r p.initializing + count r p.idle + uses r p.busy

pub record UsesResources (p : Pool) : Type 0 where
  pub once : (r : ℕ) → places r p ≤ one (ltb r p.created)
  pub few_inits : length p.initializing ≤ max_concurrent_init
  pub work_conserving : (is_empty p.idle || is_empty p.todo) ≡ true
  pub dead : is_alive p ≡ false → is_empty p.idle ≡ true

narrow_rest :
    (idle todo : List ℕ)
    → (leb (suc (length idle)) 1 || leb (suc (length todo)) 1) ≡ true
    → (is_empty idle || is_empty todo) ≡ true
narrow_rest [] todo h = refl
narrow_rest (r ∷ idle) [] h = refl
narrow_rest (r ∷ idle) (i ∷ todo) h = absurd (ground (arith, h))

narrow_resource :
    (r : ℕ) (idle todo : List ℕ)
    → (is_empty idle || is_empty todo) ≡ true
    → (leb (length (idle ++ r ∷ [])) 1 || leb (length todo) 1) ≡ true
narrow_resource r [] todo h = refl
narrow_resource r (x ∷ idle) [] h = ground arith
narrow_resource r (x ∷ idle) (i ∷ todo) h = cc

-- The two buffers of the `zip`, one of which has taken at most one more.
pub zip_from-UsesResources :
    (idle todo : List ℕ) (p : Pool)
    → ((r : ℕ) → count r p.initializing + count r idle + uses r p.busy ≤ one (ltb r p.created))
    → length p.initializing ≤ max_concurrent_init
    → (leb (length idle) 1 || leb (length todo) 1) ≡ true
    → is_alive p ≡ true
    → UsesResources (zip_from idle todo p)
unfolding zip_from
zip_from-UsesResources [] todo p once few narrow alive = record {
  once = λ r. once r;
  few_inits = few;
  work_conserving = refl;
  dead = λ h. refl;
}
zip_from-UsesResources (r0 ∷ idle) [] p once few narrow alive = record {
  once = λ r. once r;
  few_inits = few;
  work_conserving = refl;
  dead = λ h. cc;
}
zip_from-UsesResources (r0 ∷ idle) (i ∷ todo) p once few narrow alive = record {
  once = λ r. omega (arith, once r, uses-append r p.busy ((r0, i) ∷ []));
  few_inits = few;
  work_conserving = narrow_rest idle todo narrow;
  dead = λ h. cc;
}

pub next_resource-UsesResources :
    (r0 : ℕ) (p : Pool)
    → UsesResources p
    → ((r : ℕ) → places r p + one (r0 == r) ≤ one (ltb r p.created))
    → UsesResources (next_resource r0 p)
unfolding next_resource
next_resource-UsesResources r0 p u free = elim (Bool-cases (is_alive p)) [
  | inl alive ↦ rw alive (
      zip_from-UsesResources (p.idle ++ r0 ∷ []) p.todo p
        (λ r. omega (arith, free r, count-append r p.idle (r0 ∷ []))) u.few_inits
        (narrow_resource r0 p.idle p.todo u.work_conserving) alive)
  | inr dead ↦ rw dead u
]

started :
    (n : ℕ) (p : Pool)
    → UsesResources p
    → ltb (length p.initializing) max_concurrent_init ≡ true
    → UsesResources (record p {
      waiting_tokens = n;
      created = p.created + 1;
      initializing = p.initializing ++ p.created ∷ [];
    })
started n p u room = record {
  once = λ r. ground (arith, u.once r, count-append r p.initializing (p.created ∷ []));
  few_inits = ground (arith, room, length-append p.initializing (p.created ∷ []));
  work_conserving = u.work_conserving;
  dead = u.dead;
}

pub either :
    (b : Bool) (p q : Pool)
    → (b ≡ true → UsesResources p)
    → (b ≡ false → UsesResources q)
    → UsesResources (if b then p else q)
either true p q hp hq = hp refl
either false p q hp hq = hq refl

start_from-UsesResources : (n : ℕ) (p : Pool) → UsesResources p → UsesResources (start_from n p)
unfolding start_from
start_from-UsesResources zero p u = u
start_from-UsesResources (suc n) p u =
    either (is_init_error p.init_signal || p.is_disposed) _ _
      (λ _. record {
        once = u.once;
        few_inits = u.few_inits;
        work_conserving = u.work_conserving;
        dead = u.dead;
      })
      λ _.
        either (ltb (length p.initializing) max_concurrent_init) _ _ (λ room. started n p u room)
          λ _. u

pub start_init-UsesResources : (p : Pool) → UsesResources p → UsesResources (start_init p)
unfolding start_init
start_init-UsesResources p u = start_from-UsesResources p.waiting_tokens p u

pub signal_complete-UsesResources : (p : Pool) → UsesResources p → UsesResources (signal_complete p)
unfolding signal_complete
signal_complete-UsesResources p u = record {
  once = u.once;
  few_inits = u.few_inits;
  work_conserving = u.work_conserving;
  dead = u.dead;
}
