-- ===== src/Concurrent/Resources.antt =====
-- packages/core/src/concurrent/pool.ts: a resource is in one place at a time, whatever happens.
use isep_mutation_levels.Prelude.{
  ℕ, ◌+◌, ◌≡◌, refl, String, true, false, ◌||◌, List, [], ◌∷◌, ◌++◌, Option, none, some, inl, inr,
  length, leb, Bool-cases, Option-cases, arith,
}
use isep_mutation_levels.Concurrent.State.{
  Answer, Pool, new_pool, is_alive, is_empty, is_init_error, remove, item_of, remove_busy, elem,
  answer,
}
use isep_mutation_levels.Concurrent.Defs.{
  Event, next_resource, start_init, on_token, on_tokens_end, on_init_done, on_init_failed, enqueue,
  on_schedule, on_finish, on_dispose, handle, run, token, tokens_end, init_done, init_failed,
  schedule, finish, dispose,
}
use isep_mutation_levels.Concurrent.Counts.{count-remove, length-remove, uses-remove_busy}
use isep_mutation_levels.Concurrent.Places.{
  zip_from-UsesResources, next_resource-UsesResources, either, start_init-UsesResources,
  signal_complete-UsesResources, UsesResources,
}

on_token-UsesResources : (p : Pool) → UsesResources p → UsesResources (on_token p)
unfolding on_token
on_token-UsesResources p u =
    either (p.tokens_ended || is_init_error p.init_signal) p _ (λ _. u)
      λ _.
        start_init-UsesResources (record p { waiting_tokens = p.waiting_tokens + 1 })
          (record {
            once = u.once;
            few_inits = u.few_inits;
            work_conserving = u.work_conserving;
            dead = u.dead;
          })

on_tokens_end-UsesResources : (p : Pool) → UsesResources p → UsesResources (on_tokens_end p)
unfolding on_tokens_end
on_tokens_end-UsesResources p u =
    signal_complete-UsesResources (record p { tokens_ended = true })
      (record {
        once = u.once;
        few_inits = u.few_inits;
        work_conserving = u.work_conserving;
        dead = u.dead;
      })

-- A resource has left its `init`.
left_init :
    (r : ℕ) (p : Pool)
    → UsesResources p
    → elem r p.initializing ≡ true
    → UsesResources (record p { initializing = remove r p.initializing })
left_init r p u there = record {
  once = λ x. omega (arith, u.once x, count-remove x r p.initializing there);
  few_inits = omega (arith, u.few_inits, length-remove r p.initializing);
  work_conserving = u.work_conserving;
  dead = u.dead;
}

on_init_done-UsesResources : (r : ℕ) (p : Pool) → UsesResources p → UsesResources (on_init_done r p)
unfolding on_init_done
on_init_done-UsesResources r p u = elim (Bool-cases (elem r p.initializing)) [
  | inr absent ↦ rw absent u
  | inl there ↦
      let p' : Pool = record p { initializing = remove r p.initializing } in
      rw there (
        either (is_init_error p.init_signal) p' _ (λ _. left_init r p u there)
          λ _. signal_complete-UsesResources (start_init (next_resource r p')) (
            start_init-UsesResources (next_resource r p') (
              next_resource-UsesResources r p' (left_init r p u there)
                λ x. omega (arith, u.once x, count-remove x r p.initializing there))))
]

on_init_failed-UsesResources :
    (r : ℕ) (e : String) (p : Pool) → UsesResources p → UsesResources (on_init_failed r e p)
unfolding on_init_failed
on_init_failed-UsesResources r e p u = elim (Bool-cases (elem r p.initializing)) [
  | inr absent ↦ rw absent u
  | inl there ↦
      let v = left_init r p u there in
      rw there (
        either (is_init_error p.init_signal) _ _ (λ _. v)
          λ _.
            either (is_alive p) _ _
              (λ _. record {
                once = λ x. omega (arith, v.once x);
                few_inits = v.few_inits;
                work_conserving = refl;
                dead = λ h. refl;
              })
              λ _. record {
                once = v.once;
                few_inits = v.few_inits;
                work_conserving = v.work_conserving;
                dead = v.dead;
              })
]

narrow_item :
    (i : ℕ) (idle todo : List ℕ)
    → (is_empty idle || is_empty todo) ≡ true
    → (leb (length idle) 1 || leb (length (todo ++ i ∷ [])) 1) ≡ true
narrow_item i [] todo h = refl
narrow_item i (x ∷ idle) [] h = ground arith
narrow_item i (x ∷ idle) (j ∷ todo) h = cc

enqueue-UsesResources :
    (failed : Option String) (p : Pool)
    → UsesResources p
    → p.failed ≡ failed
    → p.is_disposed ≡ false
    → UsesResources (enqueue failed p)
unfolding enqueue
enqueue-UsesResources none p u fine going =
    zip_from-UsesResources p.idle (p.todo ++ p.scheduled ∷ [])
      (record p { scheduled = p.scheduled + 1 }) u.once u.few_inits
      (narrow_item p.scheduled p.idle p.todo u.work_conserving) (ground (arith, fine, going))
enqueue-UsesResources (some e) p u fine going = record {
  once = u.once;
  few_inits = u.few_inits;
  work_conserving = u.work_conserving;
  dead = u.dead;
}

on_schedule-UsesResources : (p : Pool) → UsesResources p → UsesResources (on_schedule p)
unfolding on_schedule
on_schedule-UsesResources p u =
    either p.is_disposed _ _
      (λ _. record {
        once = u.once;
        few_inits = u.few_inits;
        work_conserving = u.work_conserving;
        dead = u.dead;
      })
      λ going. enqueue-UsesResources p.failed p u refl going

on_finish-UsesResources :
    (r : ℕ) (result : Answer) (p : Pool) → UsesResources p → UsesResources (on_finish r result p)
unfolding on_finish
on_finish-UsesResources r result p u = elim (Option-cases (item_of r p.busy)) [
  | inl absent ↦ rw (absent, on_finish) u
  | inr (item, there) ↦
      rw (there, on_finish)
        (next_resource-UsesResources r
          (record p { busy = remove_busy r p.busy; answers = answer item result p.answers })
          (record {
            once = λ x. omega (arith, u.once x, uses-remove_busy x r item p.busy there);
            few_inits = u.few_inits;
            work_conserving = u.work_conserving;
            dead = u.dead;
          })
          λ x. omega (arith, u.once x, uses-remove_busy x r item p.busy there))
]

on_dispose-UsesResources : (p : Pool) → UsesResources p → UsesResources (on_dispose p)
unfolding on_dispose
on_dispose-UsesResources p u =
    either p.is_disposed p _ (λ _. u)
      λ _. signal_complete-UsesResources _ (record {
        once = λ x. omega (arith, u.once x);
        few_inits = u.few_inits;
        work_conserving = refl;
        dead = λ h. refl;
      })

pub handle-UsesResources : (e : Event) (p : Pool) → UsesResources p → UsesResources (handle e p)
unfolding handle
handle-UsesResources token p u = on_token-UsesResources p u
handle-UsesResources tokens_end p u = on_tokens_end-UsesResources p u
handle-UsesResources (init_done r) p u = on_init_done-UsesResources r p u
handle-UsesResources (init_failed r e) p u = on_init_failed-UsesResources r e p u
handle-UsesResources schedule p u = on_schedule-UsesResources p u
handle-UsesResources (finish r result) p u = on_finish-UsesResources r result p u
handle-UsesResources dispose p u = on_dispose-UsesResources p u

run_from-UsesResources : (es : List Event) (p : Pool) → UsesResources p → UsesResources (run es p)
unfolding run
run_from-UsesResources [] p u = u
run_from-UsesResources (e ∷ es) p u =
    run_from-UsesResources es (handle e p) (handle-UsesResources e p u)

-- Whatever happens to a new pool, in any order: a resource is in at most one place (in its `init`, idle
-- or at one task), and only if it was made; no more than two resources are in their `init`; no
-- resource is idle while work waits; and a pool that has failed or is disposed has no idle resource.
pub run-UsesResources : (es : List Event) → UsesResources (run es new_pool)
unfolding new_pool
run-UsesResources es = run_from-UsesResources es new_pool (record {
  once = λ r. omega arith;
  few_inits = omega arith;
  work_conserving = refl;
  dead = λ h. refl;
})
