-- ===== src/Concurrent/Items.antt =====
-- packages/core/src/concurrent/pool.ts: what becomes of the work items.
use isep_mutation_levels.Prelude.{
  ℕ, ◌+◌, ◌≡◌, refl, String, true, false, ◌||◌, List, [], ◌∷◌, ◌++◌, Option, none, some, inl, inr,
  ltb, Option-cases, arith,
}
use isep_mutation_levels.Concurrent.State.{
  Answer, rejection, no_result, Pool, new_pool, is_alive, is_init_error, remove, item_of,
  remove_busy, elem, answer, answer_all,
}
use isep_mutation_levels.Concurrent.Defs.{
  Event, next_resource, start_init, on_token, on_tokens_end, on_init_done, on_init_failed, enqueue,
  on_schedule, on_finish, on_dispose, handle, run, token, tokens_end, init_done, init_failed,
  schedule, finish, dispose,
}
use isep_mutation_levels.Concurrent.Counts.{
  one, answered, count-append, works-remove_busy, answered-answer, answered-answer_all,
}
use isep_mutation_levels.Concurrent.Queue.{
  zip_from-TracksItems, next_resource-TracksItems, either, start_init-TracksItems,
  signal_complete-TracksItems, TracksItems,
}

on_token-TracksItems : (p : Pool) → TracksItems p → TracksItems (on_token p)
unfolding on_token
on_token-TracksItems p t =
    either (p.tokens_ended || is_init_error p.init_signal) p _ (λ _. t)
      λ _.
        start_init-TracksItems (record p { waiting_tokens = p.waiting_tokens + 1 })
          (record {
            once = t.once;
            at_most_once = t.at_most_once;
            working = t.working;
            rejected = t.rejected;
          })

on_tokens_end-TracksItems : (p : Pool) → TracksItems p → TracksItems (on_tokens_end p)
unfolding on_tokens_end
on_tokens_end-TracksItems p t =
    signal_complete-TracksItems (record p { tokens_ended = true })
      (record {
        once = t.once;
        at_most_once = t.at_most_once;
        working = t.working;
        rejected = t.rejected;
      })

left_init :
    (r : ℕ) (p : Pool)
    → TracksItems p
    → TracksItems (record p { initializing = remove r p.initializing })
left_init r p t = record {
  once = t.once;
  at_most_once = t.at_most_once;
  working = t.working;
  rejected = t.rejected;
}

on_init_done-TracksItems : (r : ℕ) (p : Pool) → TracksItems p → TracksItems (on_init_done r p)
unfolding on_init_done
on_init_done-TracksItems r p t =
    let p' : Pool = record p { initializing = remove r p.initializing } in
    either (elem r p.initializing) _ p
      (λ _.
        either (is_init_error p.init_signal) p' _ (λ _. left_init r p t)
          λ _. signal_complete-TracksItems (start_init (next_resource r p')) (
            start_init-TracksItems (next_resource r p')
              (next_resource-TracksItems r p' (left_init r p t))))
      λ _. t

all_answered :
    (p : Pool) (a : Answer)
    → TracksItems p
    → (i : ℕ) → answered i (answer_all p.scheduled a p.answers) ≡ one (ltb i p.scheduled)
all_answered p a t i =
    ground (arith, answered-answer_all i p.scheduled a p.answers, t.at_most_once i)

on_init_failed-TracksItems :
    (r : ℕ) (e : String) (p : Pool) → TracksItems p → TracksItems (on_init_failed r e p)
unfolding on_init_failed
on_init_failed-TracksItems r e p t =
    either (elem r p.initializing) _ p
      (λ _.
        either (is_init_error p.init_signal) _ _ (λ _. left_init r p t)
          λ _.
            either (is_alive p) _ _
              (λ _. record {
                once = λ h i. cc;
                at_most_once = λ i. omega (arith, all_answered p (rejection e) t i);
                working = t.working;
                rejected = λ _ _ i. all_answered p (rejection e) t i;
              })
              λ dead. record {
                once = t.once;
                at_most_once = t.at_most_once;
                working = t.working;
                rejected = t.rejected;
              })
      λ _. t

enqueue-TracksItems :
    (failed : Option String) (p : Pool)
    → TracksItems p
    → p.failed ≡ failed
    → p.is_disposed ≡ false
    → TracksItems (enqueue failed p)
unfolding enqueue
enqueue-TracksItems none p t fine going =
    zip_from-TracksItems p.idle (p.todo ++ p.scheduled ∷ [])
      (record p { scheduled = p.scheduled + 1 })
      (λ i. ground (
        arith,
        fine,
        going,
        t.once (ground (arith, fine, going)) i,
        count-append i p.todo (p.scheduled ∷ []),
      ))
      (ground (arith, fine, going))
enqueue-TracksItems (some e) p t fine going = record {
  once = λ alive i. absurd (ground (arith, alive, fine));
  at_most_once =
      λ i. ground (arith, t.at_most_once i, answered-answer i p.scheduled (rejection e) p.answers);
  working = λ i. ground (arith, t.working i);
  rejected = λ _ _ i. ground (
    arith,
    t.rejected going (ground (arith, fine)) i,
    answered-answer i p.scheduled (rejection e) p.answers,
  );
}

on_schedule-TracksItems : (p : Pool) → TracksItems p → TracksItems (on_schedule p)
unfolding on_schedule
on_schedule-TracksItems p t =
    either p.is_disposed _ _
      (λ over. record {
        once = λ alive i. absurd (ground (arith, alive, over));
        at_most_once = λ i. ground (arith, t.at_most_once i);
        working = λ i. ground (arith, t.working i);
        rejected = λ going. absurd (ground (arith, going, over));
      })
      λ going. enqueue-TracksItems p.failed p t refl going

on_finish-TracksItems :
    (r : ℕ) (result : Answer) (p : Pool) → TracksItems p → TracksItems (on_finish r result p)
unfolding on_finish
on_finish-TracksItems r result p t = elim (Option-cases (item_of r p.busy)) [
  | inl absent ↦ rw (absent, on_finish) t
  | inr (item, there) ↦
      let left = λ (i : ℕ). works-remove_busy i r item p.busy there in
      let got = λ (i : ℕ). answered-answer i item result p.answers in
      rw (there, on_finish)
        (next_resource-TracksItems r
          (record p { busy = remove_busy r p.busy; answers = answer item result p.answers })
          (record {
            once = λ alive i. ground (arith, t.once alive i, left i, got i);
            at_most_once = λ i. ground (arith, t.at_most_once i, t.working i, left i, got i);
            working = λ i. omega (arith, t.working i, left i);
            rejected = λ going failed i.
                ground (arith, t.rejected going failed i, t.working i, left i, got i);
          }))
]

on_dispose-TracksItems : (p : Pool) → TracksItems p → TracksItems (on_dispose p)
unfolding on_dispose
on_dispose-TracksItems p t =
    either p.is_disposed p _ (λ _. t)
      λ _. signal_complete-TracksItems _ (record {
        once = λ alive i. absurd (ground (arith, alive));
        at_most_once = λ i. omega (arith, all_answered p no_result t i);
        working = t.working;
        rejected = λ going. absurd (ground (arith, going));
      })

pub handle-TracksItems : (e : Event) (p : Pool) → TracksItems p → TracksItems (handle e p)
unfolding handle
handle-TracksItems token p t = on_token-TracksItems p t
handle-TracksItems tokens_end p t = on_tokens_end-TracksItems p t
handle-TracksItems (init_done r) p t = on_init_done-TracksItems r p t
handle-TracksItems (init_failed r e) p t = on_init_failed-TracksItems r e p t
handle-TracksItems schedule p t = on_schedule-TracksItems p t
handle-TracksItems (finish r result) p t = on_finish-TracksItems r result p t
handle-TracksItems dispose p t = on_dispose-TracksItems p t

run_from-TracksItems : (es : List Event) (p : Pool) → TracksItems p → TracksItems (run es p)
unfolding run
run_from-TracksItems [] p t = t
run_from-TracksItems (e ∷ es) p t = run_from-TracksItems es (handle e p) (handle-TracksItems e p t)

-- Whatever happens to a new pool, in any order: no work item has two results or a result before it was
-- scheduled, and none is worked on by two resources. While the pool is alive, each scheduled item waits,
-- is worked on or has its result, and exactly one of these. After the `init` of a resource has failed,
-- each scheduled item has its result, until the pool is disposed.
pub run-TracksItems : (es : List Event) → TracksItems (run es new_pool)
unfolding new_pool
run-TracksItems es = run_from-TracksItems es new_pool (record {
  once = λ _ i. ground arith;
  at_most_once = λ i. omega arith;
  working = λ i. omega arith;
  rejected = λ _ failed. absurd (ground (arith, failed));
})
