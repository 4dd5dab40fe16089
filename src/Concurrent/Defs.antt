-- ===== src/Concurrent/Defs.antt =====
-- packages/core/src/concurrent: the pool of resources and the tokens that limit it. What the event loop
-- does next is an event: a token or an input arrives, an `init` or a task comes to its end, or the pool
-- is disposed. Resources and work items are numbered in the order in which they are made.
use isep_mutation_levels.Prelude.{
  ℕ, zero, suc, ◌+◌, String, true, ◌&&◌, ◌||◌, List, [], ◌∷◌, ◌++◌, Option, none, some, length, ltb,
  ◌==◌, if◌then◌else◌,
}
use isep_mutation_levels.Concurrent.State.{
  max_concurrent_init, Answer, Pool, is_empty, is_alive, is_init_error, is_pending, answer,
  answer_all, remove, item_of, remove_busy, elem, rejection, no_result, ready, init_error,
}

-- `zip`: the first resource in the one buffer with the first work item in the other.
unfoldable pub zip_from : List ℕ → List ℕ → Pool → Pool
zip_from (r ∷ rs) (item ∷ items) p = record p {
  idle = rs;
  todo = items;
  busy = p.busy ++ (r, item) ∷ [];
}
zip_from [] items p = record p { idle = []; todo = items }
zip_from (r ∷ rs) [] p = record p { idle = r ∷ rs; todo = [] }

-- `resourcesSubject.next(resource)`.
unfoldable pub next_resource : ℕ → Pool → Pool
unfolding zip_from
next_resource r p = if is_alive p then zip_from (p.idle ++ r ∷ []) p.todo p else p

-- An `init` begins, if fewer than the limit go on: the factory makes a resource. In a pool that is
-- disposed none is made.
unfoldable pub start_from : (waiting : ℕ) → Pool → Pool
start_from zero p = p
start_from (suc n) p =
    if is_init_error p.init_signal || p.is_disposed
    then record p { waiting_tokens = 0 }
    else if ltb (length p.initializing) max_concurrent_init
    then record p {
      waiting_tokens = n;
      created = p.created + 1;
      initializing = p.initializing ++ p.created ∷ [];
    }
    else p

unfoldable pub start_init : Pool → Pool
unfolding start_from
start_init p = start_from p.waiting_tokens p

-- `tap({ complete })`.
unfoldable pub signal_complete : Pool → Pool
signal_complete p = record p {
  init_signal =
      if p.tokens_ended
        && ((p.waiting_tokens == 0) && (is_empty p.initializing && is_pending p.init_signal))
      then ready
      else p.init_signal;
}

pub data Event : Type 0 where
  token tokens_end : Event
  init_done : (resource : ℕ) → Event
  init_failed : (resource : ℕ) → (error : String) → Event
  schedule : Event
  finish : (resource : ℕ) → (result : Answer) → Event
  dispose : Event

unfoldable pub on_token : Pool → Pool
unfolding start_init
on_token p =
    if p.tokens_ended || is_init_error p.init_signal
    then p
    else start_init (record p { waiting_tokens = p.waiting_tokens + 1 })

unfoldable pub on_tokens_end : Pool → Pool
unfolding signal_complete
on_tokens_end p = signal_complete (record p { tokens_ended = true })

-- A resource is handed on unless the stream of the inits has failed.
unfoldable pub on_init_done : ℕ → Pool → Pool
unfolding next_resource start_init signal_complete
on_init_done r p =
    if elem r p.initializing
    then (let p' = record p { initializing = remove r p.initializing } in
        if is_init_error p.init_signal
        then p'
        else signal_complete (start_init (next_resource r p')))
    else p

-- The error goes to `init()` and through the `zip` to every work item.
unfoldable pub on_init_failed : ℕ → String → Pool → Pool
unfolding answer_all
on_init_failed r e p =
    if elem r p.initializing
    then (let p' = record p {
      initializing = remove r p.initializing;
      waiting_tokens = 0;
      init_signal = init_error e;
    } in
        if is_init_error p.init_signal
        then record p { initializing = remove r p.initializing }
        else if is_alive p
        then record p' {
          failed = some e;
          idle = [];
          todo = [];
          answers = answer_all p.scheduled (rejection e) p.answers;
        }
        else p')
    else p

-- A work item is put in the queue, or rejected at once by the subscription that the error left.
unfoldable pub enqueue : (failed : Option String) → Pool → Pool
unfolding zip_from answer
enqueue none p =
    zip_from p.idle (p.todo ++ p.scheduled ∷ []) (record p { scheduled = p.scheduled + 1 })
enqueue (some e) p = record p {
  scheduled = p.scheduled + 1;
  answers = answer p.scheduled (rejection e) p.answers;
}

-- `schedule` for one input. A subject that is complete takes no more work items.
unfoldable pub on_schedule : Pool → Pool
unfolding enqueue
on_schedule p =
    if p.is_disposed then record p { scheduled = p.scheduled + 1 } else enqueue p.failed p

-- `workItem.execute` has come to its end, and the resource is recycled.
unfoldable pub on_finish : ℕ → Answer → Pool → Pool
unfolding next_resource answer
on_finish r result p = elim (item_of r p.busy) [
  | none ↦ p
  | some item ↦
      next_resource r
        (record p { busy = remove_busy r p.busy; answers = answer item result p.answers })
]

unfoldable pub on_dispose : Pool → Pool
unfolding answer_all signal_complete
on_dispose p =
    if p.is_disposed
    then p
    else signal_complete (record p {
      is_disposed = true;
      tokens_ended = true;
      waiting_tokens = 0;
      idle = [];
      todo = [];
      answers = answer_all p.scheduled no_result p.answers;
    })

unfoldable pub handle : Event → Pool → Pool
unfolding on_token on_tokens_end on_init_done on_init_failed on_schedule on_finish on_dispose
handle token p = on_token p
handle tokens_end p = on_tokens_end p
handle (init_done r) p = on_init_done r p
handle (init_failed r e) p = on_init_failed r e p
handle schedule p = on_schedule p
handle (finish r result) p = on_finish r result p
handle dispose p = on_dispose p

unfoldable pub run : List Event → Pool → Pool
unfolding handle
run [] p = p
run (e ∷ es) p = run es (handle e p)
