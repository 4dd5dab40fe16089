-- ===== src/Concurrent/Progress.antt =====
-- packages/core/src/concurrent/pool.ts: the work comes to its end.
use isep_mutation_levels.Prelude.{
  ℕ, ◌+◌, ◌≡◌, ◌∙◌, refl, Bool, true, false, not, ◌&&◌, ◌||◌, List, [], ◌∷◌, ◌++◌, some, inl, inr,
  ltb, ◌==◌, Option-cases, arith, length, length-append,
}
use isep_mutation_levels.Concurrent.State.{
  Answer, Pool, new_pool, is_alive, is_empty, is_none, item_of, remove_busy, answer,
}
use isep_mutation_levels.Concurrent.Defs.{
  Event, zip_from, next_resource, on_finish, handle, run, finish,
}
use isep_mutation_levels.Concurrent.Counts.{one, count, works, answered}
use isep_mutation_levels.Concurrent.Places.{UsesResources}
use isep_mutation_levels.Concurrent.Resources.{run-UsesResources, handle-UsesResources}
use isep_mutation_levels.Concurrent.Queue.{TracksItems}
use isep_mutation_levels.Concurrent.Items.{run-TracksItems, handle-TracksItems}

-- The work items that wait or are worked on.
abbrev pub work_left : Pool → ℕ
work_left p = length p.busy + length p.todo

-- A resource has come through its `init`.
abbrev pub has_resource : Pool → Bool
has_resource p = not (is_empty p.idle && is_empty p.busy)

-- Tasks come to their ends, in the order given.
abbrev pub end_tasks : List (ℕ × Answer) → Pool → Pool
end_tasks [] p = p
end_tasks ((r, outcome) ∷ ends) p = end_tasks ends (handle (finish r outcome) p)

-- Each end is that of a task that a resource has at that moment.
abbrev pub are_busy : List (ℕ × Answer) → Pool → Bool
are_busy [] p = true
are_busy ((r, outcome) ∷ ends) p =
    not (is_none (item_of r p.busy)) && are_busy ends (handle (finish r outcome) p)

-- A pool in which a resource can take up work.
record Works (p : Pool) : Type 0 where
  pub alive : is_alive p ≡ true
  pub staffed : has_resource p ≡ true
  pub resources : UsesResources p
  pub items : TracksItems p

length-remove_busy :
    (r item : ℕ) (busy : List (ℕ × ℕ))
    → item_of r busy ≡ some item
    → length (remove_busy r busy) + 1 ≡ length busy
length-remove_busy r item [] h = cc
length-remove_busy r item ((s, i) ∷ busy) h = ground (arith, h, length-remove_busy r item busy)

work_left-zip_from :
    (idle todo : List ℕ) (p : Pool) → work_left (zip_from idle todo p) ≡ length p.busy + length todo
unfolding zip_from
work_left-zip_from [] todo p = refl
work_left-zip_from (r ∷ idle) [] p = refl
work_left-zip_from (r ∷ idle) (i ∷ todo) p = omega (arith, length-append p.busy ((r, i) ∷ []))

is_empty-append_one : {A : Type 0} (l : List A) (x : A) → is_empty (l ++ x ∷ []) ≡ false
is_empty-append_one [] x = refl
is_empty-append_one (y ∷ l) x = refl

has_resource-zip_from :
    (idle todo : List ℕ) (p : Pool)
    → is_empty idle ≡ false
    → has_resource (zip_from idle todo p) ≡ true
unfolding zip_from
has_resource-zip_from [] todo p h = cc
has_resource-zip_from (r ∷ idle) [] p h = refl
has_resource-zip_from (r ∷ idle) (i ∷ todo) p h = ground (arith, is_empty-append_one p.busy (r, i))

is_alive-zip_from : (idle todo : List ℕ) (p : Pool) → is_alive (zip_from idle todo p) ≡ is_alive p
unfolding zip_from
is_alive-zip_from [] todo p = refl
is_alive-zip_from (r ∷ idle) [] p = refl
is_alive-zip_from (r ∷ idle) (i ∷ todo) p = refl

finished :
    (r item : ℕ) (outcome : Answer) (p : Pool)
    → is_alive p ≡ true
    → item_of r p.busy ≡ some item
    → handle (finish r outcome) p
      ≡ zip_from
          (p.idle ++ r ∷ [])
          p.todo
          (record p { busy = remove_busy r p.busy; answers = answer item outcome p.answers })
unfolding handle on_finish next_resource
finished r item outcome p alive there = rw (there, on_finish, alive) refl

-- The end of a task leaves one less.
step :
    (r item : ℕ) (outcome : Answer) (p : Pool)
    → Works p
    → item_of r p.busy ≡ some item
    → Works (handle (finish r outcome) p)
      × (work_left (handle (finish r outcome) p) + 1 ≡ work_left p)
step r item outcome p w there =
    let after : Pool = record p {
      busy = remove_busy r p.busy;
      answers = answer item outcome p.answers;
    } in
    let e = finished r item outcome p w.alive there in
    (
      record {
        alive = rw e ((is_alive-zip_from (p.idle ++ r ∷ []) p.todo after) ∙ w.alive);
        staffed =
            rw e (
              has_resource-zip_from (p.idle ++ r ∷ []) p.todo after (is_empty-append_one p.idle r));
        resources = handle-UsesResources (finish r outcome) p w.resources;
        items = handle-TracksItems (finish r outcome) p w.items;
      },
      rw e (
          omega (
            arith,
            work_left-zip_from (p.idle ++ r ∷ []) p.todo after,
            length-remove_busy r item p.busy there,
          )),
    )

end_tasks-Works :
    (ends : List (ℕ × Answer)) (p : Pool)
    → Works p
    → are_busy ends p ≡ true
    → Works (end_tasks ends p) × (length ends + work_left (end_tasks ends p) ≡ work_left p)
end_tasks-Works [] p w h = (w, omega arith)
end_tasks-Works ((r, outcome) ∷ ends) p w h = elim (Option-cases (item_of r p.busy)) [
  | inl absent ↦ absurd (ground (arith, h, absent))
  | inr (item, there) ↦
      let s = step r item outcome p w there in
      let rest = end_tasks-Works ends (handle (finish r outcome) p) s.0 (ground (arith, h)) in
      (rest.0, omega (arith, rest.1, s.1))
]

work_left-is_empty :
    (idle todo : List ℕ) (busy : List (ℕ × ℕ))
    → (is_empty idle || is_empty todo) ≡ true
    → not (is_empty idle && is_empty busy) ≡ true
    → is_empty busy ≡ (length busy + length todo == 0)
work_left-is_empty idle todo (b ∷ busy) h staffed = ground arith
work_left-is_empty (r ∷ idle) [] [] h staffed = refl
work_left-is_empty (r ∷ idle) (i ∷ todo) [] h staffed = cc
work_left-is_empty [] todo [] h staffed = cc

none_left :
    (i : ℕ) (busy : List (ℕ × ℕ)) (todo : List ℕ)
    → length busy + length todo ≡ 0
    → count i todo + works i busy ≡ 0
none_left i [] [] h = omega arith
none_left i (b ∷ busy) todo h = absurd (omega (arith, h))
none_left i [] (j ∷ todo) h = absurd (omega (arith, h))

-- No work waits while no resource is at work.
busy_or_done : (p : Pool) → Works p → is_empty p.busy ≡ (work_left p == 0)
busy_or_done p w = work_left-is_empty p.idle p.todo p.busy w.resources.work_conserving w.staffed

nothing_left :
    (i : ℕ) (p : Pool) → Works p → work_left p ≡ 0 → answered i p.answers ≡ one (ltb i p.scheduled)
nothing_left i p w h = omega (arith, w.items.once w.alive i, none_left i p.busy p.todo h)

run-Works :
    (es : List Event)
    → is_alive (run es new_pool) ≡ true
    → has_resource (run es new_pool) ≡ true
    → Works (run es new_pool)
run-Works es alive staffed = record {
  alive = alive;
  staffed = staffed;
  resources = run-UsesResources es;
  items = run-TracksItems es;
}

-- A pool that is alive and in which a resource has come through its `init`, after any events, makes
-- progress: after any number of tasks have come to their ends, in any order, the work left is less by that
-- number, and a resource is at work exactly when work is left.
pub end_tasks-progress :
    (es : List Event) (ends : List (ℕ × Answer))
    → is_alive (run es new_pool) ≡ true
    → has_resource (run es new_pool) ≡ true
    → are_busy ends (run es new_pool) ≡ true
    → (length ends + work_left (end_tasks ends (run es new_pool)) ≡ work_left (run es new_pool))
      × (is_empty (end_tasks ends (run es new_pool)).busy
          ≡ (work_left (end_tasks ends (run es new_pool)) == 0))
end_tasks-progress es ends alive staffed busy =
    let w = end_tasks-Works ends (run es new_pool) (run-Works es alive staffed) busy in
    (w.1, busy_or_done (end_tasks ends (run es new_pool)) w.0)

-- In a pool that is alive and in which a resource has come through its `init`, after any events: once as many
-- tasks have come to their ends as there was work left, in any order, each work item that was scheduled
-- has exactly one result.
pub end_tasks-all :
    (es : List Event) (ends : List (ℕ × Answer))
    → is_alive (run es new_pool) ≡ true
    → has_resource (run es new_pool) ≡ true
    → are_busy ends (run es new_pool) ≡ true
    → length ends ≡ work_left (run es new_pool)
    → (i : ℕ)
    → answered i (end_tasks ends (run es new_pool)).answers
      ≡ one (ltb i (end_tasks ends (run es new_pool)).scheduled)
end_tasks-all es ends alive staffed busy all i =
    let w = end_tasks-Works ends (run es new_pool) (run-Works es alive staffed) busy in
    nothing_left i (end_tasks ends (run es new_pool)) w.0 (omega (arith, w.1, all))
