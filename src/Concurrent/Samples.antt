-- ===== src/Concurrent/Samples.antt =====
-- packages/core/src/concurrent: a pool with two resources and four work items.
use isep_mutation_levels.Prelude.{ℕ, ◌+◌, ◌==◌, ◌≡◌, ◌≤◌, refl, true, List, [], ◌∷◌, length, ltb}
use isep_mutation_levels.Concurrent.State.{Answer, output, task_error, new_pool, Pool, is_empty}
use isep_mutation_levels.Concurrent.Defs.{
  Event, token, tokens_end, init_done, schedule, finish, run,
}
use isep_mutation_levels.Concurrent.Counts.{one, answered}
use isep_mutation_levels.Concurrent.Places.{UsesResources}
use isep_mutation_levels.Concurrent.Resources.{run-UsesResources}
use isep_mutation_levels.Concurrent.Queue.{TracksItems}
use isep_mutation_levels.Concurrent.Items.{run-TracksItems}
use isep_mutation_levels.Concurrent.Progress.{
  work_left, end_tasks, end_tasks-progress, end_tasks-all,
}
use isep_mutation_levels.Concurrent.Provider.{freed, disposed, calls_on, new_provider}
use isep_mutation_levels.Concurrent.Tokens.{upto, most_tokens, calls_on-tokens}

abbrev events : List Event
events =
    token
    ∷ token
    ∷ tokens_end
    ∷ schedule
    ∷ schedule
    ∷ schedule
    ∷ schedule
    ∷ init_done 1
    ∷ init_done 0
    ∷ finish 0 (output "a")
    ∷ []

abbrev after_events : Pool
unfolding run
after_events = run events new_pool

abbrev ends : List (ℕ × Answer)
ends = (1, output "b") ∷ (0, task_error "c") ∷ (1, output "d") ∷ []

-- The first idle resource takes the first item.
after_events_busy : after_events.busy ≡ (1, 0) ∷ (0, 2) ∷ []
unfolding run new_pool
after_events_busy = refl

after_events_todo : after_events.todo ≡ 3 ∷ []
unfolding run new_pool
after_events_todo = refl

run-UsesResources_example : UsesResources (run events new_pool)
run-UsesResources_example = run-UsesResources events

run-TracksItems_example : TracksItems (run events new_pool)
run-TracksItems_example = run-TracksItems events

end_tasks-progress_example :
    (length ends + work_left (end_tasks ends (run events new_pool))
      ≡ work_left (run events new_pool))
    × (is_empty (end_tasks ends (run events new_pool)).busy
        ≡ (work_left (end_tasks ends (run events new_pool)) == 0))
unfolding run new_pool
end_tasks-progress_example = end_tasks-progress events ends refl refl refl

end_tasks-all_example :
    answered 3 (end_tasks ends (run events new_pool)).answers
    ≡ one (ltb 3 (end_tasks ends (run events new_pool)).scheduled)
unfolding run new_pool
end_tasks-all_example = end_tasks-all events ends refl refl refl refl 3

calls_on-tokens_example :
    (calls_on (freed ∷ disposed ∷ freed ∷ []) (new_provider 5 true)).test_runner_tokens
      ≡ upto (
          length
            (calls_on (freed ∷ disposed ∷ freed ∷ []) (new_provider 5 true)).test_runner_tokens)
    × (length (calls_on (freed ∷ disposed ∷ freed ∷ []) (new_provider 5 true)).test_runner_tokens
        ≤ most_tokens 5 true)
calls_on-tokens_example = calls_on-tokens 5 true (freed ∷ disposed ∷ freed ∷ [])

-- With five processes at most: two test runners at first, and five once the checkers are freed.
freed_tokens :
    (calls_on (freed ∷ []) (new_provider 5 true)).test_runner_tokens ≡ 0 ∷ 1 ∷ 2 ∷ 3 ∷ 4 ∷ []
unfolding calls_on new_provider
freed_tokens = refl
