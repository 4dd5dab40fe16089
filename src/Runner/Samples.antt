-- ===== src/Runner/Samples.antt =====
-- Runs of test runners that crash, and of a static mutant behind another.
use isep_mutation_levels.Prelude.{ℕ, ◌≡◌, refl, ◌||◌, Bool, true, false, [], ◌∷◌, none}
use isep_mutation_levels.Coverage.Defs.{failed, skipped, CompleteDryRunResult}
use isep_mutation_levels.Coverage.Samples.{test_of}
use isep_mutation_levels.Runner.Results.{complete, to_mutant_run_result}
use isep_mutation_levels.Runner.Decorators.{
  pristine, loaded, Settled, resolved, rejected, max_retries, retry_run, reload_mutant_run,
}
use isep_mutation_levels.Runner.Verdicts.{
  is_killed, killers, tests_run, to_mutant_run_result-complete,
}
use isep_mutation_levels.Runner.Environment.{
  System, run_in, fresh, is_fresh, start_of_run, Reachable, Step, reload_mutant_run-clears,
}
use isep_mutation_levels.Runner.Shared.{
  Decorated, decorated_mutant_run, recover_decorated, retry_run-forgets,
}
use isep_mutation_levels.Runner.Retries.{count_calls, count_restarts, IsCount, retry_run-counts}

abbrev run_of_three : CompleteDryRunResult
run_of_three = record {
  tests =
      test_of "a" 1
      ∷ record (test_of "b" 2) { status = failed }
      ∷ record (test_of "c" 3) { status = skipped }
      ∷ [];
  mutant_coverage = none;
}

to_mutant_run_result-complete_example :
    (is_killed (to_mutant_run_result (complete run_of_three) false) ≡ true)
    × ((killers (to_mutant_run_result (complete run_of_three) true) ≡ "b" ∷ [])
        × (tests_run (to_mutant_run_result (complete run_of_three) false) ≡ 2))
to_mutant_run_result-complete_example = to_mutant_run_result-complete run_of_three false

-- A runner that crashes until it has been restarted.
abbrev crashing : Bool → Settled ℕ × Bool
crashing true = (resolved 7, true)
crashing false = (rejected "crash", false)

retry_run-counts_example :
    let out = retry_run (count_calls crashing) (count_restarts (λ w. true)) 2 "" (false, (0, 0)) in
    IsCount 2 (0, 0) out.0 out.1.1
retry_run-counts_example = retry_run-counts crashing (λ w. true) 2 "" false

abbrev at_first : System
at_first = record { state = pristine; environment = fresh }

-- The first call runs a static mutant; the next one is to be run with nothing loaded.
reload_mutant_run-clears_example :
    is_fresh (
      start_of_run false true false (record {
        state = (reload_mutant_run pristine false true).new_state;
        environment = run_in true fresh;
      }))
    ≡ true
unfolding reload_mutant_run
reload_mutant_run-clears_example =
    reload_mutant_run-clears false true true false _
      (Reachable.next Reachable.start (Step.mutant_run at_first true true false false)) refl refl

-- A runner that crashes at its first call.
abbrev crashing_once : Bool → Bool → Settled ℕ × Bool
crashing_once reload_environment w = crashing w

abbrev static_call : Decorated Bool
static_call = record { state = pristine; asked = true; inner = false }

-- The runner is capable of a reload, and a static mutant runs twice in a new environment.
retry_run-forgets_example :
    let state =
      (retry_run
        (decorated_mutant_run true (λ w. true) crashing_once)
        (recover_decorated true (λ w. true) crashing_once)
        max_retries
        ""
        static_call).1.state in
    let next = reload_mutant_run state true false in
    (state ≡ loaded) × ((next.recovers || next.reload_environment) ≡ false)
unfolding decorated_mutant_run recover_decorated
retry_run-forgets_example =
    retry_run-forgets true (λ w. true) crashing_once static_call "" {e = "crash"} {x = 7} refl refl
      refl
