-- ===== src/Runner/Decorators.antt =====
-- The decorators of a test runner. What they decorate is a world `W` with the operations of the
-- inner runner: a call takes the world to the next one and gives a result, or is rejected.
use isep_mutation_levels.Prelude.{
  ℕ, zero, suc, ◌+◌, String, Bool, true, false, not, ◌&&◌, Option, none, some, ltb, if◌then◌else◌,
}
use Prim.Native.String.{◌++◌ as concat}
use isep_mutation_levels.Runner.Results.{
  DryRunResult, error, timeout, MutantRunResult, run_error, run_timeout,
}

-- A promise that is settled: a result, or the text of an error.
pub data Settled (R : Type 0) : Type 0 where
  resolved : R → Settled R
  rejected : String → Settled R

abbrev pub max_retries : ℕ
max_retries = 2

abbrev pub error_message : String
error_message =
    "Test runner crashed. Tried twice to restart it without any luck. Last time the error message was: "

module _ {W R : Type 0} where
  -- retry-rejected-decorator.ts, `run`: the result, or the text for the last error. `recover` is taken to
  -- be resolved: where it is rejected, the source hands that error on and attempts nothing more.
  unfoldable pub retry_run :
      (act_run : W → Settled R × W)
      → (recover : W → W) → (attempts_left : ℕ) → (last_error : String) → W
      → Settled R × W
  retry_run act_run recover zero last_error w =
      (rejected (concat error_message last_error), recover w)
  retry_run act_run recover (suc attempts) last_error w =
      let (answer, w') = act_run w in
      elim answer [
        | resolved r ↦ (resolved r, w')
        | rejected e ↦ retry_run act_run recover attempts e (recover w')
      ]

  -- timeout-decorator.ts, `run`: `none` where the time expires first.
  unfoldable pub timeout_run :
      (act_run : W → Option (Settled R) × W) → (recover : W → W) → W → Option (Settled R) × W
  timeout_run act_run recover w =
      let (answer, w') = act_run w in
      elim answer [ none ↦ (none, recover w') | some s ↦ (some s, w') ]

module _ {W : Type 0} where
  -- `dryRun` and `mutantRun` of the two decorators.
  unfoldable pub retry_dry_run : (W → Settled DryRunResult × W) → (W → W) → W → DryRunResult × W
  unfolding retry_run
  retry_dry_run act recover w =
      let (answer, w') = retry_run act recover max_retries "undefined" w in
      elim answer [ resolved r ↦ (r, w') | rejected text ↦ (error text, w') ]

  unfoldable pub retry_mutant_run :
      (W → Settled MutantRunResult × W) → (W → W) → W → MutantRunResult × W
  unfolding retry_run
  retry_mutant_run act recover w =
      let (answer, w') = retry_run act recover max_retries "undefined" w in
      elim answer [ resolved r ↦ (r, w') | rejected text ↦ (run_error text, w') ]

  unfoldable pub timeout_dry_run :
      (W → Option (Settled DryRunResult) × W) → (W → W) → W → Settled DryRunResult × W
  unfolding timeout_run
  timeout_dry_run act recover w =
      let (answer, w') = timeout_run act recover w in
      elim answer [ none ↦ (resolved (timeout none), w') | some s ↦ (s, w') ]

  unfoldable pub timeout_mutant_run :
      (W → Option (Settled MutantRunResult) × W) → (W → W) → W → Settled MutantRunResult × W
  unfolding timeout_run
  timeout_mutant_run act recover w =
      let (answer, w') = timeout_run act recover w in
      elim answer [ none ↦ (resolved (run_timeout none), w') | some s ↦ (s, w') ]

-- reload-environment-decorator.ts.
pub data TestEnvironmentState : Type 0 where
  pristine loaded loaded_static_mutant : TestEnvironmentState

-- What `mutantRun` does before it calls the inner runner: whether it recovers it, the value of
-- `reloadEnvironment` that it hands on, and the state that it sets once the run is through.
pub record Reload : Type 0 where
  pub recovers : Bool
  pub reload_environment : Bool
  pub new_state : TestEnvironmentState

abbrev pub is_pristine : TestEnvironmentState → Bool
is_pristine pristine = true
is_pristine _ = false

abbrev pub is_static : TestEnvironmentState → Bool
is_static loaded_static_mutant = true
is_static _ = false

unfoldable pub reload_mutant_run :
    TestEnvironmentState → (capable_of_reload : Bool) → (reload_environment : Bool) → Reload
reload_mutant_run state capable true = record {
  recovers = not (is_pristine state) && not capable;
  reload_environment = not (is_pristine state) && capable;
  new_state = loaded_static_mutant;
}
reload_mutant_run state capable false = record {
  recovers = is_static state && not capable;
  reload_environment = is_static state && capable;
  new_state = loaded;
}

unfoldable pub reload_dry_run : TestEnvironmentState → TestEnvironmentState
reload_dry_run state = loaded

-- max-test-runner-reuse-decorator.ts: whether `mutantRun` recovers the runner, and the counter.
unfoldable pub reuse_mutant_run : (restart_after runs : ℕ) → Bool × ℕ
reuse_mutant_run restart_after runs =
    if ltb 0 restart_after && ltb restart_after (runs + 1) then (true, 1) else (false, runs + 1)
