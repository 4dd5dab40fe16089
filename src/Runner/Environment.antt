-- ===== src/Runner/Environment.antt =====
-- The test environment behind the reload decorator: which mutants run in an environment in which a
-- static mutant has been loaded.
use isep_mutation_levels.Prelude.{
  ◌≡◌, refl, Bool, true, false, not, ◌&&◌, ◌||◌, arith, if◌then◌else◌,
}
use isep_mutation_levels.Runner.Decorators.{
  TestEnvironmentState, pristine, is_pristine, is_static, reload_mutant_run, reload_dry_run,
}

-- What the inner runner has loaded: nothing, code with no static mutant, or a static mutant.
pub data Environment : Type 0 where
  fresh clean static_loaded : Environment

abbrev pub is_fresh : Environment → Bool
is_fresh fresh = true
is_fresh _ = false

abbrev pub is_static_loaded : Environment → Bool
is_static_loaded static_loaded = true
is_static_loaded _ = false

-- A run in an environment: a static mutant stays loaded.
abbrev pub run_in : (static : Bool) → Environment → Environment
run_in true env = static_loaded
run_in false static_loaded = static_loaded
run_in false _ = clean

-- A restart of the inner runner, and a reload, leave nothing loaded.
abbrev pub cleared_if : Bool → Environment → Environment
cleared_if true env = fresh
cleared_if false env = env

pub record System : Type 0 where
  pub state : TestEnvironmentState
  pub environment : Environment

-- The environment in which the run starts, the inner decorators having restarted the runner or not.
-- `asked` is `reloadEnvironment` of the options that the call is made with.
abbrev pub start_of_run : (capable asked restarted : Bool) → System → Environment
start_of_run capable asked restarted s =
    let r = reload_mutant_run s.state capable asked in
    cleared_if restarted (cleared_if (r.recovers || r.reload_environment) s.environment)

-- The calls of the decorator. One that is resolved may restart the inner runner before it (its reuse is
-- limited) or behind it (it timed out). Behind one that is rejected the runner is restarted, with a new
-- decorator; then the call is made again with the options that the first call has left, or it is given up.
-- The dry run is the first call of a decorator.
pub data Step (capable : Bool) : System → System → Type 0 where
  dry_run :
      (s : System) (timed_out : Bool)
      → is_pristine s.state ≡ true
      → Step capable s (record {
        state = reload_dry_run s.state;
        environment = cleared_if timed_out (run_in false s.environment);
      })
  mutant_run :
      (s : System) (static asked restarted timed_out : Bool)
      → Step capable s (record {
        state = (reload_mutant_run s.state capable asked).new_state;
        environment = cleared_if timed_out (run_in static (start_of_run capable asked restarted s));
      })
  rejected_run : (s : System) → Step capable s (record { state = pristine; environment = fresh })

pub data Reachable (capable : Bool) : System → Type 0 where
  start : Reachable capable (record { state = pristine; environment = fresh })
  next : {s t : System} → Reachable capable s → Step capable s t → Reachable capable t

-- A static mutant is run with a request to reload.
abbrev pub is_asked_for : {capable : Bool} {s t : System} → Step capable s t → Bool
is_asked_for (Step.dry_run s timed_out first) = true
is_asked_for (Step.mutant_run s static asked restarted timed_out) = not static || asked
is_asked_for (Step.rejected_run s) = true

abbrev pub all_asked_for : {capable : Bool} {s : System} → Reachable capable s → Bool
all_asked_for Reachable.start = true
all_asked_for (Reachable.next before step) = all_asked_for before && is_asked_for step

-- The decorator never takes the environment for cleaner than it is.
abbrev Cautious : System → Type 0
Cautious s =
    (is_pristine s.state ≡ true → is_fresh s.environment ≡ true)
    × (is_static_loaded s.environment ≡ true → is_static s.state ≡ true)

Step-Cautious :
    {capable : Bool} {s t : System} (step : Step capable s t)
    → is_asked_for step ≡ true
    → Cautious s
    → Cautious t
unfolding reload_mutant_run reload_dry_run
Step-Cautious (Step.dry_run s timed_out first) asked_for (fresh_at_first, known) =
    (λ h. ground arith, λ h. ground (arith, fresh_at_first, first))
Step-Cautious {capable = capable} (Step.mutant_run s static asked restarted timed_out) asked_for
      (fresh_at_first, known) =
    (λ h. ground arith, λ h. ground (arith, known, fresh_at_first, asked_for))
Step-Cautious (Step.rejected_run s) asked_for cautious = (λ h. refl, λ h. ground arith)

Reachable-Cautious :
    {capable : Bool} {s : System} (reached : Reachable capable s)
    → all_asked_for reached ≡ true
    → Cautious s
Reachable-Cautious Reachable.start h = (λ h. refl, λ h. ground arith)
Reachable-Cautious (Reachable.next before step) h =
    Step-Cautious step (ground (arith, h)) (Reachable-Cautious before (ground (arith, h)))

-- If every static mutant so far, and the one that is to run, if it is static, is run with a request to
-- reload the environment, then a static mutant starts with nothing loaded, and a mutant that is
-- switched on while the tests run starts in an environment with no static mutant. That request is
-- missing from a call that is made again after the first attempt has taken it out of the options.
pub reload_mutant_run-clears :
    (capable static asked restarted : Bool) (s : System) (reached : Reachable capable s)
    → all_asked_for reached ≡ true
    → (not static || asked) ≡ true
    → (if static
        then is_fresh (start_of_run capable asked restarted s)
        else not (is_static_loaded (start_of_run capable asked restarted s)))
      ≡ true
unfolding reload_mutant_run
reload_mutant_run-clears capable static asked restarted s reached before now =
    let (fresh_at_first, known) = Reachable-Cautious reached before in
    ground (arith, fresh_at_first, known, now)
