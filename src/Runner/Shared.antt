-- ===== src/Runner/Shared.antt =====
-- The reload decorator under the retry decorator: every attempt is called with the same options, which
-- the reload decorator writes to.
use isep_mutation_levels.Prelude.{
  ◌≡◌, refl, ◌∙◌, ap, String, Bool, true, false, not, ◌&&◌, ◌||◌, arith, if◌then◌else◌,
}
use isep_mutation_levels.Runner.Decorators.{
  Settled, resolved, rejected, max_retries, retry_run, TestEnvironmentState, Reload, pristine,
  loaded, loaded_static_mutant, is_pristine, reload_mutant_run,
}

-- A reload decorator with its inner runner `W`, and `reloadEnvironment` of the options of the call.
pub record Decorated (W : Type 0) : Type 0 where
  pub state : TestEnvironmentState
  pub asked : Bool
  pub inner : W

module _ {W R : Type 0} (capable : Bool) (recover_inner : W → W)
    (run_inner : (reload_environment : Bool) → W → Settled R × W) where
  -- `mutantRun` behind the call of the inner runner: a call that is rejected leaves the state.
  abbrev pub set_state : Reload → Decorated W → Settled R × W → Settled R × Decorated W
  set_state r s (resolved x, w) =
      (resolved x, record { state = r.new_state; asked = r.reload_environment; inner = w })
  set_state r s (rejected e, w) =
      (rejected e, record { state = s.state; asked = r.reload_environment; inner = w })

  -- `mutantRun` of the reload decorator.
  unfoldable pub decorated_mutant_run : Decorated W → Settled R × Decorated W
  unfolding reload_mutant_run
  decorated_mutant_run s =
      let r = reload_mutant_run s.state capable s.asked in
      set_state r s
        (run_inner r.reload_environment (if r.recovers then recover_inner s.inner else s.inner))

  -- `recover` of the retry decorator: a new reload decorator. The options are those of the call.
  unfoldable pub recover_decorated : Decorated W → Decorated W
  recover_decorated s = record { state = pristine; asked = s.asked; inner = recover_inner s.inner }

  set_state-asked :
      (r : Reload) (s : Decorated W) (answer : Settled R × W)
      → (set_state r s answer).1.asked ≡ r.reload_environment
  set_state-asked r s (resolved x, w) = refl
  set_state-asked r s (rejected e, w) = refl

  set_state-state :
      (r : Reload) (s : Decorated W) (answer : Settled R × W) {x : R}
      → (set_state r s answer).0 ≡ resolved x
      → (set_state r s answer).1.state ≡ r.new_state
  set_state-state r s (resolved x, w) h = refl
  set_state-state r s (rejected e, w) h = cc

  twice :
      (state : TestEnvironmentState)
      → (reload_mutant_run pristine capable
          (reload_mutant_run state capable true).reload_environment).new_state
        ≡ (if not (is_pristine state) && capable then loaded_static_mutant else loaded)
  unfolding reload_mutant_run
  twice state = ground arith

  next-clears :
      (state : TestEnvironmentState)
      → let next =
          reload_mutant_run
            (if not (is_pristine state) && capable then loaded_static_mutant else loaded)
            capable
            false in
        (next.recovers || next.reload_environment) ≡ (not (is_pristine state) && capable)
  unfolding reload_mutant_run
  next-clears state = ground arith

  decorated_mutant_run-asked :
      (s : Decorated W)
      → (decorated_mutant_run s).1.asked
        ≡ (reload_mutant_run s.state capable s.asked).reload_environment
  unfolding decorated_mutant_run
  decorated_mutant_run-asked s = set_state-asked (reload_mutant_run s.state capable s.asked) s _

  decorated_mutant_run-state :
      (s : Decorated W) {x : R}
      → (decorated_mutant_run s).0 ≡ resolved x
      → (decorated_mutant_run s).1.state ≡ (reload_mutant_run s.state capable s.asked).new_state
  unfolding decorated_mutant_run
  decorated_mutant_run-state s {x} h =
      set_state-state (reload_mutant_run s.state capable s.asked) s _ {x = x} h

  second_state :
      (s : Decorated W) {x : R}
      → s.asked ≡ true
      → (decorated_mutant_run (recover_decorated (decorated_mutant_run s).1)).0 ≡ resolved x
      → (decorated_mutant_run (recover_decorated (decorated_mutant_run s).1)).1.state
        ≡ (if not (is_pristine s.state) && capable then loaded_static_mutant else loaded)
  unfolding recover_decorated
  second_state s {x} asked second =
      let again = recover_decorated (decorated_mutant_run s).1 in
      decorated_mutant_run-state again {x = x} second
      ∙ ap (λ a. (reload_mutant_run pristine capable a).new_state) (decorated_mutant_run-asked s)
      ∙ ap
          (λ a.
            (reload_mutant_run pristine capable
              (reload_mutant_run s.state capable a).reload_environment).new_state)
          asked
      ∙ twice s.state

  -- Let a static mutant be run, with the request to reload, under the retry decorator, the first attempt
  -- be rejected and the second resolved. Then the reload decorator takes the environment for one with a
  -- static mutant only if the first attempt was to reload, which it is not in a pristine state or with
  -- a runner that is not capable of it. Only then will it clear the environment for a mutant that is
  -- switched on while the tests run.
  pub retry_run-forgets :
      (s : Decorated W) (last_error : String) {e : String} {x : R}
      → s.asked ≡ true
      → (decorated_mutant_run s).0 ≡ rejected e
      → (decorated_mutant_run (recover_decorated (decorated_mutant_run s).1)).0 ≡ resolved x
      → let state =
          (retry_run decorated_mutant_run recover_decorated max_retries last_error s).1.state in
        let next = reload_mutant_run state capable false in
        (state ≡ (if not (is_pristine s.state) && capable then loaded_static_mutant else loaded))
        × ((next.recovers || next.reload_environment) ≡ (not (is_pristine s.state) && capable))
  unfolding retry_run
  retry_run-forgets s last_error {e} {x} asked first second =
      let left = second_state s {x = x} asked second in
      rw (first, retry_run, second, left) (refl, next-clears s.state)
