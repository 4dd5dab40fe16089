-- ===== src/Runner/Retries.antt =====
-- How often the retry decorator calls and restarts the inner runner, and how often a runner is
-- reused.
use isep_mutation_levels.Prelude.{
  leb, ◌==◌, ◌||◌, true, ℕ, zero, suc, ◌+◌, ◌≤◌, ◌≡◌, refl, String, arith, ◌⊎◌, inl, inr,
  if◌then◌else◌,
}
use isep_mutation_levels.Runner.Decorators.{
  Settled, resolved, rejected, retry_run, reuse_mutant_run,
}

-- A world that counts the calls and the restarts.
abbrev pub Counted : Type 0 → Type 0
Counted W = W × (ℕ × ℕ)

abbrev pub count_calls : {W R : Type 0} → (W → Settled R × W) → Counted W → Settled R × Counted W
count_calls act (w, (calls, restarts)) =
    let (answer, w') = act w in (answer, (w', (calls + 1, restarts)))

abbrev pub count_restarts : {W : Type 0} → (W → W) → Counted W → Counted W
count_restarts recover (w, (calls, restarts)) = (recover w, (calls, restarts + 1))

-- With a result, one restart for each call but the last; with none, the calls and the restarts
-- are as many as there are attempts, and one restart more.
abbrev pub IsCount : {R : Type 0} → ℕ → (ℕ × ℕ) → Settled R → (ℕ × ℕ) → Type 0
IsCount attempts (c, r) (resolved _) (c', r') = (c' + r ≡ c + r' + 1) × (c' ≤ c + attempts)
IsCount attempts (c, r) (rejected _) (c', r') = (c' ≡ c + attempts) × (r' ≡ r + attempts + 1)

more :
    {R : Type 0} (attempts c r : ℕ) (answer : Settled R) (count : ℕ × ℕ)
    → IsCount attempts (c + 1, r + 1) answer count
    → IsCount (suc attempts) (c, r) answer count
more attempts c r (resolved x) (c', r') (p, q) = (omega arith, omega arith)
more attempts c r (rejected x) (c', r') (p, q) = (omega arith, omega arith)

Settled-cases :
    {R : Type 0} (s : Settled R)
    → ((x : R) × (s ≡ resolved x)) ⊎ ((error : String) × (s ≡ rejected error))
Settled-cases (resolved x) = inl (x, refl)
Settled-cases (rejected error) = inr (error, refl)

module _ {W R : Type 0} where
  counted_from :
      (act : W → Settled R × W) (recover : W → W) (attempts : ℕ) (last_error : String) (w : W)
      (c r : ℕ)
      → let out =
          retry_run (count_calls act) (count_restarts recover) attempts last_error (w, (c, r)) in
        IsCount attempts (c, r) out.0 out.1.1
  unfolding retry_run
  counted_from act recover zero last_error w c r = (omega arith, omega arith)
  counted_from act recover (suc attempts) last_error w c r = elim (Settled-cases (act w).0) [
    | inl (x, e) ↦ rw (e, retry_run) (omega arith, omega arith)
    | inr (error, e) ↦
        rw (e, retry_run)
          (more attempts c r _ _
            (counted_from act recover attempts error (recover (act w).1) (c + 1) (r + 1)))
  ]

  -- The inner runner is called at most as often as there are attempts and restarted behind each
  -- call that is rejected; if all are rejected it is restarted once more.
  pub retry_run-counts :
      (act : W → Settled R × W) (recover : W → W) (attempts : ℕ) (last_error : String) (w : W)
      → let out =
          retry_run (count_calls act) (count_restarts recover) attempts last_error (w, (0, 0)) in
        IsCount attempts (0, 0) out.0 out.1.1
  retry_run-counts act recover attempts last_error w =
      counted_from act recover attempts last_error w 0 0

-- The counter of the reuse decorator, and the calls of the runner that is in use, behind so many
-- calls.
abbrev pub reused : (restart_after : ℕ) → (calls : ℕ) → ℕ × ℕ
reused restart_after zero = (0, 0)
reused restart_after (suc calls) =
    let (runs, on_current) = reused restart_after calls in
    let (recovers, runs') = reuse_mutant_run restart_after runs in
    (runs', if recovers then 1 else on_current + 1)

-- The counter is the number of calls of the runner in use, and with a limit no runner is called
-- more often than that.
pub reuse_mutant_run-bounded :
    (restart_after calls : ℕ)
    → ((reused restart_after calls).0 ≡ (reused restart_after calls).1)
      × (((restart_after == 0) || leb (reused restart_after calls).1 restart_after) ≡ true)
unfolding reuse_mutant_run
reuse_mutant_run-bounded restart_after zero = (refl, ground arith)
reuse_mutant_run-bounded restart_after (suc calls) =
    let (same, bounded) = reuse_mutant_run-bounded restart_after calls in
    (ground (arith, same), ground (arith, bounded))
