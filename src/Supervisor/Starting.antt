-- ===== src/Supervisor/Starting.antt =====
-- crates/translator-daemon/src/sidecar_supervisor.rs: `start` with its retries, the liveness of the
-- child, and the sessions. `expect` on a missing launch is a panic.
use translator.Prelude.{
  ℕ, zero, suc, ◌+◌, Bool, true, false, not, ◌==◌, if◌then◌else◌, [], ◌∷◌, ◌++◌, Option, none, some,
  is_some, ok, err, ensure,
}
use translator.Prelude.Effects.{◌>>=◌, ◌>>◌, pure, fails, lift}
use translator.Supervisor.{
  max_start_attempts, ChildState, running, SidecarLaunch, CloseOutcome, acknowledged,
  generation_restarted, SupervisorError, not_ready, unknown_session, start_failed,
  readiness_timeout, readiness_failed, generation_mismatch, Supervised, SidecarRuntime,
  SidecarSupervisor, Supervising, contains, retain_other, sync_active_count, with_ready,
  with_close_wait, set_unready, calls, changes, renew_launch, reap_and_cleanup,
}

-- The `match` on the probe's answer.
unfoldable pub probe_verdict : SidecarLaunch → Option (Supervised ℕ) → Supervised (Unit {0})
probe_verdict launch none = err readiness_timeout
probe_verdict launch (some (err e)) = err readiness_failed
probe_verdict launch (some (ok observed)) =
    if not (observed == launch.generation_id) then err generation_mismatch else ok tt

unfoldable pub is_running : Supervised ChildState → Bool
is_running (ok running) = true
is_running _ = false

-- What one attempt came to.
pub data Attempt : Type 0 where
  ready_now : Attempt
  failed : SupervisorError → Attempt

module _ {R : Type 0} where
  -- `launch.clone().expect(..)`
  abbrev pub current_launch : Supervising R SidecarLaunch
  current_launch s = elim s.launch [ none ↦ none | some launch ↦ some (s, ok launch) ]

  abbrev pub reads : {A : Type 0} → (SidecarSupervisor R → A) → Supervising R A
  reads f s = some (s, ok (f s))

  abbrev pub add_session : ℕ → SidecarSupervisor R → SidecarSupervisor R
  add_session session s =
      if contains session s.active_sessions
      then s
      else sync_active_count (record s { active_sessions = s.active_sessions ++ session ∷ [] })

  abbrev pub drop_session : ℕ → SidecarSupervisor R → SidecarSupervisor R
  drop_session session s =
      sync_active_count (record s { active_sessions = retain_other session s.active_sessions })

module _ {R : Type 0} (runtime : SidecarRuntime R) where
  unfoldable pub probed : Supervised (Unit {0}) → Supervising R Attempt
  unfolding reap_and_cleanup
  probed (ok _) = do changes (with_ready true); pure ready_now
  probed (err e) = do reap_and_cleanup runtime; pure (failed e)

  unfoldable pub started : SidecarLaunch → Supervised (Unit {0}) → Supervising R Attempt
  unfolding probed probe_verdict
  started launch (err e) = pure (failed start_failed)
  started launch (ok _) = do
    answer ← calls (runtime.probe launch)
    probed (probe_verdict launch answer)

  unfoldable pub attempt_start : Supervising R Attempt
  unfolding started
  attempt_start = do
    launch ← current_launch
    answer ← calls (runtime.start launch)
    started launch answer

  -- `if attempt + 1 < MAX_START_ATTEMPTS`, of which the first argument is the rest of the attempts.
  unfoldable pub prepare_retry : ℕ → ℕ → Supervising R (Unit {0})
  unfolding renew_launch
  prepare_retry zero attempt = pure tt
  prepare_retry (suc rest) attempt = do
    renew_launch runtime
    waited ← calls (runtime.wait_before_retry (attempt + 1))
    lift waited

  -- The loop with the attempts that are left, the number of this one and the last error.
  unfoldable pub start_loop : ℕ → ℕ → SupervisorError → Supervising R (Unit {0})
  unfolding attempt_start prepare_retry
  start_loop zero attempt last = fails last
  start_loop (suc rest) attempt last = do
    result ← attempt_start
    elim result [
      | ready_now ↦ pure tt
      | failed e ↦ (do prepare_retry rest attempt; start_loop rest (attempt + 1) e)
    ]

  unfoldable pub ensure_launch : Supervising R (Unit {0})
  unfolding renew_launch
  ensure_launch s = if is_some s.launch then some (s, ok tt) else renew_launch runtime s

  unfoldable pub start : Supervising R (Unit {0})
  unfolding set_unready ensure_launch start_loop
  start = do changes set_unready; ensure_launch; start_loop max_start_attempts 0 start_failed

  unfoldable pub refresh_liveness : SidecarSupervisor R → SidecarSupervisor R
  unfolding is_running set_unready
  refresh_liveness s =
      let (r, child) = runtime.poll_child_state s.runtime in
      if s.status.ready
      then (if is_running child
          then record s { runtime = r }
          else set_unready (record s { runtime = r }))
      else s

  unfoldable pub require_ready : Supervising R (Unit {0})
  unfolding refresh_liveness
  require_ready s = let s' = refresh_liveness s in some (s', ensure s'.status.ready not_ready)

  unfoldable pub register_session : ℕ → Supervising R (Unit {0})
  unfolding require_ready
  register_session session = do require_ready; changes (add_session session)

  -- A close that is not acknowledged ends the generation, and starts another.
  unfoldable pub restart_generation : Supervising R CloseOutcome
  unfolding set_unready renew_launch reap_and_cleanup start
  restart_generation = do
    changes set_unready
    reap_and_cleanup runtime
    renew_launch runtime
    start
    pure generation_restarted

  unfoldable pub end_session : ℕ → Bool → Supervising R CloseOutcome
  unfolding retain_other restart_generation
  end_session session true = do changes (drop_session session); pure acknowledged
  end_session session false = restart_generation

  -- `acknowledgement` says whether it came within the timeout.
  unfoldable pub await_close : ℕ → (R → R × Bool) → Supervising R CloseOutcome
  unfolding end_session
  await_close session acknowledgement = do
    known ← reads (λ s. contains session s.active_sessions)
    lift (ensure known unknown_session)
    changes (with_close_wait true)
    came ← calls acknowledgement
    changes (with_close_wait false)
    end_session session came

  unfoldable pub close_session : ℕ → (R → R × Bool) → Supervising R CloseOutcome
  unfolding require_ready await_close
  close_session session acknowledgement = do require_ready; await_close session acknowledgement
