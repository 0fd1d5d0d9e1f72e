-- ===== src/Supervisor/Laws.antt =====
-- crates/translator-daemon/src/sidecar_supervisor.rs: what holds of the supervisor after each call,
-- whatever the runtime answers.
use translator.Prelude.{
  ℕ, zero, suc, ◌+◌, ◌≡◌, refl, Bool, true, false, [], Option, none, some, is_some, ok, err, arith,
  Bool-cases, inl, inr, subst,
}
use translator.Prelude.Effects.{bind-cases, ◌>>◌, pure}
use translator.Supervisor.{
  SupervisorError, start_failed, Supervised, SidecarRuntime, SidecarSupervisor, Supervising,
  set_unready, new_launch, renew_launch, cleanup_reaped, reap_and_cleanup,
}
use translator.Supervisor.Starting.{
  Attempt, ready_now, failed, probed, started, attempt_start, prepare_retry, start_loop,
  ensure_launch, start,
}

module _ {R : Type 0} where
  -- No session, and the sidecar ready or not.
  abbrev pub Idle : Bool → SidecarSupervisor R → Type 0
  Idle ready s =
      (s.status.ready ≡ ready)
      × (s.active_sessions ≡ [])
      × (s.status.session_count ≡ 0)
      × (s.status.close_wait_armed ≡ false)

  abbrev pub Launched : SidecarSupervisor R → Type 0
  Launched s = is_some s.launch ≡ true

  abbrev AttemptOutcome : Option (SidecarSupervisor R × Supervised Attempt) → Type 0
  AttemptOutcome none = ⊥
  AttemptOutcome (some (s, ok ready_now)) = Idle true s × Launched s
  AttemptOutcome (some (s, ok (failed e))) = Idle false s × Launched s
  AttemptOutcome (some (s, err e)) = Idle false s × Launched s

  -- A start ends with a ready sidecar or with an error, not with a panic, and without sessions.
  abbrev pub StartOutcome : Option (SidecarSupervisor R × Supervised (Unit {0})) → Type 0
  StartOutcome none = ⊥
  StartOutcome (some (s, ok _)) = Idle true s × Launched s
  StartOutcome (some (s, err e)) = Idle false s

  abbrev pub DownOutcome : Option (SidecarSupervisor R × Supervised (Unit {0})) → Type 0
  DownOutcome none = ⊥
  DownOutcome (some (s, ok _)) = Idle false s × Launched s
  DownOutcome (some (s, err e)) = Idle false s

module _ {R : Type 0} (runtime : SidecarRuntime R) where
  attempt-Outcome :
      (s : SidecarSupervisor R)
      → Idle false s
      → Launched s
      → AttemptOutcome (attempt_start runtime s)
  unfolding attempt_start started probed reap_and_cleanup cleanup_reaped
  attempt-Outcome s i l = ground (arith, i, l)

  pub renew-Outcome :
      (s : SidecarSupervisor R) → Idle false s → DownOutcome (renew_launch runtime s)
  unfolding renew_launch new_launch
  renew-Outcome s i = ground (arith, i)

  pub reap-Outcome :
      (s : SidecarSupervisor R)
      → Idle false s
      → Launched s
      → DownOutcome (reap_and_cleanup runtime s)
  unfolding reap_and_cleanup cleanup_reaped
  reap-Outcome s i l = ground (arith, i, l)

  retry-Outcome :
      (s : SidecarSupervisor R) (rest attempt : ℕ)
      → Idle false s
      → Launched s
      → DownOutcome (prepare_retry runtime rest attempt s)
  unfolding prepare_retry
  retry-Outcome s zero attempt i l = (i, l)
  retry-Outcome s (suc rest) attempt i l = ground (arith, renew-Outcome s i)

  retried-Outcome :
      (s : SidecarSupervisor R) (rest attempt : ℕ) (last : SupervisorError)
      → Idle false s
      → Launched s
      → ((t : SidecarSupervisor R)
          → Idle false t
          → Launched t
          → StartOutcome (start_loop runtime rest (attempt + 1) last t))
      → StartOutcome
          ((do prepare_retry runtime rest attempt; start_loop runtime rest (attempt + 1) last) s)
  retried-Outcome s rest attempt last i l next =
      let retried = retry-Outcome s rest attempt i l in
      bind-cases StartOutcome (prepare_retry runtime rest attempt)
        (λ _. start_loop runtime rest (attempt + 1) last) s
        (λ e. absurd (subst DownOutcome e retried)) (λ t x e. subst DownOutcome e retried)
        (λ t _ e. let h = subst DownOutcome e retried in next t h.0 h.1)

  loop-Outcome :
      (s : SidecarSupervisor R) (rest attempt : ℕ) (last : SupervisorError)
      → Idle false s
      → Launched s
      → StartOutcome (start_loop runtime rest attempt last s)
  unfolding start_loop
  loop-Outcome s zero attempt last i l = i
  loop-Outcome s (suc rest) attempt last i l =
      let after : Attempt → Supervising R (Unit {0}) = λ result. elim result [
        | ready_now ↦ pure tt
        | failed e ↦ (do
          prepare_retry runtime rest attempt
          start_loop runtime rest (attempt + 1) e)
      ] in
      bind-cases StartOutcome (attempt_start runtime) after s
        (λ e. absurd (subst AttemptOutcome e (attempt-Outcome s i l)))
        (λ t x e. (subst AttemptOutcome e (attempt-Outcome s i l)).0)
        (λ t a e.
          (elim a as (λ b. AttemptOutcome (some (t, ok b)) → StartOutcome (after b t)) [
            | ready_now ↦ λ h. h
            | failed f ↦ λ h.
                retried-Outcome t rest attempt f h.0 h.1
                  (λ u i' l'. loop-Outcome u rest (attempt + 1) f i' l')
          ])
            (subst AttemptOutcome e (attempt-Outcome s i l)))

  ensure-Outcome : (s : SidecarSupervisor R) → Idle false s → DownOutcome (ensure_launch runtime s)
  unfolding ensure_launch
  ensure-Outcome s i = elim (Bool-cases (is_some s.launch)) [
    | inl e ↦ rw (e, ensure_launch) (i, e)
    | inr e ↦ rw (e, ensure_launch) (renew-Outcome s i)
  ]

  -- Whatever the runtime answers, a start does not panic, and leaves no session; it returns well only
  -- with a sidecar that is ready and has a launch, and an error only with one that is not ready.
  pub start-StartOutcome :
      (s : SidecarSupervisor R) → s.status.close_wait_armed ≡ false → StartOutcome (start runtime s)
  unfolding start
  start-StartOutcome s a =
      let s₀ = set_unready s in
      let down : Idle false s₀ = unfold set_unready in (refl, refl, refl, a) in
      bind-cases StartOutcome (ensure_launch runtime) (λ _. start_loop runtime 3 0 start_failed) s₀
        (λ e. absurd (subst DownOutcome e (ensure-Outcome s₀ down)))
        (λ t x e. subst DownOutcome e (ensure-Outcome s₀ down))
        (λ t _ e.
          let h = subst DownOutcome e (ensure-Outcome s₀ down) in
          loop-Outcome t 3 0 start_failed h.0 h.1)
