-- ===== src/Supervisor/History.antt =====
-- crates/translator-daemon/src/sidecar_supervisor.rs: the supervisor under any calls.
use translator.Prelude.{
  ℕ, ◌≡◌, refl, Bool, true, false, List, [], ◌∷◌, length, Option, none, some, is_some, ok, err,
  arith, Option-cases, Bool-cases, inl, inr, subst,
}
use translator.Prelude.Effects.{bind-cases, ◌>>◌, pure}
use translator.Supervisor.{
  generation_restarted, Supervised, SidecarRuntime, SidecarSupervisor, Supervising, new_supervisor,
  set_unready, changes, renew_launch, cleanup_reaped, reap_and_cleanup, shutdown, contains,
  with_close_wait,
}
use translator.Supervisor.Starting.{
  require_ready, refresh_liveness, register_session, close_session, start, add_session,
  restart_generation, end_session, await_close,
}
use translator.Supervisor.Laws.{
  Idle, Launched, StartOutcome, DownOutcome, start-StartOutcome, renew-Outcome, reap-Outcome,
}

pub data Call (R : Type 0) : Type 0 where
  starts shuts asks : Call R
  registers : ℕ → Call R
  -- whether the acknowledgement comes, and what it does to the runtime
  closes : ℕ → (R → R × Bool) → Call R

module _ {R : Type 0} where
  -- The count is that of the sessions; without a ready sidecar there are none, and a ready one has a
  -- launch; no close is being waited for.
  abbrev pub Sane : SidecarSupervisor R → Type 0
  Sane s =
      (s.status.session_count ≡ length s.active_sessions)
      × (s.status.ready ≡ false → s.active_sessions ≡ [])
      × (s.status.ready ≡ true → is_some s.launch ≡ true)
      × (s.status.close_wait_armed ≡ false)

  abbrev pub SaneAfter : {A : Type 0} → Option (SidecarSupervisor R × Supervised A) → Type 0
  SaneAfter none = ⊥
  SaneAfter (some (s, r)) = Sane s

module _ {R : Type 0} (runtime : SidecarRuntime R) where
  Idle-Sane : (s : SidecarSupervisor R) → Idle false s → Sane s
  Idle-Sane s h = ground (arith, h)

  started-Sane :
      (o : Option (SidecarSupervisor R × Supervised (Unit {0}))) → StartOutcome o → SaneAfter o
  started-Sane none h = h
  started-Sane (some (s, ok _)) h = ground (arith, h)
  started-Sane (some (s, err e)) h = ground (arith, h)

  refresh-Sane : (s : SidecarSupervisor R) → Sane s → Sane (refresh_liveness runtime s)
  unfolding refresh_liveness set_unready
  refresh-Sane s h = ground (arith, h)

  abbrev ReadyOutcome : Option (SidecarSupervisor R × Supervised (Unit {0})) → Type 0
  ReadyOutcome none = ⊥
  ReadyOutcome (some (s, ok _)) = Sane s × (s.status.ready ≡ true)
  ReadyOutcome (some (s, err e)) = Sane s

  ready-Outcome : (s : SidecarSupervisor R) → Sane s → ReadyOutcome (require_ready runtime s)
  unfolding require_ready
  ready-Outcome s h =
      let t = refresh_liveness runtime s in
      let sane = refresh-Sane s h in
      elim (Bool-cases t.status.ready) [
        | inl e ↦ rw (e, require_ready) (sane, e)
        | inr e ↦ rw (e, require_ready) sane
      ]

  -- What a call does once the sidecar is known to be ready.
  when_ready-Sane :
      {A : Type 0} (rest : Supervising R A)
      → ((t : SidecarSupervisor R) → Sane t → t.status.ready ≡ true → SaneAfter (rest t))
      → (s : SidecarSupervisor R) → Sane s
      → SaneAfter ((require_ready runtime >> rest) s)
  when_ready-Sane rest p s h =
      let o = ready-Outcome s h in
      bind-cases SaneAfter (require_ready runtime) (λ _. rest) s
        (λ e. absurd (subst ReadyOutcome e o)) (λ t x e. subst ReadyOutcome e o)
        (λ t _ e. let g = subst ReadyOutcome e o in p t g.0 g.1)

  added-Sane :
      (session : ℕ) (t : SidecarSupervisor R)
      → Sane t
      → t.status.ready ≡ true
      → Sane (add_session session t)
  added-Sane session t h r = ground (arith, h, r)

  register-Sane :
      (s : SidecarSupervisor R) (session : ℕ)
      → Sane s
      → SaneAfter (register_session runtime session s)
  unfolding register_session
  register-Sane s session h =
      when_ready-Sane (changes (add_session session)) (added-Sane session) s h

  start-Sane :
      (s : SidecarSupervisor R) → s.status.close_wait_armed ≡ false → SaneAfter (start runtime s)
  start-Sane s a = started-Sane (start runtime s) (start-StartOutcome runtime s a)

  restart-Sane :
      (s : SidecarSupervisor R)
      → Sane s
      → s.status.ready ≡ true
      → SaneAfter (restart_generation runtime s)
  unfolding restart_generation
  restart-Sane s h r =
      let s₀ = set_unready s in
      let down : Idle false s₀ = unfold set_unready in (refl, refl, refl, h.3) in
      let launched : Launched s₀ = unfold set_unready in h.2 r in
      bind-cases SaneAfter (reap_and_cleanup runtime)
        (λ _. do renew_launch runtime; start runtime; pure generation_restarted) s₀
        (λ e. absurd (subst DownOutcome e (reap-Outcome runtime s₀ down launched)))
        (λ t x e. Idle-Sane t (subst DownOutcome e (reap-Outcome runtime s₀ down launched)))
        (λ t _ e.
          let i = subst DownOutcome e (reap-Outcome runtime s₀ down launched) in
          bind-cases SaneAfter (renew_launch runtime)
            (λ _. do start runtime; pure generation_restarted) t
            (λ f. absurd (subst DownOutcome f (renew-Outcome runtime t i.0)))
            (λ u x f. Idle-Sane u (subst DownOutcome f (renew-Outcome runtime t i.0)))
            (λ u _ f.
              let j = subst DownOutcome f (renew-Outcome runtime t i.0) in
              bind-cases SaneAfter (start runtime) (λ _. pure generation_restarted) u
                (λ g. absurd (subst SaneAfter g (start-Sane u j.0.3)))
                (λ v x g. subst SaneAfter g (start-Sane u j.0.3))
                (λ v _ g. subst SaneAfter g (start-Sane u j.0.3))))

  end_session-Sane :
      (s : SidecarSupervisor R) (session : ℕ) (came : Bool)
      → Sane s
      → s.status.ready ≡ true
      → SaneAfter (end_session runtime session came s)
  unfolding end_session
  end_session-Sane s session true h r = ground (arith, h, r)
  end_session-Sane s session false h r = restart-Sane s h r

  await-Sane :
      (session : ℕ) (acknowledgement : R → R × Bool) (s : SidecarSupervisor R)
      → Sane s
      → s.status.ready ≡ true
      → SaneAfter (await_close runtime session acknowledgement s)
  unfolding await_close
  await-Sane session acknowledgement s h r =
      elim (Bool-cases (contains session s.active_sessions)) [
        | inr e ↦ rw e h
        | inl e ↦
            let (t, came) = acknowledgement s.runtime in
            rw e (
              end_session-Sane (with_close_wait false (record s { runtime = t })) session came
                (h.0, h.1, h.2, refl) r)
      ]

  close-Sane :
      (s : SidecarSupervisor R) (session : ℕ) (acknowledgement : R → R × Bool)
      → Sane s
      → SaneAfter (close_session runtime session acknowledgement s)
  unfolding close_session
  close-Sane s session acknowledgement h =
      when_ready-Sane (await_close runtime session acknowledgement)
        (await-Sane session acknowledgement) s h

  shutdown-Sane : (s : SidecarSupervisor R) → Sane s → SaneAfter (shutdown runtime s)
  unfolding shutdown set_unready cleanup_reaped
  shutdown-Sane s h = ground (arith, h)

  -- The call, with its answer left out.
  unfoldable pub answered :
      {A : Type 0} → Option (SidecarSupervisor R × Supervised A) → Option (SidecarSupervisor R)
  answered none = none
  answered (some (s, r)) = some s

  unfoldable pub supervised_call : SidecarSupervisor R → Call R → Option (SidecarSupervisor R)
  unfolding answered
  supervised_call s starts = answered (start runtime s)
  supervised_call s shuts = answered (shutdown runtime s)
  supervised_call s asks = some (refresh_liveness runtime s)
  supervised_call s (registers u) = answered (register_session runtime u s)
  supervised_call s (closes u a) = answered (close_session runtime u a s)

  unfoldable pub supervised : SidecarSupervisor R → List (Call R) → Option (SidecarSupervisor R)
  unfolding supervised_call
  supervised s [] = some s
  supervised s (c ∷ cs) = elim (supervised_call s c) [ none ↦ none | some t ↦ supervised t cs ]

  abbrev SaneNow : Option (SidecarSupervisor R) → Type 0
  SaneNow none = ⊥
  SaneNow (some s) = Sane s

  answered-SaneNow :
      {A : Type 0} (o : Option (SidecarSupervisor R × Supervised A))
      → SaneAfter o
      → SaneNow (answered o)
  unfolding answered
  answered-SaneNow none h = h
  answered-SaneNow (some (s, r)) h = h

  call-SaneNow : (s : SidecarSupervisor R) (c : Call R) → Sane s → SaneNow (supervised_call s c)
  unfolding supervised_call
  call-SaneNow s starts h = answered-SaneNow (start runtime s) (start-Sane s h.3)
  call-SaneNow s shuts h = answered-SaneNow (shutdown runtime s) (shutdown-Sane s h)
  call-SaneNow s asks h = refresh-Sane s h
  call-SaneNow s (registers u) h =
      answered-SaneNow (register_session runtime u s) (register-Sane s u h)
  call-SaneNow s (closes u a) h =
      answered-SaneNow (close_session runtime u a s) (close-Sane s u a h)

  supervised-Sane_from :
      (s : SidecarSupervisor R) (cs : List (Call R))
      → Sane s
      → (t : SidecarSupervisor R) × (supervised s cs ≡ some t) × Sane t
  unfolding supervised
  supervised-Sane_from s [] h = (s, refl, h)
  supervised-Sane_from s (c ∷ cs) h = elim (Option-cases (supervised_call s c)) [
    | inl e ↦ absurd (subst SaneNow e (call-SaneNow s c h))
    | inr (t, e) ↦
        let (z, f, g) = supervised-Sane_from t cs (subst SaneNow e (call-SaneNow s c h)) in
        (z, rw (e, supervised) f, g)
  ]

-- Whatever the runtime answers to any sequence of starts, shutdowns, questions, registrations and closes,
-- the supervisor does not panic, and after them: the count it shares is that of its sessions; it has
-- none unless the sidecar is ready; a ready sidecar has a launch; and no close is being waited for.
pub supervised-Sane :
    {R : Type 0} (runtime : SidecarRuntime R) (r : R) (cs : List (Call R))
    → (s : SidecarSupervisor R) × (supervised runtime (new_supervisor r) cs ≡ some s) × Sane s
supervised-Sane runtime r cs =
    supervised-Sane_from runtime (new_supervisor r) cs
      (unfold new_supervisor in (refl, λ _. refl, λ h. cc, refl))
