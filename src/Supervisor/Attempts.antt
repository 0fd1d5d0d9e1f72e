-- ===== src/Supervisor/Attempts.antt =====
-- crates/translator-daemon/src/sidecar_supervisor.rs: how often `start` starts the process.
use translator.Prelude.{
  ℕ, zero, suc, ◌+◌, ◌≤◌, Option, none, some, is_some, ok, err, arith, Option-cases, Bool-cases,
  inl, inr, subst,
}
use translator.Prelude.Effects.{bind-cases, ◌>>=◌, ◌>>◌, pure, lift}
use translator.Supervisor.{
  ChildState, SidecarLaunch, SupervisorError, start_failed, Supervised, SidecarRuntime,
  SidecarSupervisor, Supervising, set_unready, new_launch, renew_launch, cleanup_reaped,
  reap_and_cleanup, calls,
}
use translator.Supervisor.Starting.{
  Attempt, ready_now, failed, current_launch, probed, started, attempt_start, prepare_retry,
  probe_verdict, start_loop, ensure_launch, start,
}

-- A count, in the runtime's state, that only a start of the process moves, by one.
pub record Counts {R : Type 0} (runtime : SidecarRuntime R) (n : R → ℕ) : Type 0 where
  pub start : (l : SidecarLaunch) (r : R) → n (runtime.start l r).0 ≤ n r + 1
  pub probe : (l : SidecarLaunch) (r : R) → n (runtime.probe l r).0 ≤ n r
  pub kill : (r : R) → n (runtime.kill_and_reap r).0 ≤ n r
  pub remove : (c : ChildState) (r : R) → n (runtime.remove_stale_socket c r).0 ≤ n r
  pub wait : (k : ℕ) (r : R) → n (runtime.wait_before_retry k r).0 ≤ n r
  pub fill : (r : R) → n (runtime.fill r).0 ≤ n r
  pub new_v4 : (r : R) → n (runtime.new_v4 r).0 ≤ n r

module _ {R : Type 0} (runtime : SidecarRuntime R) (n : R → ℕ) (counts : Counts runtime n) where
  abbrev pub AtMost : {A : Type 0} → ℕ → Option (SidecarSupervisor R × Supervised A) → Type 0
  AtMost k none = Unit {0}
  AtMost k (some (s, r)) = n s.runtime ≤ k

  AtMost-weaken :
      {A : Type 0} (j k : ℕ) (o : Option (SidecarSupervisor R × Supervised A))
      → j ≤ k
      → AtMost j o
      → AtMost k o
  AtMost-weaken j k none l h = tt
  AtMost-weaken j k (some (s, r)) l h = omega arith

  then-AtMost :
      {A B : Type 0} (m : Supervising R A) (f : A → Supervising R B) (j k : ℕ)
      (s : SidecarSupervisor R)
      → j ≤ k
      → AtMost j (m s)
      → ((t : SidecarSupervisor R) (a : A) → n t.runtime ≤ j → AtMost k (f a t))
      → AtMost k ((m >>= f) s)
  then-AtMost {A = A} m f j k s l h next =
      bind-cases (AtMost k) m f s (λ _. tt)
        (λ t x e. AtMost-weaken {A = A} j k (some (t, err x)) l (subst (AtMost j) e h))
        (λ t a e. next t a (subst (AtMost j) e h))

  reap-AtMost : (s : SidecarSupervisor R) → AtMost (n s.runtime) (reap_and_cleanup runtime s)
  unfolding reap_and_cleanup cleanup_reaped
  reap-AtMost s =
      let (r, _) = runtime.kill_and_reap s.runtime in
      ground (arith, counts.kill s.runtime, counts.remove ChildState.reaped r)

  renew-AtMost : (s : SidecarSupervisor R) → AtMost (n s.runtime) (renew_launch runtime s)
  unfolding renew_launch new_launch
  renew-AtMost s =
      let (r, _) = runtime.fill s.runtime in ground (arith, counts.fill s.runtime, counts.new_v4 r)

  probed-AtMost :
      (r : Supervised (Unit {0})) (s : SidecarSupervisor R)
      → AtMost (n s.runtime) (probed runtime r s)
  unfolding probed
  probed-AtMost (ok _) s = omega arith
  probed-AtMost (err e) s =
      then-AtMost (reap_and_cleanup runtime) (λ _. pure (failed e)) (n s.runtime) (n s.runtime) s
        (omega arith) (reap-AtMost s) (λ t _ h. h)

  waits :
      (t : SidecarSupervisor R) (attempt k : ℕ)
      → n t.runtime ≤ k
      → n (runtime.wait_before_retry (attempt + 1) t.runtime).0 ≤ k
  waits t attempt k h = omega (arith, counts.wait (attempt + 1) t.runtime)

  started-AtMost :
      (l : SidecarLaunch) (r : Supervised (Unit {0})) (s : SidecarSupervisor R)
      → AtMost (n s.runtime) (started runtime l r s)
  unfolding started
  started-AtMost l (err e) s = omega arith
  started-AtMost l (ok _) s =
      then-AtMost (calls (runtime.probe l)) (λ a. probed runtime (probe_verdict l a)) (n s.runtime)
        (n s.runtime) s (omega arith) (counts.probe l s.runtime)
        (λ t a h.
          AtMost-weaken (n t.runtime) (n s.runtime) (probed runtime (probe_verdict l a) t) h
            (probed-AtMost (probe_verdict l a) t))

  current-AtMost : (s : SidecarSupervisor R) → AtMost (n s.runtime) (current_launch s)
  current-AtMost s = elim (Option-cases s.launch) [
    | inl e ↦ rw e tt
    | inr (l, e) ↦ rw e (omega arith)
  ]

  attempt-AtMost : (s : SidecarSupervisor R) → AtMost (n s.runtime + 1) (attempt_start runtime s)
  unfolding attempt_start
  attempt-AtMost s =
      then-AtMost current_launch
        (λ l. do answer ← calls (runtime.start l); started runtime l answer) (n s.runtime)
        (n s.runtime + 1) s (omega arith) (current-AtMost s)
        (λ t l h.
          then-AtMost (calls (runtime.start l)) (λ a. started runtime l a) (n t.runtime + 1)
            (n s.runtime + 1) t (omega arith) (counts.start l t.runtime)
            (λ u a g.
              AtMost-weaken (n u.runtime) (n s.runtime + 1) (started runtime l a u) (omega arith)
                (started-AtMost l a u)))

  retry-AtMost :
      (rest attempt : ℕ) (s : SidecarSupervisor R)
      → AtMost (n s.runtime) (prepare_retry runtime rest attempt s)
  unfolding prepare_retry
  retry-AtMost zero attempt s = omega arith
  retry-AtMost (suc rest) attempt s =
      then-AtMost (renew_launch runtime)
        (λ _. do waited ← calls (runtime.wait_before_retry (attempt + 1)); lift waited)
        (n s.runtime) (n s.runtime) s (omega arith) (renew-AtMost s)
        (λ t _ h.
          then-AtMost (calls (runtime.wait_before_retry (attempt + 1))) (λ w. lift w) (n s.runtime)
            (n s.runtime) t (omega arith) (waits t attempt (n s.runtime) h) (λ u w g. g))

  loop-AtMost :
      (rest attempt : ℕ) (last : SupervisorError) (s : SidecarSupervisor R)
      → AtMost (n s.runtime + rest) (start_loop runtime rest attempt last s)
  unfolding start_loop
  loop-AtMost zero attempt last s = omega arith
  loop-AtMost (suc rest) attempt last s =
      let after : Attempt → Supervising R (Unit {0}) = λ result. elim result [
        | ready_now ↦ pure tt
        | failed e ↦ (do
          prepare_retry runtime rest attempt
          start_loop runtime rest (attempt + 1) e)
      ] in
      then-AtMost (attempt_start runtime) after (n s.runtime + 1) (n s.runtime + suc rest) s
        (omega arith) (attempt-AtMost s)
        (λ t a h. elim a as (λ b. AtMost (n s.runtime + suc rest) (after b t)) [
          | ready_now ↦ omega arith
          | failed e ↦
              then-AtMost (prepare_retry runtime rest attempt)
                (λ _. start_loop runtime rest (attempt + 1) e) (n t.runtime)
                (n s.runtime + suc rest) t (omega arith) (retry-AtMost rest attempt t)
                (λ u _ g.
                  AtMost-weaken (n u.runtime + rest) (n s.runtime + suc rest)
                    (start_loop runtime rest (attempt + 1) e u) (omega arith)
                    (loop-AtMost rest (attempt + 1) e u))
        ])

  ensure-AtMost : (s : SidecarSupervisor R) → AtMost (n s.runtime) (ensure_launch runtime s)
  unfolding ensure_launch
  ensure-AtMost s = elim (Bool-cases (is_some s.launch)) [
    | inl e ↦ rw (e, ensure_launch) (omega arith)
    | inr e ↦ rw (e, ensure_launch) (renew-AtMost s)
  ]

  -- Whatever the runtime answers, `start` starts the process at most three times.
  pub start-AtMost : (s : SidecarSupervisor R) → AtMost (n s.runtime + 3) (start runtime s)
  unfolding start set_unready
  start-AtMost s =
      then-AtMost (ensure_launch runtime) (λ _. start_loop runtime 3 0 start_failed) (n s.runtime)
        (n s.runtime + 3) (set_unready s) (omega arith) (ensure-AtMost (set_unready s))
        (λ t _ h.
          AtMost-weaken (n t.runtime + 3) (n s.runtime + 3) (start_loop runtime 3 0 start_failed t)
            (omega arith) (loop-AtMost 3 0 start_failed t))
