-- ===== src/Gate/Exclusion.antt =====
-- crates/translator-daemon/src/audio_operation_gate.rs: the gate's invariant over all interleavings of
-- its clients' calls.
use translator.Prelude.{
  ℕ, zero, suc, ◌+◌, ◌≤◌, ◌<◌, if◌then◌else◌, ◌≡◌, refl, ap, ◌∙◌, true, List, [], ◌∷◌, arith,
}
use translator.Gate.{
  AudioOperationState, idle, production, stopping, human_round_trip, GateInner, AudioOperationLease,
  acquire, acquire_production, acquire_human_round_trip, acquire_manual, begin_stopping, release,
}
use translator.Gate.Clients.{
  Call, call_production, call_manual, call_stop, call_round_trip, call_release, System, granted,
  release_at, step, run, start, is_operation, holders,
}

-- Generations fall along the list and stay under the bound.
abbrev Under : ℕ → List AudioOperationLease → Type 0
Under n [] = Unit {0}
Under n (l ∷ ls) =
    (l.generation < n) × (is_operation l.expected_state ≡ true) × Under l.generation ls

-- The newest lease holds the gate.
abbrev HeldBy : GateInner → List AudioOperationLease → Type 0
HeldBy g [] = ⊥
HeldBy g (l ∷ ls) = (l.active ≡ true) × (l.generation ≡ g.generation) × (l.expected_state ≡ g.state)

abbrev Held : AudioOperationState → GateInner → List AudioOperationLease → Type 0
Held production g ls = HeldBy g ls
Held (human_round_trip u) g ls = HeldBy g ls
Held idle g ls = Unit {0}
Held stopping g ls = Unit {0}

record Inv (s : System) : Type 0 where
  word : s.gate.generation ≤ 18446744073709551615
  ordered : Under (suc s.gate.generation) s.leases
  held : Held s.gate.state s.gate s.leases

Under-mono : (m n : ℕ) (ls : List AudioOperationLease) → m ≤ n → Under m ls → Under n ls
Under-mono m n [] h u = tt
Under-mono m n (l ∷ ls) h u = (omega arith, u.1, u.2)

granted-Inv :
    (s : System) (requested : AudioOperationState)
    → is_operation requested ≡ true
    → Inv s
    → Inv (granted s (acquire s.gate requested))
unfolding granted acquire
granted-Inv s production h v =
    ground (arith, Under-mono (suc s.gate.generation) (suc (s.gate.generation + 1)) s.leases)
granted-Inv s (human_round_trip u) h v =
    ground (arith, Under-mono (suc s.gate.generation) (suc (s.gate.generation + 1)) s.leases)
granted-Inv s idle h v = cc
granted-Inv s stopping h v = cc

stop-Inv : (s : System) → Inv s → Inv (record s { gate = begin_stopping s.gate })
unfolding begin_stopping
stop-Inv s v = ground (
  arith,
  Under-mono (suc s.gate.generation) (suc (s.gate.generation + 1)) s.leases,
  Under-mono (suc s.gate.generation) (suc 18446744073709551615) s.leases,
)

-- A lease of an earlier generation leaves the gate as it is.
release_stale :
    (g : GateInner) (l : AudioOperationLease)
    → l.generation < g.generation
    → ((release g l).0 ≡ g)
      × ((release g l).1.generation ≡ l.generation)
      × ((release g l).1.expected_state ≡ l.expected_state)
unfolding release
release_stale g l h = ground arith

release_at_stale :
    (k : ℕ) (g : GateInner) (ls : List AudioOperationLease) (n : ℕ)
    → Under k ls
    → k ≤ g.generation
    → ((release_at g ls n).gate ≡ g) × Under k (release_at g ls n).leases
unfolding release_at
release_at_stale k g [] n u h = (refl, tt)
release_at_stale k g (l ∷ ls) zero u h = ground (arith, release_stale g l)
release_at_stale k g (l ∷ ls) (suc n) u h = ground (arith, release_at_stale l.generation g ls n)

-- The gate is left open, or as it was, by a release of the newest lease.
release_head :
    (g : GateInner) (l : AudioOperationLease) (ls : List AudioOperationLease)
    → Inv (record { gate = g; leases = l ∷ ls })
    → Inv (record { gate = (release g l).0; leases = (release g l).1 ∷ ls })
unfolding release
release_head g l ls v = ground arith

release_at-Inv :
    (g : GateInner) (ls : List AudioOperationLease) (n : ℕ)
    → Inv (record { gate = g; leases = ls })
    → Inv (release_at g ls n)
unfolding release_at
release_at-Inv g [] n v = v
release_at-Inv g (l ∷ ls) zero v = release_head g l ls v
release_at-Inv g (l ∷ ls) (suc n) v = ground (arith, release_at_stale l.generation g ls n)

step-Inv : (s : System) (c : Call) → Inv s → Inv (step s c)
unfolding step acquire_production acquire_manual acquire_human_round_trip
step-Inv s call_production v = granted-Inv s production refl v
step-Inv s call_manual v = granted-Inv s production refl v
step-Inv s (call_round_trip u) v = granted-Inv s (human_round_trip u) refl v
step-Inv s call_stop v = stop-Inv s v
step-Inv s (call_release n) v = release_at-Inv s.gate s.leases n v

run-Inv : (s : System) (cs : List Call) → Inv s → Inv (run s cs)
unfolding run
run-Inv s [] v = v
run-Inv s (c ∷ cs) v = run-Inv (step s c) cs (step-Inv s c v)

holders_stale :
    (k : ℕ) (g : GateInner) (ls : List AudioOperationLease)
    → Under k ls
    → k ≤ g.generation
    → holders g ls ≡ 0
unfolding holders release
holders_stale k g [] u h = refl
holders_stale k g (l ∷ ls) u h = ground (arith, holders_stale l.generation g ls)

holders_exact :
    (g : GateInner) (ls : List AudioOperationLease)
    → Inv (record { gate = g; leases = ls })
    → holders g ls ≡ (if is_operation g.state then 1 else 0)
unfolding holders release
holders_exact g [] v = ground arith
holders_exact g (l ∷ ls) v = ground (arith, holders_stale l.generation g ls)

-- Mutual exclusion. After any history of requests, releases and stops, exactly one of all leases ever
-- granted can open the gate if an operation runs, and none can if the gate is idle or stopping.
pub run-holders :
    (cs : List Call)
    → holders (run start cs).gate (run start cs).leases
      ≡ (if is_operation (run start cs).gate.state then 1 else 0)
run-holders cs =
    holders_exact (run start cs).gate (run start cs).leases
      (run-Inv start cs (record { word = omega arith; ordered = tt; held = tt }))

release_at_stopped :
    (k : ℕ) (g : GateInner) (ls : List AudioOperationLease) (n : ℕ)
    → Under k ls
    → g.state ≡ stopping
    → (release_at g ls n).gate ≡ g
unfolding release_at release
release_at_stopped k g [] n u e = refl
release_at_stopped k g (l ∷ ls) zero u e = ground arith
release_at_stopped k g (l ∷ ls) (suc n) u e = release_at_stopped l.generation g ls n u.2 e

step_stopped : (s : System) (c : Call) → Inv s → s.gate.state ≡ stopping → (step s c).gate ≡ s.gate
unfolding step granted acquire_production acquire_manual acquire_human_round_trip begin_stopping
step_stopped s call_production v e = ground arith
step_stopped s call_manual v e = ground arith
step_stopped s (call_round_trip u) v e = ground arith
step_stopped s call_stop v e = ground arith
step_stopped s (call_release n) v e =
    release_at_stopped (suc s.gate.generation) s.gate s.leases n v.ordered e

run_stopped :
    (s : System) (cs : List Call) → Inv s → s.gate.state ≡ stopping → (run s cs).gate ≡ s.gate
unfolding run
run_stopped s [] v e = refl
run_stopped s (c ∷ cs) v e =
    run_stopped (step s c) cs (step-Inv s c v) (ap (λ g. g.state) (step_stopped s c v e) ∙ e)
    ∙ step_stopped s c v e

stop_stops : (g : GateInner) → (begin_stopping g).state ≡ stopping
unfolding begin_stopping
stop_stops g = ground arith

-- Once a stop has begun, after any history, the gate is stopping and no later request, release or
-- drop of any lease moves it again.
pub run-stopped :
    (cs ds : List Call)
    → let s = step (run start cs) call_stop in
      (s.gate.state ≡ stopping) × ((run s ds).gate ≡ s.gate)
unfolding step
run-stopped cs ds =
    let s = step (run start cs) call_stop in
    let v : Inv (run start cs) =
      run-Inv start cs (record { word = omega arith; ordered = tt; held = tt }) in
    (
      stop_stops (run start cs).gate,
      run_stopped s ds (stop-Inv (run start cs) v) (stop_stops (run start cs).gate),
    )
