-- ===== src/Gate.antt =====
-- crates/translator-daemon/src/audio_operation_gate.rs. The gate and its leases share one locked
-- cell; each method holds the lock from end to end, so it is one step on the cell. A lease is a value
-- of its own that names the state and the generation under which it was granted.
pub mod Clients
pub mod Exclusion
use translator.Prelude.{
  ℕ, ◌+◌, Bool, true, false, ◌&&◌, ◌==◌, if◌then◌else◌, Option, none, some, Result, ok, err, ◌>>=◌,
  ok_or, checked_add64, saturating_add64, not,
}

-- A session is named by its uuid.
pub data AudioOperationState : Type 0 where
  idle production stopping : AudioOperationState
  human_round_trip : ℕ → AudioOperationState

pub data AudioOperationAdmissionError : Type 0 where
  busy : AudioOperationState → AudioOperationAdmissionError
  gate_stopping generation_exhausted : AudioOperationAdmissionError

pub record GateInner : Type 0 where
  pub state : AudioOperationState
  pub generation : ℕ  -- u64

pub record AudioOperationLease : Type 0 where
  pub expected_state : AudioOperationState
  pub generation : ℕ
  pub active : Bool

-- The derived `PartialEq`.
unfoldable pub same_state : AudioOperationState → AudioOperationState → Bool
same_state idle idle = true
same_state production production = true
same_state stopping stopping = true
same_state (human_round_trip s) (human_round_trip t) = s == t
same_state _ _ = false

abbrev pub new_gate : GateInner
new_gate = record { state = idle; generation = 0 }

admit : AudioOperationState → Result (Unit {0}) AudioOperationAdmissionError
admit idle = ok tt
admit stopping = err gate_stopping
admit production = err (busy production)
admit (human_round_trip s) = err (busy (human_round_trip s))

unfoldable pub acquire :
    GateInner
    → AudioOperationState
    → Result (GateInner × AudioOperationLease) AudioOperationAdmissionError
unfolding admit
acquire inner requested = do
  _ ← admit inner.state
  generation ← ok_or (checked_add64 inner.generation 1) generation_exhausted
  ok (
    record { state = requested; generation = generation },
    record { expected_state = requested; generation = generation; active = true },
  )

unfoldable pub acquire_production :
    GateInner → Result (GateInner × AudioOperationLease) AudioOperationAdmissionError
unfolding acquire
acquire_production inner = acquire inner production

unfoldable pub acquire_human_round_trip :
    GateInner → ℕ → Result (GateInner × AudioOperationLease) AudioOperationAdmissionError
unfolding acquire
acquire_human_round_trip inner session = acquire inner (human_round_trip session)

unfoldable pub acquire_manual :
    GateInner → Result (GateInner × AudioOperationLease) AudioOperationAdmissionError
unfolding acquire
acquire_manual inner = acquire inner production

unfoldable pub begin_stopping : GateInner → GateInner
unfolding same_state
begin_stopping inner =
    if not (same_state inner.state stopping)
    then record { state = stopping; generation = saturating_add64 inner.generation 1 }
    else inner

-- `release`, which `drop` calls too: the cell, the lease that is left, and whether the gate opened.
unfoldable pub release : GateInner → AudioOperationLease → GateInner × AudioOperationLease × Bool
unfolding same_state
release inner lease =
    if not lease.active
    then (inner, lease, false)
    else if inner.generation == lease.generation && same_state inner.state lease.expected_state
    then (record inner { state = idle }, record lease { active = false }, true)
    else (inner, record lease { active = false }, false)
