-- ===== src/Gate/Clients.antt =====
-- Clients of the gate: any interleaving of acquisitions, releases (explicit, or by drop) and the stop of
-- the daemon, with every lease that was granted.
use translator.Prelude.{
  ℕ, zero, suc, ◌+◌, if◌then◌else◌, Bool, true, false, List, [], ◌∷◌, Result, ok, err,
}
use translator.Gate.{
  AudioOperationState, idle, production, stopping, human_round_trip, GateInner, AudioOperationLease,
  new_gate, acquire_production, acquire_human_round_trip, acquire_manual, begin_stopping, release,
  AudioOperationAdmissionError,
}

pub data Call : Type 0 where
  call_production call_manual call_stop : Call
  call_round_trip : ℕ → Call
  -- The lease at this place of the list is released or dropped.
  call_release : ℕ → Call

-- The gate with every lease that was ever granted, newest first.
pub record System : Type 0 where
  pub gate : GateInner
  pub leases : List AudioOperationLease

unfoldable pub granted :
    System → Result (GateInner × AudioOperationLease) AudioOperationAdmissionError → System
granted s (ok (g, l)) = record { gate = g; leases = l ∷ s.leases }
granted s (err e) = s

unfoldable pub release_at : GateInner → List AudioOperationLease → ℕ → System
release_at g [] n = record { gate = g; leases = [] }
release_at g (l ∷ ls) zero = let (g', l', _) = release g l in record { gate = g'; leases = l' ∷ ls }
release_at g (l ∷ ls) (suc n) =
    let s = release_at g ls n in record { gate = s.gate; leases = l ∷ s.leases }

unfoldable pub step : System → Call → System
unfolding granted
step s call_production = granted s (acquire_production s.gate)
step s call_manual = granted s (acquire_manual s.gate)
step s (call_round_trip u) = granted s (acquire_human_round_trip s.gate u)
step s call_stop = record s { gate = begin_stopping s.gate }
step s (call_release n) = release_at s.gate s.leases n

unfoldable pub run : System → List Call → System
run s [] = s
run s (c ∷ cs) = run (step s c) cs

abbrev pub start : System
start = record { gate = new_gate; leases = [] }

abbrev pub is_operation : AudioOperationState → Bool
is_operation production = true
is_operation (human_round_trip u) = true
is_operation idle = false
is_operation stopping = false

-- The leases whose release would open the gate.
unfoldable pub holders : GateInner → List AudioOperationLease → ℕ
holders g [] = 0
holders g (l ∷ ls) = (if (release g l).2 then 1 else 0) + holders g ls
