-- ===== src/Latency/Duplex.antt =====
-- crates/translator-daemon/src/latency.rs: the two directions of the duplex policy, under calls for
-- both.
use translator.Prelude.{
  ◌≡◌, refl, Option, none, some, List, [], ◌∷◌, arith, Bool, true, false, if◌then◌else◌,
}
use translator.Contracts.{AudioDirection, microphone, speaker}
use translator.Latency.Policy.{LatencyTransition, DirectionPolicy, new_policy}
use translator.Latency.History.{Call, utterance, queue_lag, epoch, force, step, after}
use translator.Latency.Counters.{step-returns}
use translator.Latency.{
  DuplexLatencyPolicy, default_duplex, policy, set_policy, duplex_record_utterance,
  duplex_observe_queue_lag, duplex_evaluate_epoch, duplex_force_mode,
}

unfoldable pub duplex_step :
    DuplexLatencyPolicy
    → AudioDirection × Call
    → Option (DuplexLatencyPolicy × Option LatencyTransition)
unfolding duplex_record_utterance duplex_observe_queue_lag duplex_evaluate_epoch duplex_force_mode
duplex_step d (direction, utterance at_ms s) = some (duplex_record_utterance d direction at_ms s)
duplex_step d (direction, queue_lag at_ms lag) =
    some (duplex_observe_queue_lag d direction at_ms lag)
duplex_step d (direction, epoch end_ms) = duplex_evaluate_epoch d direction end_ms
duplex_step d (direction, force at_ms mode) = some (duplex_force_mode d direction at_ms mode)

unfoldable pub duplex_after :
    DuplexLatencyPolicy → List (AudioDirection × Call) → Option DuplexLatencyPolicy
duplex_after d [] = some d
duplex_after d (c ∷ cs) = elim (duplex_step d c) [ none ↦ none | some (e, t) ↦ duplex_after e cs ]

abbrev same_direction : AudioDirection → AudioDirection → Bool
same_direction microphone microphone = true
same_direction speaker speaker = true
same_direction _ _ = false

-- The calls for one direction.
pub calls_for : AudioDirection → List (AudioDirection × Call) → List Call
calls_for d [] = []
calls_for d ((e, c) ∷ cs) =
    let rest = calls_for d cs in if same_direction d e then c ∷ rest else rest

-- A call runs on the policy of its direction alone.
duplex_step-step :
    (p : DuplexLatencyPolicy) (d : AudioDirection) (c : Call) (q : DirectionPolicy)
    (t : Option LatencyTransition)
    → step (policy p d) c ≡ some (q, t)
    → duplex_step p (d, c) ≡ some (set_policy p d q, t)
unfolding duplex_step step
duplex_step-step p d (utterance at_ms s) q t e = ground arith
duplex_step-step p d (queue_lag at_ms lag) q t e = ground arith
duplex_step-step p d (epoch end_ms) q t e = rw (e, duplex_evaluate_epoch)
duplex_step-step p d (force at_ms mode) q t e = ground arith

abbrev Mirrors : DuplexLatencyPolicy → List (AudioDirection × Call) → DuplexLatencyPolicy → Type 0
Mirrors p cs q =
    (after p.microphone_policy (calls_for microphone cs) ≡ some q.microphone_policy)
    × (after p.speaker_policy (calls_for speaker cs) ≡ some q.speaker_policy)

duplex_after-Mirrors :
    (p : DuplexLatencyPolicy) (cs : List (AudioDirection × Call))
    → (q : DuplexLatencyPolicy) × (duplex_after p cs ≡ some q) × Mirrors p cs q
unfolding duplex_after calls_for after policy set_policy
duplex_after-Mirrors p [] = (p, refl, (refl, refl))
duplex_after-Mirrors p ((microphone, c) ∷ cs) =
    let (q, t, e) = step-returns p.microphone_policy c in
    let (r, f, m) = duplex_after-Mirrors (record p { microphone_policy = q }) cs in
    (r, rw (duplex_step-step p microphone c q t e, duplex_after) f, (rw (e, after) m.0, m.1))
duplex_after-Mirrors p ((speaker, c) ∷ cs) =
    let (q, t, e) = step-returns p.speaker_policy c in
    let (r, f, m) = duplex_after-Mirrors (record p { speaker_policy = q }) cs in
    (r, rw (duplex_step-step p speaker c q t e, duplex_after) f, (m.0, rw (e, after) m.1))

-- Any interleaving of calls for the two directions leaves each direction's policy exactly as its own
-- calls alone leave it, and never panics.
pub duplex_after-independent :
    (cs : List (AudioDirection × Call))
    → (q : DuplexLatencyPolicy) × (duplex_after default_duplex cs ≡ some q)
      × (after (new_policy microphone) (calls_for microphone cs) ≡ some q.microphone_policy)
      × (after (new_policy speaker) (calls_for speaker cs) ≡ some q.speaker_policy)
unfolding default_duplex
duplex_after-independent cs =
    let (q, e, m) = duplex_after-Mirrors default_duplex cs in (q, e, m.0, m.1)
