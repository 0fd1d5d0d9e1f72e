-- ===== src/RoundTrip/Checkpoints.antt =====
-- crates/translator-daemon/src/round_trip.rs: the checkpoints of the self test under any calls.
use translator.Prelude.{ℕ, ◌≡◌, ◌⊎◌, true, false, Option, none, some, is_some, List, [], ◌∷◌, arith}
use translator.RoundTrip.{
  RoundTripPreconditions, RoundTripCheckpoint, waiting_for_speech, outgoing_vad, outgoing_asr_final,
  outgoing_translation_final, english_first_audio, virtual_peer_reinjecting, incoming_asr_final,
  incoming_translation_final, russian_first_audio, completed, failed, stopped, is_terminal, next,
  RoundTripLatency, RoundTripErrorCode, RoundTripDebugText, Session, RoundTripSelfTest,
}
use translator.RoundTrip.Evidence.{ExactPcmProof}
use translator.RoundTrip.SelfTest.{
  start, advance, record_recursion_trigger, set_exact_pcm_proof, set_debug_text, stop, fail, expire,
}

-- A call on a session that is there or not, with the identifier that the caller names.
pub data SessionCall : Type 0 where
  advances : ℕ → RoundTripCheckpoint → RoundTripLatency → SessionCall
  triggers stops : ℕ → SessionCall
  proves : ℕ → ExactPcmProof → SessionCall
  texts : ℕ → RoundTripDebugText → SessionCall
  fails : ℕ → RoundTripErrorCode → SessionCall
  expires : ℕ → SessionCall

pub data Call : Type 0 where
  starts : RoundTripPreconditions → ℕ → ℕ → Call
  on_session : SessionCall → Call

unfoldable pub session_step : RoundTripSelfTest → SessionCall → RoundTripSelfTest
unfolding advance record_recursion_trigger set_exact_pcm_proof set_debug_text stop fail expire
session_step t (advances id checkpoint latency) = (advance t id checkpoint latency).0
session_step t (triggers id) = (record_recursion_trigger t id).0
session_step t (stops id) = (stop t id).0
session_step t (proves id proof) = (set_exact_pcm_proof t id proof).0
session_step t (texts id text) = (set_debug_text t id text).0
session_step t (fails id error) = (fail t id error).0
session_step t (expires at_ms) = (expire t at_ms).0

unfoldable pub step : RoundTripSelfTest → Call → RoundTripSelfTest
unfolding start
step t (starts preconditions at_ms fresh) = (start t preconditions at_ms fresh).0
step t (on_session c) = session_step t c

unfoldable pub run : RoundTripSelfTest → List Call → RoundTripSelfTest
run t [] = t
run t (c ∷ cs) = run (step t c) cs

-- The proof, if there is one, is of an exact match.
abbrev pub IsExact : Option ExactPcmProof → Type 0
IsExact none = Unit {0}
IsExact (some p) = p.exact_match ≡ true

-- The monitor has finished, and there is a proof of an exact match.
abbrev pub IsReinjected : Session → Type 0
IsReinjected s =
    (is_some s.latency.english_monitor_complete_ms ≡ true)
    × (is_some s.exact_pcm ≡ true)
    × IsExact s.exact_pcm

-- What a session at a checkpoint has.
abbrev pub Reached : RoundTripCheckpoint → Session → Type 0
Reached waiting_for_speech s = (s.exact_pcm ≡ none) × (s.safe_error ≡ none)
Reached outgoing_vad s = (s.exact_pcm ≡ none) × (s.safe_error ≡ none)
Reached outgoing_asr_final s = (s.exact_pcm ≡ none) × (s.safe_error ≡ none)
Reached outgoing_translation_final s = (s.exact_pcm ≡ none) × (s.safe_error ≡ none)
Reached english_first_audio s = IsExact s.exact_pcm × (s.safe_error ≡ none)
Reached virtual_peer_reinjecting s = IsReinjected s × (s.safe_error ≡ none)
Reached incoming_asr_final s = IsReinjected s × (s.safe_error ≡ none)
Reached incoming_translation_final s = IsReinjected s × (s.safe_error ≡ none)
Reached russian_first_audio s = IsReinjected s × (s.safe_error ≡ none)
Reached completed s = IsReinjected s × (s.safe_error ≡ none)
Reached failed s = IsExact s.exact_pcm × (is_some s.safe_error ≡ true) × (s.debug_text ≡ none)
Reached stopped s = IsExact s.exact_pcm × (s.debug_text ≡ none)

abbrev pub Sound : RoundTripSelfTest → Type 0
Sound none = Unit {0}
Sound (some s) = Reached s.checkpoint s

session_step-Sound : (t : RoundTripSelfTest) (c : SessionCall) → Sound t → Sound (session_step t c)
unfolding session_step
session_step-Sound t (advances id checkpoint latency) v = ground arith
session_step-Sound t (triggers id) v = ground arith
session_step-Sound t (stops id) v = ground arith
session_step-Sound t (proves id proof) v = ground arith
session_step-Sound t (texts id text) v = ground arith
session_step-Sound t (fails id error) v = ground arith
session_step-Sound t (expires at_ms) v = ground arith

step-Sound : (t : RoundTripSelfTest) (c : Call) → Sound t → Sound (step t c)
unfolding step
step-Sound t (starts preconditions at_ms fresh) v = ground arith
step-Sound t (on_session c) v = session_step-Sound t c v

run-Sound_from : (t : RoundTripSelfTest) (cs : List Call) → Sound t → Sound (run t cs)
unfolding run
run-Sound_from t [] v = v
run-Sound_from t (c ∷ cs) v = run-Sound_from (step t c) cs (step-Sound t c v)

-- Whatever is called, a session that has come to the reinjection by the virtual peer or further, to its
-- completion included, has a proof of an exact match of the PCM and the time at which the monitor
-- finished, and no error; a failed one has an error; and neither a failed nor a stopped one holds a text.
pub run-Sound : (cs : List Call) → Sound (run none cs)
run-Sound cs = run-Sound_from none cs tt

-- The session stays where it is, goes on to the next checkpoint, or fails or stops before its end.
abbrev pub Moves : RoundTripCheckpoint → RoundTripCheckpoint → Type 0
Moves from to =
    (to ≡ from)
    ⊎ (next from ≡ some to)
    ⊎ ((is_terminal from ≡ false) × ((to ≡ failed) ⊎ (to ≡ stopped)))

abbrev pub Moved : Session → RoundTripSelfTest → Type 0
Moved s none = ⊥
Moved s (some s') =
    (s'.id ≡ s.id) × (s'.started_at_ms ≡ s.started_at_ms) × Moves s.checkpoint s'.checkpoint

-- No call on a session takes it away or skips a checkpoint: it stays where it is, goes on to the next
-- checkpoint, or fails or stops if it had not ended.
pub session_step-Moved : (s : Session) (c : SessionCall) → Moved s (session_step (some s) c)
unfolding session_step
session_step-Moved s (advances id checkpoint latency) = ground arith
session_step-Moved s (triggers id) = ground arith
session_step-Moved s (stops id) = ground arith
session_step-Moved s (proves id proof) = ground arith
session_step-Moved s (texts id text) = ground arith
session_step-Moved s (fails id error) = ground arith
session_step-Moved s (expires at_ms) = ground arith
