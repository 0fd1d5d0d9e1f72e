-- ===== src/Examples/Loop.antt =====
-- The round trip at concrete inputs.
use translator.Prelude.{ℕ, ◌≡◌, ◌↔◌, refl, true, List, [], ◌∷◌, ◌++◌, none, some, arith}
use translator.Pcm.Frame.{PcmFrame, provider_default}
use translator.RoundTrip.{
  RoundTripPreconditions, Session, waiting_for_speech, outgoing_vad, incoming_asr_final,
  virtual_peer_reinjecting, default_latency, is_terminal, runtime_failed,
}
use translator.RoundTrip.Checkpoints.{
  Call, starts, on_session, advances, triggers, texts, stops, fails, expires, session_step, Sound,
  Moved, run, run-Sound, session_step-Moved,
}
use translator.RoundTrip.Ends.{session_run, session_run_expired}
use translator.RoundTrip.Evidence.{new_evidence, proof}
use translator.RoundTrip.Replay as Replay
use translator.RoundTrip.Replay.{
  captured_frames, reinjected_frames, captures, reinjects, IsReplay, run-IsReplay,
}

abbrev ready : RoundTripPreconditions
ready = record {
  headphones = true;
  outgoing_provider_ready = true;
  incoming_provider_ready = true;
  virtual_graph_ready = true;
  incoming_route_idle = true;
}

abbrev test_calls : List Call
test_calls =
    starts ready 100 7
    ∷ on_session (advances 7 outgoing_vad default_latency)
    ∷ on_session (advances 7 virtual_peer_reinjecting default_latency)
    ∷ on_session (texts 7 (record { transcript = "hallo"; translation = "hello" }))
    ∷ on_session (fails 7 runtime_failed)
    ∷ []

run-Sound_example : Sound (run none test_calls)
run-Sound_example = run-Sound test_calls

abbrev running : Session
running = record {
  id = 7;
  started_at_ms = 100;
  checkpoint = waiting_for_speech;
  recursion_count = 0;
  latency = default_latency;
  safe_error = none;
  debug_text = none;
  exact_pcm = none;
}

session_step-Moved_example :
    Moved running (session_step (some running) (advances 7 outgoing_vad default_latency))
session_step-Moved_example = session_step-Moved running (advances 7 outgoing_vad default_latency)

-- A checkpoint cannot be skipped.
skipping :
    session_step (some running) (advances 7 incoming_asr_final default_latency) ≡ some running
unfolding session_step
skipping = refl

session_run_expired_example :
    (s' : Session) × (session_step (some running) (expires 300100) ≡ some s')
    × (is_terminal s'.checkpoint ≡ true)
    × ((n : ℕ) × (session_run (some running) (expires 300100 ∷ stops 7 ∷ triggers 7 ∷ [])
          ≡ some (record s' { recursion_count = n })))
session_run_expired_example =
    session_run_expired running 300100 (stops 7 ∷ triggers 7 ∷ []) (omega arith)

-- In place of a hash, the bytes themselves.
abbrev append_bytes : List ℕ → List ℕ → List ℕ
append_bytes old new = old ++ new

abbrev same_bytes : List ℕ → List ℕ
same_bytes bytes = bytes

abbrev first_frame : PcmFrame
first_frame = record {
  sequence = 0;
  capture_monotonic_ns = 5;
  format = provider_default;
  pcm = 1 ∷ 2 ∷ [];
}

abbrev one_frame : List Replay.Call
one_frame = captures first_frame ∷ reinjects first_frame ∷ []

run-IsReplay_example :
    ((proof [] append_bytes same_bytes (
        Replay.run [] append_bytes same_bytes
          (new_evidence [] append_bytes same_bytes provider_default)
          one_frame)).exact_match
      ≡ true)
    ↔ IsReplay [] append_bytes same_bytes provider_default
        (captured_frames one_frame)
        (reinjected_frames one_frame)
run-IsReplay_example =
    run-IsReplay [] append_bytes same_bytes provider_default one_frame (omega arith)
