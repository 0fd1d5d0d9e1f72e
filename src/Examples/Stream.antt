-- ===== src/Examples/Stream.antt =====
-- The coordinator, the session and the supervisor at concrete inputs.
use Prim.Native.String.{String}
use translator.Examples.Events.{parse, format, contract, common, opening, ending}
use translator.Prelude.{
  ℕ, zero, suc, ◌==◌, ◌≡◌, refl, arith, true, false, List, [], ◌∷◌, length, none, some, ok,
  if◌then◌else◌, ◌++◌,
}
use translator.Prelude.Map.{insert, remove, get}
use translator.Prelude.PairMap.{get_pair, insert_pair}
use translator.Contracts as Core
use translator.Pcm.Frame.{PcmFrame, provider_default}
use translator.Pcm.Segmenter.{CaptureEvent, speech_started, frame_event}
use translator.Validation.Messages.{ProviderAudioDelta, audio_delta}
use translator.Validation.State.{new_validator}
use translator.Validation.Validate.{validate}
use translator.Watchdog.{
  active, awaiting_first_audio, streaming_audio, restart_issued, close_provider_session,
  restart_sidecar,
}
use translator.Watchdog.Polling as Polling
use translator.Watchdog.Polling.Escalation.{escalations, poll-restart}
use translator.Watchdog.Coordinator.{
  Coordinator, new_coordinator, start_utterance, record_end_of_utterance,
}
use translator.Watchdog.Coordinator.Events.{accept_audio, validate_event, poll}
use translator.Watchdog.Coordinator.History.{
  Call, starts, ends, polls, consumes, event, step, coordinated, coordinated-Agrees,
  coordinated-poll, coordinated-BufferOk,
}
use translator.Watchdog.Coordinator.Agreement.{LinkedAt}
use translator.Watchdog.Coordinator.Buffers.{BufferOk}
use translator.Watchdog.Coordinator.Atomic.{AllOrNothing, accept_audio-AllOrNothing}
use translator.Session.{DirectionRuntimeConfig, DirectionSession, playback}
use translator.Session.Handlers.{handle_provider_event}
use translator.Session.Playing.{frame_of, accepted-playback}
use translator.Session.Numbering.{input_numbers, count_from, input_numbers-count_from}

-- The printer for them.
abbrev print : ℕ → String
print n = if n == 1 then "session" else if n == 2 then "stream" else "utterance"

-- An utterance whose input has ended.
abbrev talk : List Call
talk = event (some opening) 10 ∷ starts 2 3 20 ∷ ends 2 3 30 ∷ []

abbrev talking : Coordinator
talking = record {
  watchdog = record {
    session_id = 1;
    utterances = (3, record { stream_id = 2; phase = awaiting_first_audio 6000000030 }) ∷ [];
    session_phase = active;
  };
  validator = record (new_validator contract) {
    opened = true;
    last_event_sequence = some 1;
    input_capture_ns = (3, 20) ∷ [];
    input_complete_ns = (3, 30) ∷ [];
  };
  receive_buffers = [];
}

talk_run : coordinated parse (new_coordinator contract) talk ≡ some talking
unfolding coordinated new_coordinator validate new_validator get remove insert step validate_event
    start_utterance record_end_of_utterance
talk_run = refl

-- The utterance ends before a poll, and again.
abbrev whole_talk : List Call
whole_talk =
    event (some opening) 10
    ∷ starts 2 3 20
    ∷ ends 2 3 30
    ∷ event (some ending) 40
    ∷ polls 50
    ∷ consumes 2 3 60
    ∷ event (some ending) 70
    ∷ []

coordinated-Agrees_example :
    (d : Coordinator) × (coordinated parse (new_coordinator contract) whole_talk ≡ some d)
    × ((k : ℕ) → LinkedAt d k)
coordinated-Agrees_example = coordinated-Agrees parse contract whole_talk

coordinated-BufferOk_example :
    (d : Coordinator) × (coordinated parse (new_coordinator contract) whole_talk ≡ some d)
    × ((key : ℕ × ℕ) → BufferOk (get_pair key d.receive_buffers))
coordinated-BufferOk_example = coordinated-BufferOk parse contract whole_talk

coordinated-poll_example :
    (d' : Coordinator) × (poll 7000000000 talking
      ≡ some (d', ok (Polling.poll talking.watchdog 7000000000).1))
unfolding new_validator
coordinated-poll_example = coordinated-poll parse contract talk talking 7000000000 talk_run refl

poll-restart_example :
    let (w₁, a₁) = Polling.poll talking.watchdog 7000000000 in
    let (w₂, a₂) = Polling.poll w₁ 7500000000 in
    let (w₃, a₃) = Polling.poll w₂ 9500000000 in
    (escalations a₁ ++ escalations a₂ ++ escalations a₃
      ≡ close_provider_session talking.watchdog.session_id
        ∷ restart_sidecar talking.watchdog.session_id
        ∷ [])
    × (w₃.session_phase ≡ restart_issued)
poll-restart_example =
    poll-restart talking.watchdog 3 7000000000 7500000000 9500000000
      (record { stream_id = 2; phase = awaiting_first_audio 6000000030 }) refl (unfold get in refl)
      (omega arith) (omega arith) (omega arith)

-- 20 ms of silence.
abbrev zeros : ℕ → List ℕ
zeros zero = []
zeros (suc n) = 0 ∷ zeros n

abbrev silence : ProviderAudioDelta
silence = record {
  common = common "translator.provider.audio_delta.v1" 2;
  stream_id = "stream";
  utterance_id = "utterance";
  sequence = 0;
  format = format;
  provider_monotonic_ns = 35;
  pcm = zeros 640;
}

accept_audio-AllOrNothing_example :
    AllOrNothing talking silence 2 3 40 (accept_audio parse silence 2 3 40 talking)
accept_audio-AllOrNothing_example = accept_audio-AllOrNothing parse talking silence 2 3 40

abbrev config : DirectionRuntimeConfig
config = record {
  provider_id = Core.ProviderId.local;
  direction = Core.AudioDirection.microphone;
  source_language = Core.Language.ru;
  target_language = Core.Language.en;
  mode = Core.TranslationMode.quality_first;
  voice_gender = Core.VoiceGender.male;
  voice_engine = Core.VoiceEngine.piper;
  debug_text_enabled = false;
}

abbrev session : DirectionSession
session = record {
  config = config;
  contract = contract;
  coordinator = talking;
  next_input_sequence = 7;
  collecting_utterance = none;
  active_utterances = (3, tt) ∷ [];
}

-- The coordinator with the silence in its buffer.
abbrev heard : Coordinator
heard = record {
  watchdog = record {
    session_id = 1;
    utterances = (3, record { stream_id = 2; phase = streaming_audio 250000040 }) ∷ [];
    session_phase = active;
  };
  validator = record talking.validator {
    last_event_sequence = some 2;
    last_wire_audio_sequence = (3, 0) ∷ [];
    last_playable_audio_sequence = (3, 0) ∷ [];
  };
  receive_buffers =
      (
        (2, 3),
        record { frames = record { pcm = zeros 640; duration_ms = 20 } ∷ []; buffered_ms = 20 },
      )
      ∷ [];
}

silence_run : validate_event parse (some (audio_delta silence)) 40 talking ≡ some (heard, ok tt)
unfolding validate_event validate new_validator get remove insert get_pair insert_pair
silence_run = refl

accepted-playback_example :
    (stream : ℕ) × (u : ℕ) × (parse "stream" ≡ some stream)
    × (parse "utterance" ≡ some u)
    × (handle_provider_event parse print (some (audio_delta silence)) 40 session
        ≡ some (
          record session { coordinator = record heard { receive_buffers = [] } },
          ok (playback stream u (frame_of silence) ∷ []),
        ))
unfolding new_validator
accepted-playback_example =
    accepted-playback parse print session heard silence 40 talk talk_run refl refl silence_run

abbrev frame : PcmFrame
frame = record {
  sequence = 0;
  capture_monotonic_ns = 50;
  format = provider_default;
  pcm = 1 ∷ 2 ∷ [];
}

-- The second start is refused, and so is the frame after the end.
abbrev speech : List CaptureEvent
speech =
    speech_started 2 4 50
    ∷ frame_event 2 4 frame false
    ∷ speech_started 2 5 60
    ∷ frame_event 2 4 frame true
    ∷ frame_event 2 4 frame false
    ∷ []

input_numbers-count_from_example :
    input_numbers parse print session speech
    ≡ count_from 7 (length (input_numbers parse print session speech))
input_numbers-count_from_example = input_numbers-count_from parse print session speech (omega arith)
