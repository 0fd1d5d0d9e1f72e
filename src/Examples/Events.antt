-- ===== src/Examples/Events.antt =====
-- The validator of provider events at concrete inputs.
use Prim.Native.String.{String}
use text.Mathlib.Text.{◌==◌ as str_eq}
use translator.Prelude.{
  ℕ, ◌≡◌, refl, not, err, arith, true, false, List, [], ◌∷◌, Option, none, some, ok, if◌then◌else◌,
}
use translator.Validation.Messages.{
  microphone, ru, en, quality_first, local, WireFormat, ProviderAudioDelta, ProviderUtteranceFinal,
  audio_delta, common_fields, CommonFields, session_opened, utterance_final, session_closed, Event,
}
use translator.Validation.State.{
  ProviderSessionContract, ProviderEventValidator, ProviderValidationError, new_validator,
}
use translator.Validation.Validate.{validate, validate_common, is_open}
use translator.Prelude.Map.{insert, remove, get}
use translator.Validation.Overflow.{overflow_cancelled-blocks}
use translator.Validation.Owing.{spares}
use translator.Validation.Accepted.{IsNext, IsPlayed, accepted-sequence, accepted-audio}
use translator.Validation.Ended.{IsEnded, EndedOnce, accepted-ends}
use translator.Validation.History.{Call, inputs, ends, event, validated}
use translator.Validation.Invariant.{Inv}
use translator.Validation.Totality.{validated-Inv}

-- A parser that knows three identifiers.
abbrev pub parse : String → Option ℕ
parse text =
    if str_eq text "session"
    then some 1
    else if str_eq text "stream"
    then some 2
    else if str_eq text "utterance"
    then some 3
    else none

abbrev pub format : WireFormat
format = record { sample_rate_hz = 16000; channels = 1; sample_format = 1; frame_duration_ms = 20 }

abbrev pub contract : ProviderSessionContract
contract = record {
  session_id = 1;
  stream_id = 2;
  provider_id = local;
  direction_id = microphone;
  source_language = ru;
  target_language = en;
  mode = quality_first;
  input_format = format;
  output_format = format;
  debug_text_enabled = false;
}

abbrev pub common : String → ℕ → CommonFields
common schema sequence = record {
  schema_version = schema;
  session_id = "session";
  direction_id = 1;
  event_sequence = sequence;
}

abbrev pub opening : Event
opening = session_opened (record {
  common = common "translator.provider.session_opened.v1" 1;
  negotiated_input_format = some format;
  negotiated_output_format = some format;
  capabilities = some (record {
    audio_output = true;
    transcript_delta = true;
    translation_delta = true;
    cancellation = true;
    cloud_egress = false;
  });
})

abbrev pub ending : Event
ending = utterance_final (record {
  common = common "translator.provider.utterance_final.v1" 2;
  stream_id = "stream";
  utterance_id = "utterance";
  final_audio_sequence = none;
  outcome = 1;
})

abbrev session_calls : List Call
session_calls =
    event (some opening) 10 ∷ inputs 3 20 ∷ ends 3 30 ∷ event (some ending) 40 ∷ event none 50 ∷ []

validated-Inv_example :
    (w : ProviderEventValidator) × (validated parse (new_validator contract) session_calls ≡ some w)
    × Inv w
validated-Inv_example = validated-Inv parse contract session_calls

-- The session after its opening, an utterance under way, and the last event numbered 5.
abbrev talking : ProviderEventValidator
talking = record (new_validator contract) {
  opened = true;
  last_event_sequence = some 5;
  input_capture_ns = (3, 20) ∷ [];
  input_complete_ns = (3, 30) ∷ [];
}

abbrev final_of : ℕ → ℕ → ProviderUtteranceFinal
final_of sequence outcome = record {
  common = common "translator.provider.utterance_final.v1" sequence;
  stream_id = "stream";
  utterance_id = "utterance";
  final_audio_sequence = none;
  outcome = outcome;
}

-- What an utterance's end leaves of a session in which it is the only one.
abbrev ended_at : ProviderEventValidator → ℕ → ProviderEventValidator
ended_at v sequence = record v {
  last_event_sequence = some sequence;
  terminal_utterances = (3, tt) ∷ [];
  input_capture_ns = [];
  input_complete_ns = [];
  cancel_pending = [];
}

talking-Inv : Inv talking
unfolding new_validator get
talking-Inv = record { keys = λ k. ground arith; active = omega arith; terminal = omega arith }

completed_run :
    validate parse talking (some (utterance_final (final_of 7 1))) 40
    ≡ some (ended_at talking 7, ok tt)
unfolding validate new_validator get remove insert
completed_run = refl

accepted-ends_example :
    (u : ℕ) × (parse "utterance" ≡ some u)
    × IsEnded talking (ended_at talking 7) u
    × EndedOnce talking u
accepted-ends_example =
    accepted-ends parse talking (ended_at talking 7) (final_of 7 1) 40 talking-Inv completed_run

accepted-sequence_example :
    (talking.closed ≡ false)
    × (talking.opened ≡ not (is_open (utterance_final (final_of 7 1))))
    × ((ended_at talking 7).opened ≡ true)
    × IsNext talking.last_event_sequence 7
    × ((ended_at talking 7).last_event_sequence ≡ some 7)
unfolding common_fields
accepted-sequence_example =
    accepted-sequence parse talking (ended_at talking 7) (utterance_final (final_of 7 1)) 40
      completed_run

-- A session whose frames are two bytes long.
abbrev short_talk : ProviderEventValidator
short_talk = record talking {
  contract = record contract {
    output_format = record {
      sample_rate_hz = 50;
      channels = 1;
      sample_format = 1;
      frame_duration_ms = 20;
    };
  };
}

abbrev two_bytes : ProviderAudioDelta
two_bytes = record {
  common = common "translator.provider.audio_delta.v1" 6;
  stream_id = "stream";
  utterance_id = "utterance";
  sequence = 0;
  format = record { sample_rate_hz = 50; channels = 1; sample_format = 1; frame_duration_ms = 20 };
  provider_monotonic_ns = 35;
  pcm = 17 ∷ 4 ∷ [];
}

abbrev heard : ProviderEventValidator
heard = record short_talk {
  last_event_sequence = some 6;
  last_wire_audio_sequence = (3, 0) ∷ [];
  last_playable_audio_sequence = (3, 0) ∷ [];
  pending_no_speech_latency = none;
}

two_bytes_run : validate parse short_talk (some (audio_delta two_bytes)) 40 ≡ some (heard, ok tt)
unfolding validate new_validator get remove insert
two_bytes_run = refl

accepted-audio_example :
    (u : ℕ) × (parse "utterance" ≡ some u) × IsPlayed short_talk heard two_bytes 40 u
accepted-audio_example = accepted-audio parse short_talk heard two_bytes 40 two_bytes_run

-- The provider has reported an overflow of the utterance, and the daemon has cancelled it.
abbrev overflowed : ProviderEventValidator
overflowed = record talking { pending_overflow_terminal = some 3; cancel_pending = (3, tt) ∷ [] }

overflowed-Inv : Inv overflowed
unfolding new_validator get
overflowed-Inv = record { keys = λ k. ground arith; active = omega arith; terminal = omega arith }

-- What comes after the terminal of the cancellation: a new utterance, and the terminal of the old one
-- once more.
abbrev later_calls : List Call
later_calls = inputs 4 50 ∷ event (some (utterance_final (final_of 8 2))) 60 ∷ []

overflow_cancelled-blocks_example :
    (w : ProviderEventValidator) × (validate parse overflowed
        (some (utterance_final (final_of 7 2)))
        40
      ≡ some (w, ok tt))
    × (w.terminal_utterances ≡ insert 3 tt overflowed.terminal_utterances)
    × ((x : ProviderEventValidator) × (validated parse w later_calls ≡ some x)
        × (x.pending_overflow_terminal ≡ some 3)
        × ((e : ProviderValidationError) × (validate parse x
                (some (session_closed (common "translator.provider.session_closed.v1" 9)))
                70
              ≡ some (x, err e))))
unfolding get spares new_validator validate_common
overflow_cancelled-blocks_example =
    overflow_cancelled-blocks parse 3 overflowed (final_of 7 2) 40 later_calls
      (common "translator.provider.session_closed.v1" 9) 70 overflowed-Inv refl refl refl refl refl
      refl (omega arith) refl
