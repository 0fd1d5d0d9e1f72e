-- ===== src/Validation/Audio.antt =====
-- crates/translator-ipc/src/validation.rs: identifiers, streams, sequences and the audio on the wire.
-- `parse` is `Uuid::parse_str` of the uuid crate: none for a text that is no uuid.
use Prim.Native.String.{String}
use translator.Prelude.{
  ℕ, ◌+◌, ◌*◌, ◌/◌, Bool, false, not, ◌&&◌, ◌==◌, ltb, if◌then◌else◌, Option, none, some, is_some,
  ok, err, ok_or, length, u64,
}
use translator.Prelude.Map.{get, contains_key, insert}
use translator.Validation.Messages.{
  WireFormat, ProviderAudioDelta, Event, audio_delta, transcript_delta, translation_delta,
  utterance_final, latency, error,
}
use translator.Validation.State.{
  ProviderEventValidator, Checked, sequence_gap, duplicate_sequence, stale_sequence,
  duplicate_audio_sequence, stale_audio_sequence, audio_sequence_gap, output_format_mismatch,
  pcm_length_mismatch, invalid_identifier, utterance_terminal, unknown_utterance, stream_mismatch,
}

unfoldable pub validate_sequence : ProviderEventValidator → ℕ → Checked (Unit {0})
validate_sequence v sequence = elim v.last_event_sequence [
  | none ↦ if sequence == 1 then ok tt else err sequence_gap
  | some previous ↦
      if sequence == previous
      then err duplicate_sequence
      else if ltb sequence previous
      then err stale_sequence
      else ok tt
]

-- `previous + 1` is reached only where `sequence` is larger than `previous`, so it does not wrap.
unfoldable pub validate_audio_sequence : ProviderEventValidator → ℕ → ℕ → Checked (Unit {0})
validate_audio_sequence v utterance sequence = elim (get utterance v.last_wire_audio_sequence) [
  | none ↦ if sequence == 0 then ok tt else err audio_sequence_gap
  | some previous ↦
      if sequence == previous
      then err duplicate_audio_sequence
      else if ltb sequence previous
      then err stale_audio_sequence
      else if ltb (previous + 1) sequence
      then err audio_sequence_gap
      else ok tt
]

-- The derived `PartialEq` of the format message.
unfoldable pub same_format : WireFormat → WireFormat → Bool
same_format f g =
    f.sample_rate_hz == g.sample_rate_hz
    && f.channels == g.channels
    && f.sample_format == g.sample_format
    && f.frame_duration_ms == g.frame_duration_ms

-- The product is taken in a usize of 64 bits.
unfoldable pub expected_bytes : WireFormat → ℕ
expected_bytes f = u64 (f.sample_rate_hz * f.channels * 2 * f.frame_duration_ms) / 1000

unfoldable pub validate_wire_audio :
    ProviderEventValidator → ProviderAudioDelta → ℕ → ProviderEventValidator × Checked (Unit {0})
unfolding validate_audio_sequence same_format expected_bytes
validate_wire_audio v m utterance = elim (validate_audio_sequence v utterance m.sequence) [
  | err e ↦ (v, err e)
  | ok _ ↦
      if not (same_format m.format v.contract.output_format)
      then (v, err output_format_mismatch)
      else if not (length m.pcm == expected_bytes m.format)
      then (v, err pcm_length_mismatch)
      else (
        record v {
          last_wire_audio_sequence = insert utterance m.sequence v.last_wire_audio_sequence;
        },
        ok tt,
      )
]

unfoldable pub utterance_text : Event → Option String
utterance_text (audio_delta m) = some m.utterance_id
utterance_text (transcript_delta m) = some m.utterance_id
utterance_text (translation_delta m) = some m.utterance_id
utterance_text (utterance_final m) = some m.utterance_id
utterance_text (latency m) = m.utterance_id
utterance_text (error m) = m.utterance_id
utterance_text _ = none

unfoldable pub stream_text : Event → Option String
stream_text (audio_delta m) = some m.stream_id
stream_text (transcript_delta m) = some m.stream_id
stream_text (translation_delta m) = some m.stream_id
stream_text (utterance_final m) = some m.stream_id
stream_text (latency m) = some m.stream_id
stream_text (error m) = m.stream_id
stream_text _ = none

-- An error that names an utterance has to name the stream too.
unfoldable pub names_utterance : Event → Bool
names_utterance (error m) = is_some m.utterance_id
names_utterance _ = false

module _ (parse : String → Option ℕ) where
  unfoldable pub parse_uuid : String → Checked ℕ
  parse_uuid value = ok_or (parse value) invalid_identifier

  unfoldable pub active_utterance : ProviderEventValidator → String → Checked ℕ
  unfolding parse_uuid
  active_utterance v value = elim (parse_uuid value) [
    | err e ↦ err e
    | ok utterance ↦
        if contains_key utterance v.terminal_utterances
        then err utterance_terminal
        else if not (contains_key utterance v.input_capture_ns)
        then err unknown_utterance
        else ok utterance
  ]

  -- `value.map(parse_uuid).transpose()`
  unfoldable pub parse_optional : Option String → Checked (Option ℕ)
  unfolding parse_uuid
  parse_optional none = ok none
  parse_optional (some value) = elim (parse_uuid value) [
    | err e ↦ err e
    | ok utterance ↦ ok (some utterance)
  ]

  unfoldable pub event_utterance_id : Event → Checked (Option ℕ)
  unfolding utterance_text parse_optional
  event_utterance_id event = parse_optional (utterance_text event)

  unfoldable pub validate_stream : ProviderEventValidator → Event → Checked (Unit {0})
  unfolding stream_text names_utterance parse_uuid
  validate_stream v event = elim (stream_text event) [
    | none ↦ if names_utterance event then err stream_mismatch else ok tt
    | some value ↦ elim (parse_uuid value) [
      | err e ↦ err e
      | ok stream ↦ if not (stream == v.contract.stream_id) then err stream_mismatch else ok tt
    ]
  ]
