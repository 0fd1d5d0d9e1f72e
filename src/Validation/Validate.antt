-- ===== src/Validation/Validate.antt =====
-- crates/translator-ipc/src/validation.rs: `validate` and `validate_kind`. Every result carries the
-- state, since a refusal may leave a change behind; `none` stands for a panic.
use Prim.Native.String.{String}
use text.Mathlib.Text.{◌==◌ as str_eq}
use translator.Prelude.{
  ℕ, Bool, true, false, not, ◌&&◌, ◌==◌, if◌then◌else◌, Option, none, some, ok, err, opt_eq,
}
use translator.Prelude.Map.{get, contains_key}
use translator.Validation.Messages.{
  Event, session_opened, audio_delta, transcript_delta, translation_delta, utterance_final,
  session_closed, health, latency, error, common_fields, expected_schema, ProviderUtteranceFinal,
  UtteranceOutcome, outcome_of, cancelled, direction_code,
}
use translator.Validation.State.{
  ProviderEventValidator, Checked, terminalize, expired_audio, cancelled_audio,
  final_audio_sequence_mismatch, expected_cancelled_terminal, invalid_outcome, missing_event,
  open_required, duplicate_open, schema_mismatch, session_mismatch, direction_mismatch,
  session_terminal,
}
use translator.Validation.Audio.{
  validate_wire_audio, parse_uuid, active_utterance, event_utterance_id, validate_stream,
  validate_sequence,
}
use translator.Validation.Kinds.{Outcome, validate_opened, validate_health}
use translator.Validation.Terminals.{
  validate_overflow_terminal, validate_no_speech_terminal, validate_cancelled_terminal,
}
use translator.Validation.Reports.{
  validate_audio, validate_text_event, validate_latency, validate_error,
}

abbrev pub is_open : Event → Bool
is_open (session_opened m) = true
is_open _ = false

-- `matches!(event, Error(value) if value.code == SafeErrorCode::NoSpeech as i32)`, or a latency report.
abbrev pub keeps_latency : Event → Bool
keeps_latency (latency m) = true
keeps_latency (error m) = m.code == 8
keeps_latency _ = false

-- `Ok`, or an audio frame that is refused only because it comes too late.
abbrev pub counts : Checked (Unit {0}) → Bool
counts (ok _) = true
counts (err expired_audio) = true
counts (err cancelled_audio) = true
counts (err _) = false

unfoldable pub note_sequence :
    ℕ → ProviderEventValidator × Checked (Unit {0}) → ProviderEventValidator × Checked (Unit {0})
note_sequence sequence (v, result) =
    ((if counts result then record v { last_event_sequence = some sequence } else v), result)

-- Audio for a cancelled utterance is checked on the wire, and refused.
unfoldable pub refuse_cancelled :
    ProviderEventValidator × Checked (Unit {0}) → ProviderEventValidator × Checked (Unit {0})
refuse_cancelled (v, err e) = (v, err e)
refuse_cancelled (v, ok _) = (v, err cancelled_audio)

module _ (parse : String → Option ℕ) where
  unfoldable pub validate_final :
      ProviderEventValidator → ProviderUtteranceFinal → ProviderEventValidator × Checked (Unit {0})
  unfolding active_utterance outcome_of terminalize
  validate_final v m = elim (active_utterance parse v m.utterance_id) [
    | err e ↦ (v, err e)
    | ok utterance ↦ elim (outcome_of m.outcome) [
      | none ↦ (v, err invalid_outcome)
      | some UtteranceOutcome.unspecified ↦ (v, err invalid_outcome)
      | some cancelled ↦ (v, err expected_cancelled_terminal)
      | some _ ↦
          if not (opt_eq m.final_audio_sequence (get utterance v.last_playable_audio_sequence))
          then (v, err final_audio_sequence_mismatch)
          else terminalize v utterance
    ]
  ]

  -- The `match` on the kind, for an utterance that owes no terminal.
  unfoldable pub validate_event : ProviderEventValidator → Event → ℕ → Outcome
  unfolding validate_opened validate_audio validate_text_event validate_latency validate_health
      validate_error validate_final
  validate_event v (session_opened m) now_ns = some (validate_opened v m)
  validate_event v (audio_delta m) now_ns = validate_audio parse v m now_ns
  validate_event v (transcript_delta m) now_ns =
      some (v, validate_text_event parse v m.utterance_id)
  validate_event v (translation_delta m) now_ns =
      some (v, validate_text_event parse v m.utterance_id)
  validate_event v (latency m) now_ns = some (validate_latency parse v m)
  validate_event v (health m) now_ns = some (v, validate_health v m)
  validate_event v (error m) now_ns = some (validate_error parse v m)
  validate_event v (utterance_final m) now_ns = some (validate_final v m)
  validate_event v (session_closed c) now_ns = some (record v { closed = true }, ok tt)

  unfoldable pub validate_cancelled :
      ProviderEventValidator → Event → ℕ → ProviderEventValidator × Checked (Unit {0})
  unfolding validate_wire_audio validate_cancelled_terminal refuse_cancelled
  validate_cancelled v (audio_delta m) utterance =
      refuse_cancelled (validate_wire_audio v m utterance)
  validate_cancelled v event utterance = validate_cancelled_terminal parse v event utterance

  -- The rest of `validate_kind`, for an event of no cancelled utterance.
  unfoldable pub validate_pending : ProviderEventValidator → Event → ℕ → Outcome
  unfolding validate_overflow_terminal validate_no_speech_terminal validate_event
  validate_pending v event now_ns = elim v.pending_overflow_terminal [
    | some expected ↦ some (validate_overflow_terminal parse v event expected)
    | none ↦ elim v.pending_no_speech_terminal [
      | some expected ↦ some (validate_no_speech_terminal parse v event expected)
      | none ↦
          validate_event
            (if keeps_latency event then v else record v { pending_no_speech_latency = none }) event
            now_ns
    ]
  ]

  unfoldable pub validate_kind : ProviderEventValidator → Event → ℕ → Outcome
  unfolding event_utterance_id validate_cancelled validate_pending
  validate_kind v event now_ns = elim (event_utterance_id parse event) [
    | err e ↦ some (v, err e)
    | ok none ↦ validate_pending v event now_ns
    | ok (some utterance) ↦
        if contains_key utterance v.cancel_pending
        then some (validate_cancelled v event utterance)
        else validate_pending v event now_ns
  ]

  -- The checks of `validate` before the kind of the event.
  unfoldable pub validate_common : ProviderEventValidator → Event → Checked (Unit {0})
  unfolding common_fields expected_schema parse_uuid direction_code validate_stream
      validate_sequence
  validate_common v event =
      if v.closed
      then err session_terminal
      else if not v.opened && not (is_open event)
      then err open_required
      else if v.opened && is_open event
      then err duplicate_open
      else if not (str_eq (common_fields event).schema_version (expected_schema event))
      then err schema_mismatch
      else elim (parse_uuid parse (common_fields event).session_id) [
        | err e ↦ err e
        | ok session ↦
            if not (session == v.contract.session_id)
            then err session_mismatch
            else if not
                ((common_fields event).direction_id == direction_code v.contract.direction_id)
            then err direction_mismatch
            else elim (validate_stream parse v event) [
              | err e ↦ err e
              | ok _ ↦ validate_sequence v (common_fields event).event_sequence
            ]
      ]

  unfoldable pub validate : ProviderEventValidator → Option Event → ℕ → Outcome
  unfolding validate_common validate_kind note_sequence
  validate v none now_ns = some (v, err missing_event)
  validate v (some event) now_ns = elim (validate_common v event) [
    | err e ↦ some (v, err e)
    | ok _ ↦ elim (validate_kind v event now_ns) [
      | none ↦ none
      | some r ↦ some (note_sequence (common_fields event).event_sequence r)
    ]
  ]
