-- ===== src/Validation/Terminals.antt =====
-- crates/translator-ipc/src/validation.rs: the terminal that an utterance owes after a cancellation, an
-- overflow or a lack of speech.
use Prim.Native.String.{String}
use translator.Prelude.{ℕ, not, ◌||◌, ◌==◌, if◌then◌else◌, Option, none, is_some, ok, err, opt_eq}
use translator.Prelude.Map.{get, remove}
use translator.Validation.Messages.{Event, utterance_final}
use translator.Validation.State.{
  ProviderEventValidator, Checked, terminalize, expected_overflow_terminal,
  expected_no_speech_terminal, expected_cancelled_terminal,
}
use translator.Validation.Audio.{parse_uuid}

-- `value.outcome == UtteranceOutcome::Dropped as i32`, and so for the other outcomes.
abbrev pub dropped_code : ℕ
dropped_code = 3

abbrev pub cancelled_code : ℕ
cancelled_code = 2

module _ (parse : String → Option ℕ) where
  unfoldable pub validate_overflow_terminal :
      ProviderEventValidator → Event → ℕ → ProviderEventValidator × Checked (Unit {0})
  unfolding terminalize parse_uuid
  validate_overflow_terminal v (utterance_final m) expected =
      elim (parse_uuid parse m.utterance_id) [
        | err e ↦ (v, err e)
        | ok utterance ↦
            if not (utterance == expected)
              || not (m.outcome == dropped_code)
              || not (opt_eq m.final_audio_sequence (get utterance v.last_playable_audio_sequence))
            then (v, err expected_overflow_terminal)
            else terminalize (record v { pending_overflow_terminal = none }) utterance
      ]
  validate_overflow_terminal v _ expected = (v, err expected_overflow_terminal)

  unfoldable pub validate_no_speech_terminal :
      ProviderEventValidator → Event → ℕ → ProviderEventValidator × Checked (Unit {0})
  unfolding terminalize parse_uuid
  validate_no_speech_terminal v (utterance_final m) expected =
      elim (parse_uuid parse m.utterance_id) [
        | err e ↦ (v, err e)
        | ok utterance ↦
            if not (utterance == expected)
              || not (m.outcome == dropped_code)
              || is_some m.final_audio_sequence
            then (v, err expected_no_speech_terminal)
            else terminalize (record v { pending_no_speech_terminal = none }) utterance
      ]
  validate_no_speech_terminal v _ expected = (v, err expected_no_speech_terminal)

  unfoldable pub validate_cancelled_terminal :
      ProviderEventValidator → Event → ℕ → ProviderEventValidator × Checked (Unit {0})
  unfolding terminalize
  validate_cancelled_terminal v (utterance_final m) utterance =
      if not (m.outcome == cancelled_code)
        || not (opt_eq m.final_audio_sequence (get utterance v.last_wire_audio_sequence))
      then (v, err expected_cancelled_terminal)
      else terminalize (record v { cancel_pending = remove utterance v.cancel_pending }) utterance
  validate_cancelled_terminal v _ utterance = (v, err expected_cancelled_terminal)
