-- ===== src/Validation/Reports.antt =====
-- crates/translator-ipc/src/validation.rs: audio, text, latency and error events.
use Prim.Native.String.{String}
use text.Mathlib.Text.{◌==◌ as str_eq}
use translator.Prelude.{
  ℕ, Bool, true, false, not, ◌||◌, if◌then◌else◌, Option, none, some, ok, err, opt_eq,
}
use translator.Validation.Messages.{
  ProviderAudioDelta, ProviderLatency, ProviderError, SafeErrorCode, safe_error_of, queue_overflow,
  no_speech,
}
use translator.Validation.State.{
  ProviderEventValidator, Checked, unsafe_error_message, expected_overflow_terminal,
  expected_no_speech_terminal, expected_no_speech_latency, debug_text_disabled,
}
use translator.Validation.Audio.{validate_wire_audio, active_utterance}
use translator.Validation.Kinds.{Outcome, validate_playable, reports_no_speech, safe_error_message}

unfoldable pub after_wire :
    ProviderEventValidator × Checked (Unit {0}) → ProviderAudioDelta → ℕ → ℕ → Outcome
unfolding validate_playable
after_wire (v, err e) m utterance now_ns = some (v, err e)
after_wire (v, ok _) m utterance now_ns = validate_playable v m utterance now_ns

abbrev pub is_unspecified : SafeErrorCode → Bool
is_unspecified SafeErrorCode.unspecified = true
is_unspecified _ = false

module _ (parse : String → Option ℕ) where
  unfoldable pub validate_audio : ProviderEventValidator → ProviderAudioDelta → ℕ → Outcome
  unfolding active_utterance validate_wire_audio after_wire
  validate_audio v m now_ns = elim (active_utterance parse v m.utterance_id) [
    | err e ↦ some (v, err e)
    | ok utterance ↦ after_wire (validate_wire_audio v m utterance) m utterance now_ns
  ]

  unfoldable pub validate_text_event : ProviderEventValidator → String → Checked (Unit {0})
  unfolding active_utterance
  validate_text_event v value = elim (active_utterance parse v value) [
    | err e ↦ err e
    | ok utterance ↦ if not v.debug_text_enabled then err debug_text_disabled else ok tt
  ]

  -- `value.utterance_id.as_deref().map(|id| self.active_utterance(id)).transpose()`
  unfoldable pub active_optional : ProviderEventValidator → Option String → Checked (Option ℕ)
  unfolding active_utterance
  active_optional v none = ok none
  active_optional v (some value) = elim (active_utterance parse v value) [
    | err e ↦ err e
    | ok utterance ↦ ok (some utterance)
  ]

  unfoldable pub validate_latency :
      ProviderEventValidator → ProviderLatency → ProviderEventValidator × Checked (Unit {0})
  unfolding active_optional reports_no_speech
  validate_latency v m = elim (active_optional v m.utterance_id) [
    | err e ↦ (v, err e)
    | ok utterance ↦ (
      record v { pending_no_speech_latency = if reports_no_speech m then utterance else none },
      ok tt,
    )
  ]

  -- What an error of this code means for its utterance.
  unfoldable pub note_error :
      ProviderEventValidator
      → SafeErrorCode
      → Option ℕ
      → ProviderEventValidator × Checked (Unit {0})
  note_error v queue_overflow none = (v, err expected_overflow_terminal)
  note_error v queue_overflow (some utterance) =
      (record v { pending_overflow_terminal = some utterance }, ok tt)
  note_error v no_speech none = (v, err expected_no_speech_terminal)
  note_error v no_speech (some utterance) =
      if not (opt_eq v.pending_no_speech_latency (some utterance))
      then (v, err expected_no_speech_latency)
      else (
        record v { pending_no_speech_latency = none; pending_no_speech_terminal = some utterance },
        ok tt,
      )
  note_error v _ utterance = (v, ok tt)

  unfoldable pub validate_error :
      ProviderEventValidator → ProviderError → ProviderEventValidator × Checked (Unit {0})
  unfolding active_optional note_error safe_error_message safe_error_of
  validate_error v m = elim (safe_error_of m.code) [
    | none ↦ (v, err unsafe_error_message)
    | some code ↦
        if is_unspecified code || not (str_eq m.safe_message (safe_error_message code))
        then (v, err unsafe_error_message)
        else elim (active_optional v m.utterance_id) [
          | err e ↦ (v, err e)
          | ok utterance ↦ note_error v code utterance
        ]
  ]
