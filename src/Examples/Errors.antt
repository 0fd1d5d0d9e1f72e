-- ===== src/Examples/Errors.antt =====
-- Provider errors at concrete inputs.
use translator.Prelude.{◌≡◌, ◌↔◌, true, ok, some}
use translator.Contracts.{speaker}
use translator.Privacy.{
  SafeErrorCode, message, no_speech, SafeMessage, PrivacySafeProviderError, UncheckedProviderError,
  new_error, deserialize_error, deserialize_message,
}
use translator.Privacy.Laws.{deserialize_error_iff, deserialize_message_iff}

abbrev received : UncheckedProviderError
received = record {
  session_id = 3;
  direction_id = speaker;
  stream_id = some 8;
  event_sequence = 12;
  code = no_speech;
  retryable = true;
  safe_message = "No speech was detected";
}

abbrev silence_error : PrivacySafeProviderError
silence_error = record (new_error 3 speaker 12 no_speech true) { stream_id = some 8 }

deserialize_error_iff_example :
    (deserialize_error received ≡ ok silence_error)
    ↔ ((received.safe_message ≡ message no_speech) × (silence_error ≡ silence_error))
deserialize_error_iff_example = deserialize_error_iff received silence_error

abbrev silence : SafeMessage
silence = record { text = "No speech was detected" }

deserialize_message_iff_example : (deserialize_message "No speech was detected" ≡ ok silence) ↔ (
    (silence.text ≡ "No speech was detected")
    × ((c : SafeErrorCode) × ("No speech was detected" ≡ message c)))
deserialize_message_iff_example = deserialize_message_iff "No speech was detected" silence
