-- ===== src/Privacy.antt =====
-- crates/translator-core/src/privacy.rs: provider errors whose text is one of a few fixed messages.
pub mod Laws
use Prim.Native.String.{String}
use text.Mathlib.Text.{◌==◌ as str_eq}
use translator.Prelude.{
  ℕ, Bool, true, false, ◌||◌, not, if◌then◌else◌, List, [], ◌∷◌, Option, none, some, Result, ok,
  err,
}
use translator.Contracts.{AudioDirection}

pub data SafeErrorCode : Type 0 where
  provider_unavailable model_not_loaded unsupported_language_pair : SafeErrorCode
  queue_overflow cancelled no_speech cloud_not_enabled provider_auth_failed : SafeErrorCode

unfoldable pub message : SafeErrorCode → String
message provider_unavailable = "Provider is unavailable"
message model_not_loaded = "Required model is not loaded"
message unsupported_language_pair = "Language pair is not supported"
message queue_overflow = "Provider queue limit was reached"
message cancelled = "Provider operation was cancelled"
message no_speech = "No speech was detected"
message cloud_not_enabled = "Cloud provider is not enabled"
message provider_auth_failed = "Provider authentication failed"

abbrev pub safe_codes : List SafeErrorCode
safe_codes =
    provider_unavailable ∷ model_not_loaded ∷ unsupported_language_pair ∷ queue_overflow ∷ cancelled
    ∷ no_speech ∷ cloud_not_enabled ∷ provider_auth_failed ∷ []

-- `.into_iter().any(|code| code.message() == candidate)`
unfoldable pub is_allowed : List SafeErrorCode → String → Bool
unfolding message
is_allowed [] candidate = false
is_allowed (c ∷ cs) candidate = str_eq (message c) candidate || is_allowed cs candidate

-- The newtype around a text; the error is a message for serde.
pub record SafeMessage : Type 0 where
  pub text : String

unfoldable pub deserialize_message : String → Result SafeMessage String
deserialize_message candidate =
    if not (is_allowed safe_codes candidate)
    then err "message is not privacy-safe"
    else ok (record { text = candidate })

-- The schema version has one value only, and is left out.
pub record PrivacySafeProviderError : Type 0 where
  pub session_id : ℕ
  pub direction_id : AudioDirection
  pub stream_id : Option ℕ
  pub event_sequence : ℕ
  pub code : SafeErrorCode
  pub retryable : Bool
  pub safe_message : SafeMessage

unfoldable pub new_error : ℕ → AudioDirection → ℕ → SafeErrorCode → Bool → PrivacySafeProviderError
unfolding message
new_error session direction sequence code retryable = record {
  session_id = session;
  direction_id = direction;
  stream_id = none;
  event_sequence = sequence;
  code = code;
  retryable = retryable;
  safe_message = record { text = message code };
}

-- What comes in, before `SafeMessage` is read from its text.
pub record UncheckedProviderError : Type 0 where
  pub session_id : ℕ
  pub direction_id : AudioDirection
  pub stream_id : Option ℕ
  pub event_sequence : ℕ
  pub code : SafeErrorCode
  pub retryable : Bool
  pub safe_message : String

unfoldable pub deserialize_error : UncheckedProviderError → Result PrivacySafeProviderError String
unfolding deserialize_message
deserialize_error u = elim (deserialize_message u.safe_message) [
  | err e ↦ err e
  | ok m ↦
      if not (str_eq m.text (message u.code))
      then err "safe message does not match error code"
      else ok (record {
        session_id = u.session_id;
        direction_id = u.direction_id;
        stream_id = u.stream_id;
        event_sequence = u.event_sequence;
        code = u.code;
        retryable = u.retryable;
        safe_message = m;
      })
]
