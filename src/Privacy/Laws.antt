-- ===== src/Privacy/Laws.antt =====
-- crates/translator-core/src/privacy.rs: which errors and which texts are read.
use Prim.Native.String.{String}
use text.Mathlib.TextEquality.{eq_iff}
use text.Mathlib.Text.{◌==◌ as str_eq}
use translator.Prelude.{◌≡◌, ◌↔◌, arith, true, ok, List, [], ◌∷◌, refl, sym, Bool-cases, inl, inr}
use translator.Privacy.{
  SafeErrorCode, message, provider_unavailable, model_not_loaded, unsupported_language_pair,
  queue_overflow, cancelled, no_speech, cloud_not_enabled, provider_auth_failed, is_allowed,
  safe_codes, SafeMessage, PrivacySafeProviderError, UncheckedProviderError, new_error,
  deserialize_error, deserialize_message,
}

is_allowed-message : (c : SafeErrorCode) → is_allowed safe_codes (message c) ≡ true
unfolding is_allowed message
is_allowed-message provider_unavailable = refl
is_allowed-message model_not_loaded = refl
is_allowed-message unsupported_language_pair = refl
is_allowed-message queue_overflow = refl
is_allowed-message cancelled = refl
is_allowed-message no_speech = refl
is_allowed-message cloud_not_enabled = refl
is_allowed-message provider_auth_failed = refl

-- An error is read exactly if its text is the fixed message of its code, and it is then the one that
-- `PrivacySafeProviderError::new` builds from the fields, with the stream that was named.
pub deserialize_error_iff :
    (u : UncheckedProviderError) (e : PrivacySafeProviderError)
    → (deserialize_error u ≡ ok e) ↔ (
        (u.safe_message ≡ message u.code)
        × (e ≡ record (new_error u.session_id u.direction_id u.event_sequence u.code u.retryable) {
          stream_id = u.stream_id;
        }))
unfolding deserialize_error deserialize_message new_error
deserialize_error_iff u e =
    let same = eq_iff u.safe_message (message u.code) in
    let known : is_allowed safe_codes (message u.code) ≡ true = is_allowed-message u.code in
    (λ h. ground (arith, same), λ h. ground (arith, same, known))

allowed_by :
    (cs : List SafeErrorCode) (s : String)
    → is_allowed cs s ≡ true
    → (c : SafeErrorCode) × (s ≡ message c)
unfolding is_allowed
allowed_by [] s h = ground arith
allowed_by (c ∷ cs) s h = elim (Bool-cases (str_eq (message c) s)) [
  | inl e ↦ (c, sym ((eq_iff (message c) s).0 e))
  | inr e ↦ allowed_by cs s (ground arith)
]

-- A text is read as a safe message exactly if it is the fixed message of one of the codes, and the
-- message is that text.
pub deserialize_message_iff :
    (s : String) (m : SafeMessage)
    → (deserialize_message s ≡ ok m) ↔ ((m.text ≡ s) × ((c : SafeErrorCode) × (s ≡ message c)))
unfolding deserialize_message
deserialize_message_iff s m = (
  λ h. elim (Bool-cases (is_allowed safe_codes s)) [
    | inl e ↦ (ground arith, allowed_by safe_codes s e)
    | inr e ↦ ground arith
  ],
  λ (t, (c, e)).
      let known : is_allowed safe_codes (message c) ≡ true = is_allowed-message c in ground arith,
)
