-- ===== src/Contracts/Laws.antt =====
-- crates/translator-core/src/contracts.rs: which PCM formats and which policy states are read back.
use translator.Prelude.{◌≡◌, ◌↔◌, ◌⊎◌, ok, arith}
use translator.Contracts.{
  PcmFormat, UncheckedPcmFormat, deserialize_format, LatencyPolicyState, new_policy_state,
  deserialize_policy_state,
}

-- The formats of the provider contract, independently of the order of the checks.
pub record IsSupported (u : UncheckedPcmFormat) : Type 0 where
  pub rate : (u.sample_rate_hz ≡ 16000) ⊎ (u.sample_rate_hz ≡ 24000) ⊎ (u.sample_rate_hz ≡ 48000)
  pub mono_or_stereo : (u.channels ≡ 1) ⊎ (u.channels ≡ 2)
  pub duration :
      (u.frame_duration_ms ≡ 20)
      ⊎ (u.frame_duration_ms ≡ 40)
      ⊎ (u.frame_duration_ms ≡ 60)
      ⊎ (u.frame_duration_ms ≡ 80)
      ⊎ (u.frame_duration_ms ≡ 100)

abbrev pub checked : UncheckedPcmFormat → PcmFormat
checked u = record {
  sample_rate_hz = u.sample_rate_hz;
  channels = u.channels;
  sample_format = u.sample_format;
  frame_duration_ms = u.frame_duration_ms;
}

-- The checks pass exactly for the supported formats, and the format that is built holds the fields
-- as they were read.
pub deserialize_format_iff :
    (u : UncheckedPcmFormat) (f : PcmFormat)
    → (deserialize_format u ≡ ok f) ↔ (IsSupported u × (f ≡ checked u))
unfolding deserialize_format
deserialize_format_iff u f = (λ h. ground arith, λ h. ground arith)

-- A state is read back unchanged exactly if it is one that `LatencyPolicyState::new` builds.
pub deserialize_policy_state_iff :
    (u v : LatencyPolicyState)
    → (deserialize_policy_state u ≡ ok v) ↔ (
        (v ≡ u)
        × (u
            ≡ new_policy_state u.direction_id u.current_mode u.p95_first_audio_ms
                u.p95_last_audio_ms u.p95_queue_lag_ms u.last_mode_change_at u.reason))
unfolding deserialize_policy_state new_policy_state
deserialize_policy_state_iff u v = (λ h. ground arith, λ h. ground arith)
