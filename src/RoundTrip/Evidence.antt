-- ===== src/RoundTrip/Evidence.antt =====
-- crates/translator-daemon/src/round_trip.rs: the evidence that the frames which were captured are
-- those which were played back. The SHA-256 hasher is a parameter: its state, its start, its update by
-- some bytes and its digest.
use Prim.Native.String.{String}
use Prim.Native.String.{◌++◌ as str_append}
use text.Mathlib.Text.{◌==◌ as str_eq}
use translator.Prelude.{
  ℕ, zero, suc, ◌-◌, ◌/◌, ◌%◌, Bool, true, false, ◌&&◌, not, ◌==◌, ltb, if◌then◌else◌, List, [],
  ◌∷◌, Option, none, some, Result, ok, err, saturating_add64,
}
use translator.Pcm.Frame.{StreamPcmFormat, PcmFrame, same_format}
use translator.Latency.Policy.{digit}

pub record ExactPcmProof : Type 0 where
  pub sample_rate_hz : ℕ  -- u32
  pub channels : ℕ  -- u8
  pub frame_duration_ms : ℕ  -- u16
  pub frame_count : ℕ
  pub captured_frame_count : ℕ
  pub reinjected_frame_count : ℕ
  pub first_sequence : Option ℕ
  pub last_sequence : Option ℕ
  pub captured_rolling_hash : String
  pub reinjected_rolling_hash : String
  pub format_matches : Bool
  pub sequence_monotonic : Bool
  pub exact_match : Bool

pub data ExactPcmEvidenceError : Type 0 where
  format_mismatch sequence_mismatch : ExactPcmEvidenceError

pub record ExactPcmEvidence (H : Type 0) : Type 0 where
  pub format : StreamPcmFormat
  pub captured_count : ℕ  -- u64
  pub reinjected_count : ℕ  -- u64
  pub captured_hash : H
  pub reinjected_hash : H
  pub format_matches : Bool
  pub sequence_monotonic : Bool

-- `u64::to_le_bytes`: so many bytes, the lowest first.
unfoldable pub le_bytes : ℕ → ℕ → List ℕ
le_bytes zero n = []
le_bytes (suc k) n = n % 256 ∷ le_bytes k (n / 256)

unfoldable pub hex_digit : ℕ → String
unfolding digit
hex_digit d =
    if ltb d 10
    then digit d
    else if d == 10
    then "a"
    else if d == 11
    then "b"
    else if d == 12
    then "c"
    else if d == 13
    then "d"
    else if d == 14
    then "e"
    else "f"

unfoldable pub digest_hex : List ℕ → String
unfolding hex_digit
digest_hex [] = ""
digest_hex (byte ∷ bytes) =
    str_append (str_append (hex_digit (byte / 16)) (hex_digit (byte % 16))) (digest_hex bytes)

-- `(count > 0).then_some(0)` and `count.checked_sub(1)`.
abbrev pub first_of : ℕ → Option ℕ
first_of count = if ltb 0 count then some 0 else none

abbrev pub last_of : ℕ → Option ℕ
last_of count = if ltb 0 count then some (count - 1) else none

module _ {H : Type 0} (new_hash : H) (update : H → List ℕ → H) (digest : H → List ℕ) where
  unfoldable pub new_evidence : StreamPcmFormat → ExactPcmEvidence H
  new_evidence format = record {
    format = format;
    captured_count = 0;
    reinjected_count = 0;
    captured_hash = new_hash;
    reinjected_hash = new_hash;
    format_matches = true;
    sequence_monotonic = true;
  }

  -- What a frame adds to a hash.
  unfoldable pub absorb : H → PcmFrame → H
  absorb hash frame = update (update hash (le_bytes 8 frame.sequence)) frame.pcm

  -- The checks of `record`, before it changes the count and the hash.
  unfoldable pub check_frame :
      StreamPcmFormat → PcmFrame → ℕ → Result (Unit {0}) ExactPcmEvidenceError
  unfolding same_format
  check_frame format frame count =
      if not (same_format frame.format format)
      then err format_mismatch
      else if not (frame.sequence == count)
      then err sequence_mismatch
      else ok tt

  -- A refusal clears the flag that it is about.
  unfoldable pub refuse : ExactPcmEvidence H → ExactPcmEvidenceError → ExactPcmEvidence H
  refuse e format_mismatch = record e { format_matches = false }
  refuse e sequence_mismatch = record e { sequence_monotonic = false }

  unfoldable pub capture :
      ExactPcmEvidence H → PcmFrame → ExactPcmEvidence H × Result (Unit {0}) ExactPcmEvidenceError
  unfolding check_frame refuse absorb
  capture e frame = elim (check_frame e.format frame e.captured_count) [
    | err x ↦ (refuse e x, err x)
    | ok _ ↦ (
      record e {
        captured_hash = absorb e.captured_hash frame;
        captured_count = saturating_add64 e.captured_count 1;
      },
      ok tt,
    )
  ]

  unfoldable pub reinject :
      ExactPcmEvidence H → PcmFrame → ExactPcmEvidence H × Result (Unit {0}) ExactPcmEvidenceError
  unfolding check_frame refuse absorb
  reinject e frame = elim (check_frame e.format frame e.reinjected_count) [
    | err x ↦ (refuse e x, err x)
    | ok _ ↦ (
      record e {
        reinjected_hash = absorb e.reinjected_hash frame;
        reinjected_count = saturating_add64 e.reinjected_count 1;
      },
      ok tt,
    )
  ]

  unfoldable pub proof : ExactPcmEvidence H → ExactPcmProof
  unfolding digest_hex
  proof e =
      let captured = digest_hex (digest e.captured_hash) in
      let reinjected = digest_hex (digest e.reinjected_hash) in
      record {
        sample_rate_hz = e.format.sample_rate_hz;
        channels = e.format.channels;
        frame_duration_ms = e.format.frame_duration_ms;
        frame_count = e.captured_count;
        captured_frame_count = e.captured_count;
        reinjected_frame_count = e.reinjected_count;
        first_sequence = first_of e.captured_count;
        last_sequence = last_of e.captured_count;
        captured_rolling_hash = captured;
        reinjected_rolling_hash = reinjected;
        format_matches = e.format_matches;
        sequence_monotonic = e.sequence_monotonic;
        exact_match =
            ltb 0 e.captured_count
            && e.captured_count == e.reinjected_count
            && e.format_matches
            && e.sequence_monotonic
            && str_eq captured reinjected;
      }
