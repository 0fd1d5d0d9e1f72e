-- ===== src/Pcm/Frame.antt =====
-- crates/translator-audio/src/pcm.rs: stream formats, frames and their samples.
use translator.Prelude.{
  ℕ, ◌+◌, ◌-◌, ◌*◌, ◌/◌, Bool, ◌&&◌, not, ◌==◌, ltb, if◌then◌else◌, List, [], ◌∷◌, length, Result,
  ok, err,
}
use translator.Prelude.Int.{ℤ, pos, negsuc}

pub record StreamPcmFormat : Type 0 where
  pub sample_rate_hz : ℕ  -- u32
  pub channels : ℕ  -- u8
  pub frame_duration_ms : ℕ  -- u16

abbrev pub provider_default : StreamPcmFormat
provider_default = record { sample_rate_hz = 16000; channels = 1; frame_duration_ms = 20 }

-- The product of a u32, a u8, a u16 and 2 fits in a usize of 64 bits.
unfoldable pub frame_bytes : StreamPcmFormat → ℕ
frame_bytes f = f.sample_rate_hz * f.channels * 2 * f.frame_duration_ms / 1000

-- The derived `PartialEq`.
unfoldable pub same_format : StreamPcmFormat → StreamPcmFormat → Bool
same_format f g =
    f.sample_rate_hz == g.sample_rate_hz
    && f.channels == g.channels
    && f.frame_duration_ms == g.frame_duration_ms

pub record PcmFrame : Type 0 where
  pub sequence : ℕ  -- u64
  pub capture_monotonic_ns : ℕ  -- u64
  pub format : StreamPcmFormat
  pub pcm : List ℕ  -- bytes

pub data PcmFrameError : Type 0 where
  invalid_byte_length : PcmFrameError

unfoldable pub try_new : ℕ → ℕ → StreamPcmFormat → List ℕ → Result PcmFrame PcmFrameError
unfolding frame_bytes
try_new sequence ns format pcm =
    if not (length pcm == frame_bytes format)
    then err invalid_byte_length
    else ok (record { sequence = sequence; capture_monotonic_ns = ns; format = format; pcm = pcm })

-- `i16::from_le_bytes`.
unfoldable pub from_le_bytes : ℕ → ℕ → ℤ
from_le_bytes low high =
    let v = low + 256 * high in if ltb v 32768 then pos v else negsuc (65535 - v)

-- `chunks_exact(2)` leaves out an odd byte at the end.
unfoldable pub s16le_samples : List ℕ → List ℤ
unfolding from_le_bytes
s16le_samples (low ∷ high ∷ rest) = from_le_bytes low high ∷ s16le_samples rest
s16le_samples _ = []
