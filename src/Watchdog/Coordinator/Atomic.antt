-- ===== src/Watchdog/Coordinator/Atomic.antt =====
-- crates/translator-daemon/src/provider_audio_watchdog.rs: the parts of the coordinator that a piece
-- of audio changes.
use Prim.Native.String.{String}
use translator.Prelude.{
  ℕ, ◌≡◌, ◌++◌, ◌+◌, [], ◌∷◌, Option, none, some, Result, ok, err, arith, Option-cases, inl, inr,
  saturating_add64,
}
use translator.Prelude.Map.{get, get-insert}
use translator.Prelude.PairMap.{get_pair, insert_pair}
use translator.Validation.Messages.{audio_delta, ProviderAudioDelta}
use translator.Validation.Validate.{validate}
use translator.Watchdog.{inter_audio_delta_timeout_ns, WatchedUtterance, streaming_audio}
use translator.Watchdog.Coordinator.{Coordinator, CoordinatorError, ReceiveBuffer, buffer_or_empty}
use translator.Watchdog.Coordinator.Events.{validates, accept_audio}

-- Nothing but the validator's part changes.
abbrev pub Untouched : Coordinator → Coordinator → Type 0
Untouched c d = (d.watchdog ≡ c.watchdog) × (d.receive_buffers ≡ c.receive_buffers)

-- The receive buffer with one more frame.
abbrev pub grown : Coordinator → ProviderAudioDelta → ℕ → ℕ → ReceiveBuffer
grown c m stream u =
    let old = buffer_or_empty (get_pair (stream, u) c.receive_buffers) in
    record {
      frames = old.frames ++ record { pcm = m.pcm; duration_ms = m.format.frame_duration_ms } ∷ [];
      buffered_ms = old.buffered_ms + m.format.frame_duration_ms;
    }

-- The frame is the last of its buffer, and the next audio is due in 250 ms.
abbrev pub Taken : Coordinator → Coordinator → ProviderAudioDelta → ℕ → ℕ → ℕ → Type 0
Taken c d m stream u now_ns =
    (d.receive_buffers ≡ insert_pair (stream, u) (grown c m stream u) c.receive_buffers)
    × (get u d.watchdog.utterances
        ≡ some (record {
          stream_id = stream;
          phase = streaming_audio (saturating_add64 now_ns inter_audio_delta_timeout_ns);
        }))

abbrev pub AllOrNothing :
    Coordinator
    → ProviderAudioDelta
    → ℕ
    → ℕ
    → ℕ
    → Option (Coordinator × Result (Unit {0}) CoordinatorError)
    → Type 0
AllOrNothing c m stream u now_ns none = Unit {0}
AllOrNothing c m stream u now_ns (some (d, ok _)) = Taken c d m stream u now_ns
AllOrNothing c m stream u now_ns (some (d, err x)) = Untouched c d

-- Audio that the coordinator takes for an utterance is the last frame of its receive buffer, and moves
-- its deadline to 250 ms from now; audio that it refuses, whichever check refuses it, leaves the watchdog
-- and all receive buffers as they were.
pub accept_audio-AllOrNothing :
    (parse : String → Option ℕ) (c : Coordinator) (m : ProviderAudioDelta) (stream u now_ns : ℕ)
    → AllOrNothing c m stream u now_ns (accept_audio parse m stream u now_ns c)
unfolding accept_audio validates
accept_audio-AllOrNothing parse c m stream u now_ns =
    elim (Option-cases (validate parse c.validator (some (audio_delta m)) now_ns)) [
      | inl q ↦ ground (arith, q)
      | inr ((v, r), q) ↦
          let streaming : WatchedUtterance = record {
            stream_id = stream;
            phase = streaming_audio (saturating_add64 now_ns inter_audio_delta_timeout_ns);
          } in
          ground (arith, q, get-insert u u streaming c.watchdog.utterances)
    ]
