-- ===== src/Validation/Accepted.antt =====
-- crates/translator-ipc/src/validation.rs: what an accepted event says of the validator before and
-- after it.
use Prim.Native.String.{String}
use translator.Prelude.{
  ℕ, ◌+◌, ◌*◌, ◌≤◌, ◌<◌, ◌≡◌, true, false, some, none, Option, ok, arith, Option-cases, inl, inr,
  ◌⊎◌, length, not,
}
use translator.Prelude.Map.{contains_key, get, get-insert}
use translator.Validation.Messages.{WireMode, Event, common_fields, audio_delta, ProviderAudioDelta}
use translator.Validation.State.{ProviderEventValidator, max_age_ms}
use translator.Validation.Validate.{validate, validate_common, is_open}
use translator.Validation.Audio.{expected_bytes}

-- The number may come after the last one: 1 at the start, and a larger one from then on.
abbrev pub IsNext : Option ℕ → ℕ → Type 0
IsNext none n = n ≡ 1
IsNext (some last) n = last < n

-- Audio is numbered from 0 without a gap.
abbrev pub IsNextAudio : Option ℕ → ℕ → Type 0
IsNextAudio none n = n ≡ 0
IsNextAudio (some last) n = n ≡ last + 1

-- The utterance has begun, has not ended, and owes no terminal; nor does any other after an error.
pub record IsLive (v : ProviderEventValidator) (u : ℕ) : Type 0 where
  pub begun : contains_key u v.input_capture_ns ≡ true
  pub unended : contains_key u v.terminal_utterances ≡ false
  pub uncancelled : contains_key u v.cancel_pending ≡ false
  pub overflow : v.pending_overflow_terminal ≡ none
  pub speech : v.pending_no_speech_terminal ≡ none

-- The input ended not too long ago for the mode.
abbrev pub IsRecent : Option ℕ → WireMode → ℕ → Type 0
IsRecent none mode now_ns = ⊥
IsRecent (some ended_ns) mode now_ns = now_ns ≤ ended_ns + max_age_ms mode * 1000000

pub record IsPlayed (v w : ProviderEventValidator) (m : ProviderAudioDelta) (now_ns u : ℕ)
    : Type 0 where
  pub live : IsLive v u
  pub next : IsNextAudio (get u v.last_wire_audio_sequence) m.sequence
  pub agreed : m.format ≡ v.contract.output_format
  pub whole : length m.pcm ≡ expected_bytes m.format
  pub fresh :
      (contains_key u v.last_playable_audio_sequence ≡ true)
      ⊎ IsRecent (get u v.input_complete_ns) v.contract.mode now_ns
  pub noted : get u w.last_playable_audio_sequence ≡ some m.sequence

module _ (parse : String → Option ℕ) where
  -- An event is accepted only by a session that is not closed, and it is an opening exactly if the
  -- session is not open yet; the session is open from then on. The event's number is 1 if it is the
  -- first, larger than the last one otherwise, and is the last one from then on.
  pub accepted-sequence :
      (v w : ProviderEventValidator) (e : Event) (now_ns : ℕ)
      → validate parse v (some e) now_ns ≡ some (w, ok tt)
      → (v.closed ≡ false)
        × (v.opened ≡ not (is_open e))
        × (w.opened ≡ true)
        × IsNext v.last_event_sequence (common_fields e).event_sequence
        × (w.last_event_sequence ≡ some (common_fields e).event_sequence)
  unfolding validate validate_common
  accepted-sequence v w e now_ns a = ground arith

  accepted_as :
      (v w : ProviderEventValidator) (m : ProviderAudioDelta) (now_ns u : ℕ)
      → parse m.utterance_id ≡ some u
      → validate parse v (some (audio_delta m)) now_ns ≡ some (w, ok tt)
      → IsPlayed v w m now_ns u
  unfolding validate
  accepted_as v w m now_ns u e a =
      ground (arith, get-insert u u m.sequence v.last_playable_audio_sequence)

  -- Accepted audio belongs to an utterance that is live and has the next audio number, is of the format
  -- of the session and of its length in bytes, is not too old if it is the first of its utterance, and
  -- is on record afterwards.
  pub accepted-audio :
      (v w : ProviderEventValidator) (m : ProviderAudioDelta) (now_ns : ℕ)
      → validate parse v (some (audio_delta m)) now_ns ≡ some (w, ok tt)
      → (u : ℕ) × (parse m.utterance_id ≡ some u) × IsPlayed v w m now_ns u
  unfolding validate
  accepted-audio v w m now_ns a = elim (Option-cases (parse m.utterance_id)) [
    | inl e ↦ ground arith
    | inr (u, e) ↦ (u, e, accepted_as v w m now_ns u e a)
  ]
