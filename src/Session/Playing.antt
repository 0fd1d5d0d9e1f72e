-- ===== src/Session/Playing.antt =====
-- crates/translator-daemon/src/direction_session.rs: what becomes of audio that the coordinator
-- accepts.
use Prim.Native.String.{String}
use translator.Prelude.{
  ℕ, ◌≡◌, true, false, List, [], ◌∷◌, Option, some, ok, err, arith, length, Option-cases,
  Bool-cases, inl, inr, subst,
}
use translator.Prelude.PairMap.{PairMap, get_pair, insert_pair, remove_pair}
use translator.Pcm.Frame.{PcmFrame, provider_default}
use translator.Validation.Messages.{Event, audio_delta, ProviderAudioDelta}
use translator.Validation.State.{ProviderEventValidator}
use translator.Validation.Audio.{expected_bytes}
use translator.Validation.Validate.{validate}
use translator.Validation.Accepted.{accepted-audio, accepted-sequence}
use translator.Watchdog.{is_active}
use translator.Watchdog.Finals.{awaits_cancelled}
use translator.Watchdog.Coordinator.{Coordinator, ReceiveBuffer, consume_receive_audio}
use translator.Watchdog.Coordinator.Events.{
  validates, accept_audio, validate_audio_event, validate_kind, validate_event,
}
use translator.Watchdog.Coordinator.Atomic.{accept_audio-AllOrNothing, AllOrNothing, Taken, grown}
use translator.Watchdog.Coordinator.Agreement.{Agrees}
use translator.Session.{DirectionSession, playback, provider_pcm_format}
use translator.Session.Handlers.{play_audio, checked_frame, effects_of, handle_provider_event}
use translator.Watchdog.Coordinator.{new_coordinator}
use translator.Watchdog.Coordinator.History.{Call, coordinated, coordinated-reached}

-- No frame waits in a receive buffer.
abbrev pub Silent : Coordinator → Type 0
Silent c = c.receive_buffers ≡ []

-- The frame to play.
abbrev pub frame_of : ProviderAudioDelta → PcmFrame
frame_of m = record {
  sequence = m.sequence;
  capture_monotonic_ns = m.provider_monotonic_ns;
  format = provider_default;
  pcm = m.pcm;
}

checked_frame-ok :
    (parse : String → Option ℕ) (print : ℕ → String) (m : ProviderAudioDelta)
    → m.format ≡ provider_pcm_format
    → length m.pcm ≡ expected_bytes m.format
    → checked_frame parse print m m.pcm ≡ ok (frame_of m)
unfolding checked_frame expected_bytes
checked_frame-ok parse print m f l = ground arith

-- A buffer that holds the frame alone gives it back, and is gone.
consume_alone :
    (c : Coordinator) (m : ProviderAudioDelta) (stream u ms : ℕ)
    → c.receive_buffers
      ≡ (
        (stream, u),
        record {
          frames = record { pcm = m.pcm; duration_ms = m.format.frame_duration_ms } ∷ [];
          buffered_ms = ms;
        },
      )
        ∷ []
    → consume_receive_audio stream u c ≡ some (record c { receive_buffers = [] }, ok m.pcm)
unfolding consume_receive_audio get_pair remove_pair
consume_alone c m stream u ms h = ground (arith, h)

module _ (parse : String → Option ℕ) where
  -- Audio of an utterance whose cancellation is pending is not accepted.
  accepted_awaits :
      (c : Coordinator) (w : ProviderEventValidator) (m : ProviderAudioDelta) (stream u now_ns : ℕ)
      → Agrees c
      → is_active c.watchdog.session_phase ≡ true
      → parse m.utterance_id ≡ some u
      → validate parse c.validator (some (audio_delta m)) now_ns ≡ some (w, ok tt)
      → awaits_cancelled c.watchdog stream u ≡ false
  unfolding Agrees awaits_cancelled
  accepted_awaits c w m stream u now_ns a l p v =
      let (u', q, played) = accepted-audio parse c.validator w m now_ns v in
      ground (
        arith,
        a u,
        played.live.uncancelled,
        played.live.begun,
        accepted-sequence parse c.validator w (audio_delta m) now_ns v,
      )

  validates_accepted :
      (c d : Coordinator) (e : Event) (now_ns : ℕ)
      → validates parse e now_ns c ≡ some (d, ok tt)
      → (w : ProviderEventValidator) × (validate parse c.validator (some e) now_ns
          ≡ some (w, ok tt))
  unfolding validates
  validates_accepted c d e now_ns h =
      elim (Option-cases (validate parse c.validator (some e) now_ns)) [
        | inl q ↦ ground (arith, q)
        | inr ((w, ok _), q) ↦ (w, q)
        | inr ((w, err x), q) ↦ ground (arith, q)
      ]

  accept_accepted :
      (c d : Coordinator) (m : ProviderAudioDelta) (stream u now_ns : ℕ)
      → accept_audio parse m stream u now_ns c ≡ some (d, ok tt)
      → (w : ProviderEventValidator) × (validate parse c.validator (some (audio_delta m)) now_ns
          ≡ some (w, ok tt))
  unfolding accept_audio validates
  accept_accepted c d m stream u now_ns h =
      elim (Option-cases (validate parse c.validator (some (audio_delta m)) now_ns)) [
        | inl q ↦ ground (arith, q)
        | inr ((w, ok _), q) ↦ (w, q)
        | inr ((w, err x), q) ↦ ground (arith, q)
      ]

  accepted_active :
      (c d : Coordinator) (m : ProviderAudioDelta) (now_ns : ℕ)
      → validate_event parse (some (audio_delta m)) now_ns c ≡ some (d, ok tt)
      → is_active c.watchdog.session_phase ≡ true
  unfolding validate_event
  accepted_active c d m now_ns h = ground (arith, h)

  accepted_kind :
      (c d : Coordinator) (m : ProviderAudioDelta) (now_ns : ℕ)
      → validate_event parse (some (audio_delta m)) now_ns c ≡ some (d, ok tt)
      → validate_audio_event parse m now_ns c ≡ some (d, ok tt)
  unfolding validate_event validate_kind
  accepted_kind c d m now_ns h = elim (Bool-cases (is_active c.watchdog.session_phase)) [
    | inl e ↦ ground (arith, e, h)
    | inr e ↦ ground (arith, e, h)
  ]

  -- What an accepted audio event does to the coordinator.
  accepted_audio-Taken :
      (c d : Coordinator) (m : ProviderAudioDelta) (now_ns : ℕ)
      → Agrees c
      → is_active c.watchdog.session_phase ≡ true
      → validate_audio_event parse m now_ns c ≡ some (d, ok tt)
      → (stream : ℕ) × (u : ℕ) × (parse m.stream_id ≡ some stream)
        × (parse m.utterance_id ≡ some u)
        × Taken c d m stream u now_ns
        × (w : ProviderEventValidator) × (validate parse c.validator (some (audio_delta m)) now_ns
            ≡ some (w, ok tt))
  unfolding validate_audio_event
  accepted_audio-Taken c d m now_ns a l h = elim (Option-cases (parse m.stream_id)) [
    | inl p ↦ ground (arith, p)
    | inr (stream, p) ↦ elim (Option-cases (parse m.utterance_id)) [
      | inl q ↦ ground (arith, p, q)
      | inr (u, q) ↦ elim (Bool-cases (awaits_cancelled c.watchdog stream u)) [
        | inl x ↦
            let v : validates parse (audio_delta m) now_ns c ≡ some (d, ok tt) =
              ground (arith, p, q, x, h) in
            let (w, f) = validates_accepted c d (audio_delta m) now_ns v in
            let no = accepted_awaits c w m stream u now_ns a l q f in cc
        | inr x ↦
            let v : accept_audio parse m stream u now_ns c ≡ some (d, ok tt) =
              ground (arith, p, q, x, h) in
            let (w, f) = accept_accepted c d m stream u now_ns v in
            let taken : Taken c d m stream u now_ns =
              subst (AllOrNothing c m stream u now_ns) v
                (accept_audio-AllOrNothing parse c m stream u now_ns) in
            (stream, u, p, q, taken, w, f)
      ]
    ]
  ]

taken_alone :
    (c : Coordinator) (b : PairMap ReceiveBuffer) (m : ProviderAudioDelta) (stream u : ℕ)
    → Silent c
    → b ≡ insert_pair (stream, u) (grown c m stream u) c.receive_buffers
    → b
      ≡ (
        (stream, u),
        record {
          frames = record { pcm = m.pcm; duration_ms = m.format.frame_duration_ms } ∷ [];
          buffered_ms = m.format.frame_duration_ms;
        },
      )
        ∷ []
unfolding get_pair insert_pair
taken_alone c b m stream u h t = ground (arith, h, t)

-- What the session does with audio of one frame in the buffers.
play_one :
    (parse : String → Option ℕ) (print : ℕ → String) (s : DirectionSession) (m : ProviderAudioDelta)
    (stream u ms : ℕ)
    → parse m.stream_id ≡ some stream
    → parse m.utterance_id ≡ some u
    → s.coordinator.receive_buffers
      ≡ (
        (stream, u),
        record {
          frames = record { pcm = m.pcm; duration_ms = m.format.frame_duration_ms } ∷ [];
          buffered_ms = ms;
        },
      )
        ∷ []
    → checked_frame parse print m m.pcm ≡ ok (frame_of m)
    → play_audio parse print m s
      ≡ some (
        record s { coordinator = record s.coordinator { receive_buffers = [] } },
        ok (playback stream u (frame_of m) ∷ []),
      )
unfolding play_audio
play_one parse print s m stream u ms p q b f =
    ground (arith, p, q, f, consume_alone s.coordinator m stream u ms b)

-- In a session with the provider's format, whose coordinator is as calls and events leave it, with no
-- frame waiting, an audio event that the coordinator accepts leads to exactly one effect: the playback of the
-- event's own samples, under its own number, time, stream and utterance. No frame is left waiting
-- afterwards.
pub accepted-playback :
    (parse : String → Option ℕ) (print : ℕ → String) (s : DirectionSession) (d : Coordinator)
    (m : ProviderAudioDelta) (now_ns : ℕ) (xs : List Call)
    → coordinated parse (new_coordinator s.contract) xs ≡ some s.coordinator
    → s.coordinator.validator.contract.output_format ≡ provider_pcm_format
    → Silent s.coordinator
    → validate_event parse (some (audio_delta m)) now_ns s.coordinator ≡ some (d, ok tt)
    → (stream : ℕ) × (u : ℕ) × (parse m.stream_id ≡ some stream)
      × (parse m.utterance_id ≡ some u)
      × (handle_provider_event parse print (some (audio_delta m)) now_ns s
          ≡ some (
            record s { coordinator = record d { receive_buffers = [] } },
            ok (playback stream u (frame_of m) ∷ []),
          ))
unfolding handle_provider_event effects_of
accepted-playback parse print s d m now_ns xs r o b h =
    let a = coordinated-reached parse s.contract xs s.coordinator r in
    let l : is_active s.coordinator.watchdog.session_phase ≡ true =
      accepted_active parse s.coordinator d m now_ns h in
    let v : validate_audio_event parse m now_ns s.coordinator ≡ some (d, ok tt) =
      accepted_kind parse s.coordinator d m now_ns h in
    let (stream, u, p, q, (taken, _), w, f) =
      accepted_audio-Taken parse s.coordinator d m now_ns a l v in
    let (u', _, played) = accepted-audio parse s.coordinator.validator w m now_ns f in
    let checked = checked_frame-ok parse print m (ground (arith, played.agreed, o)) played.whole in
    let held = taken_alone s.coordinator d.receive_buffers m stream u b taken in
    (
      stream,
      u,
      p,
      q,
      rw (h, handle_provider_event)
          (play_one parse print (record s { coordinator = d }) m stream u _ p q held checked),
    )
