-- ===== src/Session/Handlers.antt =====
-- crates/translator-daemon/src/direction_session.rs: the handlers of captured speech, of provider events
-- and of the watchdog's poll. `parse` is `Uuid::parse_str`, `print` is `Uuid::to_string`.
use Prim.Native.String.{String}
use translator.Prelude.{
  ℕ, Bool, not, ◌==◌, if◌then◌else◌, List, [], ◌∷◌, map, Option, none, some, is_some, opt_eq,
  Result, ok, err, ok_or, ensure, saturating_add64,
}
use translator.Prelude.Map.{contains_key, insert, remove}
use translator.Prelude.Effects.{◌>>=◌, ◌>>◌, pure, fails, lift}
use translator.Pcm.Frame.{PcmFrame, try_new, provider_default}
use translator.Pcm.Segmenter.{CaptureEvent, speech_started, frame_event}
use translator.Validation.Messages as Wire
use translator.Validation.Messages.{
  Event, audio_delta, transcript_delta, translation_delta, utterance_final, session_closed, error,
  session_opened, health, ProviderAudioDelta, direction_code, safe_error_of, outcome_of,
}
use translator.Validation.State.{expired_audio as expired, cancelled_audio}
use translator.Watchdog.{WatchdogAction}
use translator.Watchdog as Deadlines
use translator.Watchdog.Coordinator.{
  Coordinating, Coordinator, CoordinatorError, validation_error, start_utterance,
  record_end_of_utterance, consume_receive_audio,
}
use translator.Watchdog.Coordinator.Events as Coordinating
use translator.Session.Requests.{
  language_code, mode_code, s16le_code, ProviderRequest, input_frame, provider_switch,
}
use translator.Session.{
  SafeProviderErrorCode, provider_unavailable, model_not_loaded, unsupported_language_pair,
  queue_overflow, cloud_not_enabled, provider_auth_failed, no_speech, TerminalOutcome, completed,
  dropped, DirectionEffect, playback, transcript_final, translation_final, latency, provider_error,
  utterance_terminal_outcome, utterance_terminal, expired_audio, session_ended,
  DirectionWatchdogEffect, purge_and_send, restart, DirectionSessionError, capture_stream_mismatch,
  invalid_capture_state, invalid_provider_audio, invalid_provider_metadata, coordinator_error,
  DirectionSession, Directing, cancel_request, close_request,
}

-- A call of the coordinator; the other fields stay.
abbrev pub coordinated :
    {A : Type 0}
    → DirectionSession
    → Option (Coordinator × Result A CoordinatorError)
    → Option (DirectionSession × Result A DirectionSessionError)
coordinated s none = none
coordinated s (some (c, ok a)) = some (record s { coordinator = c }, ok a)
coordinated s (some (c, err e)) = some (record s { coordinator = c }, err (coordinator_error e))

abbrev pub on_coordinator : {A : Type 0} → Coordinating A → Directing A
on_coordinator f s = coordinated s (f s.coordinator)

abbrev pub sets : (DirectionSession → DirectionSession) → Directing (Unit {0})
sets f s = some (f s, ok tt)

-- A test on the state, with the error if it fails.
abbrev pub checks : (DirectionSession → Bool) → DirectionSessionError → Directing (Unit {0})
checks test e s = some (s, ensure (test s) e)

abbrev pub reads : {A : Type 0} → (DirectionSession → A) → Directing A
reads f s = some (s, ok (f s))

abbrev pub require_stream : ℕ → Directing (Unit {0})
require_stream stream = checks (λ s. stream == s.contract.stream_id) capture_stream_mismatch

unfoldable pub handle_started : ℕ → ℕ → ℕ → Directing (Option ProviderRequest)
unfolding start_utterance
handle_started stream utterance capture_ns = do
  require_stream stream
  checks (λ s. not (is_some s.collecting_utterance)) invalid_capture_state
  checks (λ s. not (contains_key utterance s.active_utterances)) invalid_capture_state
  sets (λ s. record s { active_utterances = insert utterance tt s.active_utterances })
  on_coordinator (start_utterance stream utterance capture_ns)
  sets (λ s. record s { collecting_utterance = some utterance })
  pure none

-- `saturating_add`, on the number of the next frame.
abbrev pub count_input : DirectionSession → DirectionSession
count_input s = record s { next_input_sequence = saturating_add64 s.next_input_sequence 1 }

unfoldable pub end_input : ℕ → ℕ → ℕ → Directing (Unit {0})
unfolding record_end_of_utterance
end_input stream utterance capture_ns = do
  on_coordinator (record_end_of_utterance stream utterance capture_ns)
  sets (λ s. record s { collecting_utterance = none })

-- The arms of the `match` on a wire code.
unfoldable pub safe_provider_error_code : ℕ → Result SafeProviderErrorCode DirectionSessionError
unfolding safe_error_of
safe_provider_error_code value = elim (safe_error_of value) [
  | none ↦ err invalid_provider_metadata
  | some Wire.SafeErrorCode.unspecified ↦ err invalid_provider_metadata
  | some Wire.SafeErrorCode.provider_unavailable ↦ ok provider_unavailable
  | some Wire.SafeErrorCode.model_not_loaded ↦ ok model_not_loaded
  | some Wire.SafeErrorCode.unsupported_language_pair ↦ ok unsupported_language_pair
  | some Wire.SafeErrorCode.queue_overflow ↦ ok queue_overflow
  | some Wire.SafeErrorCode.code_cancelled ↦ ok SafeProviderErrorCode.cancelled
  | some Wire.SafeErrorCode.cloud_not_enabled ↦ ok cloud_not_enabled
  | some Wire.SafeErrorCode.provider_auth_failed ↦ ok provider_auth_failed
  | some Wire.SafeErrorCode.no_speech ↦ ok no_speech
]

unfoldable pub terminal_outcome : ℕ → Result TerminalOutcome DirectionSessionError
unfolding outcome_of
terminal_outcome value = elim (outcome_of value) [
  | none ↦ err invalid_provider_metadata
  | some Wire.UtteranceOutcome.unspecified ↦ err invalid_provider_metadata
  | some Wire.UtteranceOutcome.completed ↦ ok completed
  | some Wire.UtteranceOutcome.cancelled ↦ ok TerminalOutcome.cancelled
  | some Wire.UtteranceOutcome.dropped ↦ ok dropped
]

module _ (parse : String → Option ℕ) (print : ℕ → String) where
  unfoldable pub input_request : DirectionSession → ℕ → ℕ → PcmFrame → Bool → ProviderRequest
  unfolding direction_code language_code mode_code
  input_request s stream utterance frame end_of_utterance = input_frame (record {
    schema_version = "translator.provider.input.v1";
    session_id = print s.contract.session_id;
    direction_id = direction_code s.contract.direction_id;
    stream_id = print stream;
    utterance_id = print utterance;
    sequence = s.next_input_sequence;
    capture_monotonic_ns = frame.capture_monotonic_ns;
    sample_rate_hz = frame.format.sample_rate_hz;
    channels = frame.format.channels;
    sample_format = s16le_code;
    frame_duration_ms = frame.format.frame_duration_ms;
    source_language = language_code s.contract.source_language;
    target_language = language_code s.contract.target_language;
    mode = mode_code s.contract.mode;
    pcm = frame.pcm;
    end_of_utterance = end_of_utterance;
  })

  unfoldable pub handle_frame : ℕ → ℕ → PcmFrame → Bool → Directing (Option ProviderRequest)
  unfolding input_request end_input
  handle_frame stream utterance frame end_of_utterance = do
    require_stream stream
    checks (λ s. opt_eq s.collecting_utterance (some utterance)) invalid_capture_state
    request ← reads (λ s. input_request s stream utterance frame end_of_utterance)
    if end_of_utterance then end_input stream utterance frame.capture_monotonic_ns else pure tt
    sets count_input
    pure (some request)

  unfoldable pub handle_capture : CaptureEvent → Directing (Option ProviderRequest)
  unfolding handle_started handle_frame
  handle_capture (speech_started stream utterance capture_ns) =
      handle_started stream utterance capture_ns
  handle_capture (frame_event stream utterance frame end_of_utterance) =
      handle_frame stream utterance frame end_of_utterance

  -- `Uuid::parse_str` with `invalid_audio`, and `parse_utterance`.
  abbrev pub parse_utterance : String → Result ℕ DirectionSessionError
  parse_utterance value = ok_or (parse value) invalid_provider_audio

  -- `value.as_deref().map(parse_utterance).transpose()`
  abbrev pub parse_optional : Option String → Result (Option ℕ) DirectionSessionError
  parse_optional none = ok none
  parse_optional (some value) = elim (parse_utterance value) [
    | err e ↦ err e
    | ok utterance ↦ ok (some utterance)
  ]

  -- `PcmFrameError` becomes `InvalidProviderAudio`.
  unfoldable pub checked_frame : ProviderAudioDelta → List ℕ → Result PcmFrame DirectionSessionError
  unfolding try_new
  checked_frame m pcm = elim (try_new m.sequence m.provider_monotonic_ns provider_default pcm) [
    | err e ↦ err invalid_provider_audio
    | ok frame ↦ ok frame
  ]

  unfoldable pub play_audio : ProviderAudioDelta → Directing (List DirectionEffect)
  unfolding consume_receive_audio checked_frame
  play_audio m = do
    stream ← lift (parse_utterance m.stream_id)
    utterance ← lift (parse_utterance m.utterance_id)
    pcm ← on_coordinator (consume_receive_audio stream utterance)
    frame ← lift (checked_frame m pcm)
    pure (playback stream utterance frame ∷ [])

  unfoldable pub end_utterance : Wire.ProviderUtteranceFinal → Directing (List DirectionEffect)
  unfolding terminal_outcome
  end_utterance m = do
    utterance ← lift (parse_utterance m.utterance_id)
    outcome ← lift (terminal_outcome m.outcome)
    sets (λ s. record s { active_utterances = remove utterance s.active_utterances })
    pure (utterance_terminal_outcome utterance outcome ∷ utterance_terminal utterance ∷ [])

  -- The effects of an event that the coordinator has accepted.
  unfoldable pub effects_of : Event → Directing (List DirectionEffect)
  unfolding play_audio end_utterance safe_provider_error_code
  effects_of (audio_delta m) = play_audio m
  effects_of (transcript_delta m) =
      if m.is_final
      then (do
        utterance ← lift (parse_utterance m.utterance_id)
        pure (transcript_final utterance ∷ []))
      else pure []
  effects_of (translation_delta m) =
      if m.is_final
      then (do
        utterance ← lift (parse_utterance m.utterance_id)
        pure (translation_final utterance ∷ []))
      else pure []
  effects_of (Wire.latency m) = do
    utterance ← lift (parse_optional m.utterance_id)
    pure (latency utterance m.tts_first_audio_ms m.provider_total_ms ∷ [])
  effects_of (error m) = do
    utterance ← lift (parse_optional m.utterance_id)
    code ← lift (safe_provider_error_code m.code)
    pure (provider_error utterance code m.retryable ∷ [])
  effects_of (utterance_final m) = end_utterance m
  effects_of (session_closed c) = do
    sets (λ s. record s { active_utterances = []; collecting_utterance = none })
    pure (session_ended ∷ [])
  effects_of (session_opened m) = pure []
  effects_of (health m) = pure []

  -- Audio that comes too late cancels its utterance.
  unfoldable pub expire_audio : ProviderAudioDelta → ℕ → Directing (List DirectionEffect)
  unfolding Coordinating.cancel_expired_utterance cancel_request
  expire_audio m now_ns = do
    stream ← lift (parse_utterance m.stream_id)
    utterance ← lift (parse_utterance m.utterance_id)
    on_coordinator (Coordinating.cancel_expired_utterance stream utterance now_ns)
    request ← reads (λ s. cancel_request print s utterance)
    pure (expired_audio utterance request ∷ [])

  -- What a refusal by the coordinator leads to.
  unfoldable pub refused : CoordinatorError → Option Event → ℕ → Directing (List DirectionEffect)
  unfolding expire_audio
  refused (validation_error cancelled_audio) event now_ns = pure []
  refused (validation_error expired) (some (audio_delta m)) now_ns = expire_audio m now_ns
  refused e event now_ns = fails (coordinator_error e)

  unfoldable pub handle_validated :
      Option Event → ℕ → Result (Unit {0}) CoordinatorError → Directing (List DirectionEffect)
  unfolding effects_of refused
  handle_validated event now_ns (err e) = refused e event now_ns
  handle_validated none now_ns (ok _) = pure []
  handle_validated (some event) now_ns (ok _) = effects_of event

  unfoldable pub handle_provider_event : Option Event → ℕ → Directing (List DirectionEffect)
  unfolding Coordinating.validate_event handle_validated
  handle_provider_event event now_ns s =
      elim (Coordinating.validate_event parse event now_ns s.coordinator) [
        | none ↦ none
        | some (c, r) ↦ handle_validated event now_ns r (record s { coordinator = c })
      ]

  unfoldable pub watchdog_effect : DirectionSession → WatchdogAction → DirectionWatchdogEffect
  unfolding cancel_request close_request
  watchdog_effect s (Deadlines.cancel_utterance session stream utterance purge) =
      purge_and_send (cancel_request print s utterance)
  watchdog_effect s (Deadlines.close_provider_session session) =
      purge_and_send (close_request print s provider_switch)
  watchdog_effect s (Deadlines.restart_sidecar session) = restart

  -- A cancelled utterance takes no more input.
  unfoldable pub forget_cancelled : List WatchdogAction → Option ℕ → Option ℕ
  forget_cancelled [] collecting = collecting
  forget_cancelled (Deadlines.cancel_utterance session stream utterance purge ∷ actions)
        collecting =
      forget_cancelled actions (if opt_eq collecting (some utterance) then none else collecting)
  forget_cancelled (Deadlines.close_provider_session session ∷ actions) collecting =
      forget_cancelled actions collecting
  forget_cancelled (Deadlines.restart_sidecar session ∷ actions) collecting =
      forget_cancelled actions collecting

  unfoldable pub poll : ℕ → Directing (List DirectionWatchdogEffect)
  unfolding Coordinating.poll watchdog_effect forget_cancelled
  poll now_ns = do
    actions ← on_coordinator (Coordinating.poll now_ns)
    sets (λ s. record s { collecting_utterance = forget_cancelled actions s.collecting_utterance })
    reads (λ s. map (watchdog_effect s) actions)
