-- ===== src/Settings.antt =====
-- crates/translator-daemon/src/runtime_state.rs: the settings that the control API reads and writes. The
-- snapshot and the buffer of debug texts have a lock each. A call that takes one of them, or the second
-- inside the first, is one function; `set_provider` and `set_debug_text_enabled` take the two one after the
-- other and are two functions each, between which other calls can come. The audio graph, the routes, the
-- devices, the latency policy and the capture of debug audio are left out, and so are the event bus and
-- the log.
use Prim.Native.String.{String}
pub mod Steps
pub mod Consistent
pub mod Laws
use translator.Prelude.{
  ℕ, Bool, true, false, not, ◌&&◌, ◌||◌, ltb, if◌then◌else◌, List, [], ◌∷◌, Option, none, some,
  Result, ok, err,
}
use translator.Prelude.Effects.{Effect}
use translator.Contracts.{
  AudioDirection, microphone, speaker, Language, ru, en, VoiceGender, VoiceEngine, VoiceProfile,
  ProviderId,
}
use translator.DebugText.{DebugTextBuffer, empty_buffer, clear, set_enabled, push, DebugTextEvent}

pub record AudioMixState : Type 0 where
  pub microphone_original_percent : ℕ
  pub microphone_translation_percent : ℕ
  pub speaker_original_percent : ℕ
  pub speaker_translation_percent : ℕ

pub record DirectionState : Type 0 where
  pub direction_id : AudioDirection
  pub source_language : Language
  pub target_language : Language
  pub enabled : Bool
  pub voice_profile : VoiceProfile

pub data RuntimeMutationError : Type 0 where
  invalid_language_pair voice_language_mismatch : RuntimeMutationError
  cloud_provider_opt_in_required invalid_audio_mix_volume : RuntimeMutationError

pub record DirectionPatch : Type 0 where
  pub direction_id : AudioDirection
  pub source_language : Option Language
  pub target_language : Option Language
  pub enabled : Option Bool

pub record AudioMixPatch : Type 0 where
  pub microphone_original_percent : Option ℕ
  pub microphone_translation_percent : Option ℕ
  pub speaker_original_percent : Option ℕ
  pub speaker_translation_percent : Option ℕ

-- The snapshot's settings, and the buffer of debug texts. `self_test_text` is the text of the self
-- test's status.
pub record RuntimeSnapshot (T : Type 0) : Type 0 where
  pub translation_running : Bool
  pub debug_text_enabled : Bool
  pub directions : List DirectionState
  pub audio_mix : AudioMixState
  pub provider_id : ProviderId
  pub audio_leaves_machine : Bool
  pub self_test_text : Option T
  pub debug_text : DebugTextBuffer

abbrev pub same_direction : AudioDirection → AudioDirection → Bool
same_direction microphone microphone = true
same_direction speaker speaker = true
same_direction _ _ = false

abbrev pub same_language : Language → Language → Bool
same_language ru ru = true
same_language en en = true
same_language _ _ = false

abbrev pub is_opted_in : Option Bool → Bool
is_opted_in (some true) = true
is_opted_in _ = false

abbrev pub is_openai : ProviderId → Bool
is_openai ProviderId.openai = true
is_openai ProviderId.local = false

-- `direction_mut` with a write through it; `expect` on a missing direction is a panic.
unfoldable pub change_direction :
    AudioDirection
    → (DirectionState → DirectionState)
    → List DirectionState
    → Option (List DirectionState)
change_direction id f [] = none
change_direction id f (d ∷ ds) =
    let rest = change_direction id f ds in
    if same_direction d.direction_id id
    then some (f d ∷ ds)
    else elim rest [ none ↦ none | some es ↦ some (d ∷ es) ]

unfoldable pub find_direction : AudioDirection → List DirectionState → Option DirectionState
find_direction id [] = none
find_direction id (d ∷ ds) =
    let rest = find_direction id ds in if same_direction d.direction_id id then some d else rest

-- The `match` on the two languages of the patch.
unfoldable pub language_pair :
    Option Language → Option Language → Result (Option (Language × Language)) RuntimeMutationError
language_pair none none = ok none
language_pair (some source) (some target) =
    if same_language source target then err invalid_language_pair else ok (some (source, target))
language_pair _ _ = err invalid_language_pair

unfoldable pub set_languages : Option (Language × Language) → DirectionState → DirectionState
set_languages none d = d
set_languages (some (source, target)) d =
    let d' = record d { source_language = source; target_language = target } in
    if same_language d.voice_profile.language target then d' else record d' {
      voice_profile = record d.voice_profile {
        language = target;
        model_path = none;
        provider_voice_id = none;
      };
    }

abbrev pub set_or_keep : {A : Type 0} → Option A → A → A
set_or_keep none old = old
set_or_keep (some new) old = new

unfoldable pub patch_direction :
    Option (Language × Language) → Option Bool → DirectionState → DirectionState
unfolding set_languages
patch_direction pair enabled d =
    let d' = set_languages pair d in record d' { enabled = set_or_keep enabled d'.enabled }

abbrev pub is_too_loud : Option ℕ → Bool
is_too_loud none = false
is_too_loud (some v) = ltb 100 v

module _ {T : Type 0} where
  abbrev pub with_directions :
      RuntimeSnapshot T
      → Option (List DirectionState)
      → Option (RuntimeSnapshot T × Result (Unit {0}) RuntimeMutationError)
  with_directions s none = none
  with_directions s (some ds) = some (record s { directions = ds }, ok tt)

  unfoldable pub set_direction :
      DirectionPatch → Effect (RuntimeSnapshot T) RuntimeMutationError (Unit {0})
  unfolding language_pair change_direction patch_direction
  set_direction patch s = elim (language_pair patch.source_language patch.target_language) [
    | err e ↦ some (s, err e)
    | ok pair ↦
        with_directions s
          (change_direction patch.direction_id (patch_direction pair patch.enabled) s.directions)
  ]

  -- `set_provider` under the snapshot's lock.
  unfoldable pub choose_provider :
      ProviderId → Option Bool → Effect (RuntimeSnapshot T) RuntimeMutationError (Unit {0})
  choose_provider id opt_in s =
      if is_openai id && not (is_opted_in opt_in)
      then some (s, err cloud_provider_opt_in_required)
      else some (
        record s { provider_id = id; audio_leaves_machine = is_openai id; self_test_text = none },
        ok tt,
      )

  -- The rest of `set_provider`, under the buffer's lock.
  unfoldable pub clear_for_provider : RuntimeSnapshot T → RuntimeSnapshot T
  unfolding clear
  clear_for_provider s = record s { debug_text = clear s.debug_text }

  -- The profile has to speak the direction's target language.
  unfoldable pub set_voice_profile :
      AudioDirection → VoiceProfile → Effect (RuntimeSnapshot T) RuntimeMutationError (Unit {0})
  unfolding find_direction change_direction
  set_voice_profile id profile s = elim (find_direction id s.directions) [
    | none ↦ none
    | some d ↦
        if not (same_language profile.language d.target_language)
        then some (s, err voice_language_mismatch)
        else with_directions s
            (change_direction id (λ e. record e { voice_profile = profile }) s.directions)
  ]

  unfoldable pub set_translation_running : Bool → RuntimeSnapshot T → RuntimeSnapshot T
  unfolding clear
  set_translation_running running s =
      let s' = record s { translation_running = running } in
      if running then s' else record s' { self_test_text = none; debug_text = clear s.debug_text }

  -- `set_debug_text_enabled` under the buffer's lock.
  unfoldable pub switch_debug_text : Bool → RuntimeSnapshot T → RuntimeSnapshot T
  unfolding set_enabled
  switch_debug_text enabled s = record s { debug_text = set_enabled s.debug_text enabled }

  -- The rest of `set_debug_text_enabled`, under the snapshot's lock.
  unfoldable pub show_debug_text : Bool → RuntimeSnapshot T → RuntimeSnapshot T
  show_debug_text enabled s =
      let s' = record s { debug_text_enabled = enabled } in
      if enabled then s' else record s' { self_test_text = none }

  unfoldable pub record_debug_text : DebugTextEvent → RuntimeSnapshot T → RuntimeSnapshot T × Bool
  unfolding push
  record_debug_text event s =
      let (b, taken) = push s.debug_text event in (record s { debug_text = b }, taken)

  -- The text of the new state of the self test.
  unfoldable pub set_self_test : Option T → RuntimeSnapshot T → RuntimeSnapshot T
  set_self_test text s = record s { self_test_text = if s.debug_text_enabled then text else none }

  unfoldable pub set_audio_mix :
      AudioMixPatch → Effect (RuntimeSnapshot T) RuntimeMutationError AudioMixState
  set_audio_mix p s =
      if is_too_loud p.microphone_original_percent
        || is_too_loud p.microphone_translation_percent
        || is_too_loud p.speaker_original_percent
        || is_too_loud p.speaker_translation_percent
      then some (s, err invalid_audio_mix_volume)
      else (let mix : AudioMixState = record {
        microphone_original_percent =
            set_or_keep p.microphone_original_percent s.audio_mix.microphone_original_percent;
        microphone_translation_percent =
            set_or_keep p.microphone_translation_percent s.audio_mix.microphone_translation_percent;
        speaker_original_percent =
            set_or_keep p.speaker_original_percent s.audio_mix.speaker_original_percent;
        speaker_translation_percent =
            set_or_keep p.speaker_translation_percent s.audio_mix.speaker_translation_percent;
      } in
          some (record s { audio_mix = mix }, ok mix))

unfoldable pub new_direction : AudioDirection → Language → Language → DirectionState
new_direction id source target = record {
  direction_id = id;
  source_language = source;
  target_language = target;
  enabled = true;
  voice_profile = record {
    language = target;
    gender = VoiceGender.male;
    engine = VoiceEngine.piper;
    model_path = none;
    provider_voice_id = none;
  };
}

unfoldable pub default_snapshot : (T : Type 0) → RuntimeSnapshot T
unfolding new_direction empty_buffer
default_snapshot T = record {
  translation_running = false;
  debug_text_enabled = false;
  directions = new_direction microphone ru en ∷ new_direction speaker en ru ∷ [];
  audio_mix = record {
    microphone_original_percent = 0;
    microphone_translation_percent = 100;
    speaker_original_percent = 0;
    speaker_translation_percent = 100;
  };
  provider_id = ProviderId.local;
  audio_leaves_machine = false;
  self_test_text = none;
  debug_text = empty_buffer;
}
