-- ===== src/Settings/Steps.antt =====
-- crates/translator-daemon/src/runtime_state.rs: calls of the settings from several threads, as the steps
-- that the locks make of them, in any order.
use translator.Prelude.{
  ℕ, zero, suc, Bool, true, false, List, [], ◌∷◌, Option, none, some, Result, ok, err,
}
use translator.Contracts.{AudioDirection, VoiceProfile, ProviderId}
use translator.DebugText.{DebugTextEvent}
use translator.Settings.{
  RuntimeSnapshot, DirectionPatch, AudioMixPatch, RuntimeMutationError, set_direction,
  choose_provider, clear_for_provider, set_voice_profile, set_audio_mix, set_translation_running,
  switch_debug_text, show_debug_text, record_debug_text, set_self_test, default_snapshot,
}

-- `provides` and `clears` are the two steps of `set_provider`, `switches` and `shows` those of
-- `set_debug_text_enabled`. `shows n` is the `n`-th of the calls that have made only the first
-- step, counted from the latest.
pub data Call (T : Type 0) : Type 0 where
  directs : DirectionPatch → Call T
  provides : ProviderId → Option Bool → Call T
  clears : Call T
  voices : AudioDirection → VoiceProfile → Call T
  mixes : AudioMixPatch → Call T
  runs : Bool → Call T
  switches : Bool → Call T
  shows : ℕ → Call T
  records : DebugTextEvent → Call T
  tests : Option T → Call T

-- The settings, the calls of `set_debug_text_enabled` and the number of those of `set_provider` that have
-- made only their first step, and whether two of the former overlapped since one last began alone.
pub record System (T : Type 0) : Type 0 where
  pub settings : RuntimeSnapshot T
  pub switching : List Bool
  pub clearing : ℕ
  pub overlapped : Bool

abbrev pub new_system : (T : Type 0) → System T
new_system T = record {
  settings = default_snapshot T;
  switching = [];
  clearing = 0;
  overlapped = false;
}

-- The `n`-th of the unfinished calls, and the others.
unfoldable pub take_nth : ℕ → List Bool → Option (Bool × List Bool)
take_nth n [] = none
take_nth zero (b ∷ bs) = some (b, bs)
take_nth (suc n) (b ∷ bs) = elim (take_nth n bs) [ none ↦ none | some (c, cs) ↦ some (c, b ∷ cs) ]

abbrev pub is_busy : List Bool → Bool
is_busy [] = false
is_busy (b ∷ bs) = true

module _ {T : Type 0} where
  abbrev pub keep :
      {A E : Type 0} → System T → Option (RuntimeSnapshot T × Result A E) → Option (System T)
  keep s none = none
  keep s (some (x, r)) = some (record s { settings = x })

  -- A choice that is refused returns at once, and one that is made has the buffer to clear.
  abbrev pub await_clear :
      System T
      → Option (RuntimeSnapshot T × Result (Unit {0}) RuntimeMutationError)
      → Option (System T)
  await_clear s none = none
  await_clear s (some (x, ok _)) = some (record s { settings = x; clearing = suc s.clearing })
  await_clear s (some (x, err e)) = some (record s { settings = x })

  abbrev pub clear_next : System T → ℕ → System T
  clear_next s zero = s
  clear_next s (suc n) = record s { settings = clear_for_provider s.settings; clearing = n }

  abbrev pub show_next : System T → Option (Bool × List Bool) → System T
  show_next s none = s
  show_next s (some (b, bs)) = record s { settings = show_debug_text b s.settings; switching = bs }

  -- A second step that no call has left to make changes nothing.
  unfoldable pub step : System T → Call T → Option (System T)
  unfolding take_nth
  step s (directs p) = keep s (set_direction p s.settings)
  step s (provides id o) = await_clear s (choose_provider id o s.settings)
  step s clears = some (clear_next s s.clearing)
  step s (voices id v) = keep s (set_voice_profile id v s.settings)
  step s (mixes p) = keep s (set_audio_mix p s.settings)
  step s (runs b) = some (record s { settings = set_translation_running b s.settings })
  step s (switches b) = some (record s {
    settings = switch_debug_text b s.settings;
    switching = b ∷ s.switching;
    overlapped = is_busy s.switching;
  })
  step s (shows n) = some (show_next s (take_nth n s.switching))
  step s (records e) = some (record s { settings = (record_debug_text e s.settings).0 })
  step s (tests t) = some (record s { settings = set_self_test t s.settings })

  unfoldable pub after : System T → List (Call T) → Option (System T)
  unfolding step
  after s [] = some s
  after s (c ∷ cs) = elim (step s c) [ none ↦ none | some t ↦ after t cs ]

-- Some call chooses the cloud provider with consent.
unfoldable pub consents : {T : Type 0} → List (Call T) → Bool
consents [] = false
consents (provides ProviderId.openai (some true) ∷ cs) = true
consents (_ ∷ cs) = consents cs
