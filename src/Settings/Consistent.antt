-- ===== src/Settings/Consistent.antt =====
-- crates/translator-daemon/src/runtime_state.rs: the consistency of the settings, over each step of a call.
use translator.Prelude.{
  ℕ, zero, suc, ◌≡◌, ◌≤◌, refl, arith, Bool, true, false, List, [], ◌∷◌, Option, none, some, Result,
  ok, err, Option-cases, inl, inr, subst,
}
use translator.Contracts.{AudioDirection, microphone, speaker, VoiceProfile, ProviderId}
use translator.DebugText.{DebugTextEvent, set_enabled, clear, push}
use translator.Settings.{
  RuntimeSnapshot, DirectionState, DirectionPatch, AudioMixPatch, AudioMixState, is_openai,
  same_language, RuntimeMutationError, set_direction, choose_provider, clear_for_provider,
  set_voice_profile, set_audio_mix, set_translation_running, switch_debug_text, show_debug_text,
  record_debug_text, set_self_test,
}
use translator.Settings.Steps.{
  Call, directs, provides, clears, voices, mixes, runs, switches, shows, records, tests, System,
  take_nth, keep, await_clear, clear_next, show_next, is_busy, step,
}

-- A direction translates between two languages, and its voice speaks the target language.
abbrev pub IsPair : DirectionState → Type 0
IsPair d =
    (same_language d.source_language d.target_language ≡ false)
    × (same_language d.voice_profile.language d.target_language ≡ true)

abbrev pub HasBoth : List DirectionState → Type 0
HasBoth (m ∷ s ∷ []) =
    (m.direction_id ≡ microphone) × (s.direction_id ≡ speaker) × IsPair m × IsPair s
HasBoth _ = ⊥

abbrev pub IsMix : AudioMixState → Type 0
IsMix x =
    (x.microphone_original_percent ≤ 100)
    × (x.microphone_translation_percent ≤ 100)
    × (x.speaker_original_percent ≤ 100)
    × (x.speaker_translation_percent ≤ 100)

abbrev pub Holds : {T : Type 0} → RuntimeSnapshot T → Type 0
Holds s =
    HasBoth s.directions
    × IsMix s.audio_mix
    × (s.audio_leaves_machine ≡ is_openai s.provider_id)
    × (s.debug_text_enabled ≡ false → s.self_test_text ≡ none)
    × (s.debug_text.enabled ≡ false → s.debug_text.events ≡ [])

-- With no call that switches debug texts under way, the buffer keeps them exactly if the snapshot says so;
-- with one, the buffer is as that call asks.
abbrev pub Agrees : {T : Type 0} → RuntimeSnapshot T → List Bool → Type 0
Agrees s [] = s.debug_text.enabled ≡ s.debug_text_enabled
Agrees s (b ∷ []) = s.debug_text.enabled ≡ b
Agrees s _ = ⊥

abbrev pub IsConsistent : {T : Type 0} → System T → Type 0
IsConsistent s = Holds s.settings × (s.overlapped ≡ false → Agrees s.settings s.switching)

-- The two switches of debug text are as before.
abbrev SameSwitches : {T : Type 0} → RuntimeSnapshot T → RuntimeSnapshot T → Type 0
SameSwitches s t =
    (t.debug_text.enabled ≡ s.debug_text.enabled) × (t.debug_text_enabled ≡ s.debug_text_enabled)

abbrev Steady : {T : Type 0} → RuntimeSnapshot T → RuntimeSnapshot T → Type 0
Steady s t = Holds t × SameSwitches s t

abbrev HoldsAfter :
    {T A E : Type 0} → RuntimeSnapshot T → Option (RuntimeSnapshot T × Result A E) → Type 0
HoldsAfter s none = ⊥
HoldsAfter s (some (t, r)) = Steady s t

abbrev no_event : DebugTextEvent
no_event = record { transcript = []; translation = [] }

module _ {T : Type 0} where
  abbrev pub ConsistentAfter : Option (System T) → Type 0
  ConsistentAfter none = ⊥
  ConsistentAfter (some s) = IsConsistent s

  direct-Holds :
      (s : RuntimeSnapshot T) (p : DirectionPatch) → Holds s → HoldsAfter s (set_direction p s)
  unfolding set_direction
  direct-Holds s p h = ground (arith, h)

  voice-Holds :
      (s : RuntimeSnapshot T) (id : AudioDirection) (v : VoiceProfile)
      → Holds s
      → HoldsAfter s (set_voice_profile id v s)
  unfolding set_voice_profile
  voice-Holds s id v h = ground (arith, h)

  provider-Holds :
      (s : RuntimeSnapshot T) (id : ProviderId) (o : Option Bool)
      → Holds s
      → HoldsAfter s (choose_provider id o s)
  unfolding choose_provider
  provider-Holds s id o h = ground (arith, h)

  mix-Holds :
      (s : RuntimeSnapshot T) (p : AudioMixPatch) → Holds s → HoldsAfter s (set_audio_mix p s)
  unfolding set_audio_mix
  mix-Holds s p h = ground (arith, h)

  text-Holds :
      (s : RuntimeSnapshot T) (b : Bool) (e : DebugTextEvent) (t : Option T)
      → Holds s
      → Steady s (set_translation_running b s)
        × Steady s (clear_for_provider s)
        × Steady s (record_debug_text e s).0
        × Steady s (set_self_test t s)
  unfolding set_translation_running clear_for_provider record_debug_text set_self_test push clear
  text-Holds s b e t h =
      (ground (arith, h), ground (arith, h), ground (arith, h), ground (arith, h))

  switch-Holds :
      (s : RuntimeSnapshot T) (b : Bool)
      → Holds s
      → Holds (switch_debug_text b s)
        × ((switch_debug_text b s).debug_text.enabled ≡ b)
        × Holds (show_debug_text b s)
        × ((show_debug_text b s).debug_text_enabled ≡ b)
        × ((show_debug_text b s).debug_text ≡ s.debug_text)
  unfolding switch_debug_text show_debug_text set_enabled
  switch-Holds s b h = ground (arith, h)

  SameSwitches-Agrees :
      (s t : RuntimeSnapshot T) (bs : List Bool) → SameSwitches s t → Agrees s bs → Agrees t bs
  SameSwitches-Agrees s t [] e a = ground (arith, e, a)
  SameSwitches-Agrees s t (b ∷ []) e a = ground (arith, e, a)
  SameSwitches-Agrees s t (b ∷ c ∷ bs) e a = a

  settled :
      (s : System T) (t : RuntimeSnapshot T) (n : ℕ)
      → IsConsistent s
      → Steady s.settings t
      → IsConsistent (record s { settings = t; clearing = n })
  settled s t n (h, a) (k, e) = (k, λ o. SameSwitches-Agrees s.settings t s.switching e (a o))

  keep-IsConsistent :
      {A E : Type 0} (s : System T) (r : Option (RuntimeSnapshot T × Result A E))
      → IsConsistent s
      → HoldsAfter s.settings r
      → ConsistentAfter (keep s r)
  keep-IsConsistent s none c h = h
  keep-IsConsistent s (some (t, r)) c h = settled s t s.clearing c h

  await_clear-IsConsistent :
      (s : System T) (r : Option (RuntimeSnapshot T × Result (Unit {0}) RuntimeMutationError))
      → IsConsistent s
      → HoldsAfter s.settings r
      → ConsistentAfter (await_clear s r)
  await_clear-IsConsistent s none c h = h
  await_clear-IsConsistent s (some (t, ok _)) c h = settled s t (suc s.clearing) c h
  await_clear-IsConsistent s (some (t, err e)) c h = settled s t s.clearing c h

  clear_next-IsConsistent : (s : System T) (n : ℕ) → IsConsistent s → IsConsistent (clear_next s n)
  clear_next-IsConsistent s zero c = c
  clear_next-IsConsistent s (suc n) c =
      settled s (clear_for_provider s.settings) n c (text-Holds s.settings true no_event none c.0).1

  switch-IsConsistent :
      (s : System T) (b : Bool) → IsConsistent s → ConsistentAfter (step s (switches b))
  unfolding step
  switch-IsConsistent s b c =
      let k = switch-Holds s.settings b c.0 in
      (k.0, λ o. alone (switch_debug_text b s.settings) s.switching o k.1)
    where
      alone :
          (t : RuntimeSnapshot T) (bs : List Bool)
          → is_busy bs ≡ false
          → t.debug_text.enabled ≡ b
          → Agrees t (b ∷ bs)
      alone t [] o e = e
      alone t (x ∷ bs) o e = cc

  -- The second step of one of the calls under way.
  show_from :
      (s : System T) (bs : List Bool) (n : ℕ)
      → IsConsistent s
      → s.switching ≡ bs
      → IsConsistent (show_next s (take_nth n bs))
  unfolding take_nth
  show_from s [] n c e = c
  show_from s (b ∷ []) zero c e =
      let (_, _, k, shown, kept) = switch-Holds s.settings b c.0 in
      (k, λ o. ground (arith, subst (Agrees s.settings) e (c.1 o), shown, kept))
  show_from s (b ∷ []) (suc n) c e = c
  show_from s (b ∷ x ∷ bs) n c e =
      let never : s.overlapped ≡ false → ⊥ = λ o. subst (Agrees s.settings) e (c.1 o) in
      elim (Option-cases (take_nth n (b ∷ x ∷ bs))) [
        | inl p ↦ rw p c
        | inr ((y, ys), p) ↦ rw p ((switch-Holds s.settings y c.0).2, λ o. absurd (never o))
      ]

  pub step-IsConsistent : (s : System T) (c : Call T) → IsConsistent s → ConsistentAfter (step s c)
  unfolding step
  step-IsConsistent s (directs p) h =
      keep-IsConsistent s (set_direction p s.settings) h (direct-Holds s.settings p h.0)
  step-IsConsistent s (provides id o) h =
      await_clear-IsConsistent s (choose_provider id o s.settings) h
        (provider-Holds s.settings id o h.0)
  step-IsConsistent s clears h = clear_next-IsConsistent s s.clearing h
  step-IsConsistent s (voices id v) h =
      keep-IsConsistent s (set_voice_profile id v s.settings) h (voice-Holds s.settings id v h.0)
  step-IsConsistent s (mixes p) h =
      keep-IsConsistent s (set_audio_mix p s.settings) h (mix-Holds s.settings p h.0)
  step-IsConsistent s (runs b) h =
      settled s (set_translation_running b s.settings) s.clearing h
        (text-Holds s.settings b no_event none h.0).0
  step-IsConsistent s (switches b) h = switch-IsConsistent s b h
  step-IsConsistent s (shows n) h = show_from s s.switching n h refl
  step-IsConsistent s (records e) h =
      settled s (record_debug_text e s.settings).0 s.clearing h
        (text-Holds s.settings true e none h.0).2
  step-IsConsistent s (tests t) h =
      settled s (set_self_test t s.settings) s.clearing h
        (text-Holds s.settings true no_event t h.0).3
