-- ===== src/Settings/Laws.antt =====
-- crates/translator-daemon/src/runtime_state.rs: what holds of the settings after any steps of calls from
-- several threads.
use translator.Prelude.{
  ◌≡◌, refl, arith, true, false, List, [], ◌∷◌, none, some, Option-cases, inl, inr, ◌⊎◌, subst,
}
use translator.Contracts.{ProviderId}
use translator.DebugText.{empty_buffer}
use translator.Settings.{
  is_openai, set_direction, choose_provider, clear_for_provider, set_voice_profile, set_audio_mix,
  set_translation_running, switch_debug_text, show_debug_text, record_debug_text, set_self_test,
  default_snapshot,
}
use translator.Settings.Steps.{
  Call, directs, provides, clears, voices, mixes, runs, switches, shows, records, tests, System,
  new_system, step, after, consents,
}
use translator.Settings.Consistent.{IsConsistent, ConsistentAfter, step-IsConsistent}

module _ {T : Type 0} where
  after-IsConsistent_from :
      (s : System T) (cs : List (Call T))
      → IsConsistent s
      → (t : System T) × (after s cs ≡ some t) × IsConsistent t
  unfolding after
  after-IsConsistent_from s [] h = (s, refl, h)
  after-IsConsistent_from s (c ∷ cs) h = elim (Option-cases (step s c)) [
    | inl e ↦ absurd (subst ConsistentAfter e (step-IsConsistent s c h))
    | inr (t, e) ↦
        let (z, f, g) =
          after-IsConsistent_from t cs (subst ConsistentAfter e (step-IsConsistent s c h)) in
        (z, rw (e, after) f, g)
  ]

  step-local :
      (s t : System T) (c : Call T)
      → step s c ≡ some t
      → (is_openai t.settings.provider_id ≡ is_openai s.settings.provider_id)
        ⊎ (is_openai t.settings.provider_id ≡ false)
        ⊎ (c ≡ provides ProviderId.openai (some true))
  unfolding step set_direction choose_provider clear_for_provider set_voice_profile set_audio_mix
      set_translation_running switch_debug_text show_debug_text record_debug_text set_self_test
  step-local s t (directs p) e = ground arith
  step-local s t (provides id o) e = ground arith
  step-local s t (voices id v) e = ground arith
  step-local s t (mixes p) e = ground arith
  step-local s t (runs b) e = ground arith
  step-local s t clears e = ground arith
  step-local s t (switches b) e = ground arith
  step-local s t (shows n) e = ground arith
  step-local s t (records x) e = ground arith
  step-local s t (tests x) e = ground arith

  consents-later : (c : Call T) (cs : List (Call T)) → consents cs ≡ true → consents (c ∷ cs) ≡ true
  unfolding consents
  consents-later (provides ProviderId.openai (some true)) cs h = refl
  consents-later (provides ProviderId.openai (some false)) cs h = h
  consents-later (provides ProviderId.openai none) cs h = h
  consents-later (provides ProviderId.local o) cs h = h
  consents-later (directs p) cs h = h
  consents-later (voices id v) cs h = h
  consents-later (mixes p) cs h = h
  consents-later (runs b) cs h = h
  consents-later clears cs h = h
  consents-later (switches b) cs h = h
  consents-later (shows n) cs h = h
  consents-later (records e) cs h = h
  consents-later (tests t) cs h = h

  after-consents_from :
      (s t : System T) (cs : List (Call T))
      → after s cs ≡ some t
      → is_openai s.settings.provider_id ≡ false
      → is_openai t.settings.provider_id ≡ true
      → consents cs ≡ true
  unfolding after consents
  after-consents_from s t [] e l o = ground (arith, e, l, o)
  after-consents_from s t (c ∷ cs) e l o = elim (Option-cases (step s c)) [
    | inl p ↦ ground (arith, p, e)
    | inr (s', p) ↦
        let rest : after s' cs ≡ some t = ground (arith, p, e) in
        elim (step-local s s' c p) [
          | inl q ↦ consents-later c cs (after-consents_from s' t cs rest (ground (arith, q, l)) o)
          | inr (inl q) ↦ consents-later c cs (after-consents_from s' t cs rest q o)
          | inr (inr q) ↦ rw q refl
        ]
  ]

-- From the settings of a new daemon, whatever steps of calls follow in whatever order, no call panics,
-- and afterwards: both directions are there, each between two different languages, with a voice for
-- its target language; all volumes are at most 100 %; audio is said to leave the machine exactly if
-- the provider is the cloud; the self test shows no text while the snapshot says that debug text is
-- off, and the buffer keeps none while it is off itself. If the last call that switches debug texts
-- began with no other under way, then snapshot and buffer agree whether debug text is on as soon as no
-- such call is under way, and with one under way the buffer is as that one asks.
pub after-IsConsistent :
    {T : Type 0} (cs : List (Call T))
    → (s : System T) × (after (new_system T) cs ≡ some s) × IsConsistent s
after-IsConsistent {T = T} cs =
    after-IsConsistent_from (new_system T) cs (unfold default_snapshot empty_buffer in ground arith)

-- Whatever steps of calls change the settings of a new daemon, the cloud provider is chosen afterwards only
-- if one of the calls chose it with consent.
pub after-consents :
    {T : Type 0} (s : System T) (cs : List (Call T))
    → after (new_system T) cs ≡ some s
    → is_openai s.settings.provider_id ≡ true
    → consents cs ≡ true
unfolding default_snapshot
after-consents {T = T} s cs e o = after-consents_from (new_system T) s cs e refl o
