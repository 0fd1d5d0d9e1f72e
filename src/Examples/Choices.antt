-- ===== src/Examples/Choices.antt =====
-- The settings of the daemon at concrete inputs.
use translator.Prelude.{ℕ, ◌≡◌, refl, true, false, List, [], ◌∷◌, none, some}
use translator.Contracts.{microphone, Language, ProviderId}
use translator.DebugText.{DebugTextEvent, push}
use translator.Settings.{
  default_snapshot, choose_provider, switch_debug_text, show_debug_text, record_debug_text,
}
use translator.Settings.Steps.{
  System, new_system, Call, directs, provides, clears, switches, shows, records, tests, take_nth,
  after, consents,
}
use translator.Settings.Consistent.{IsConsistent}
use translator.Settings.Laws.{after-IsConsistent, after-consents}

-- The languages are swapped, a choice without consent is refused, and one with consent is not.
abbrev choices : List (Call ℕ)
choices =
    directs (record {
      direction_id = microphone;
      source_language = some Language.en;
      target_language = some Language.ru;
      enabled = some false;
    })
    ∷ provides ProviderId.openai none
    ∷ switches true
    ∷ shows 0
    ∷ tests (some 7)
    ∷ provides ProviderId.openai (some true)
    ∷ clears
    ∷ []

after-IsConsistent_example :
    (s : System ℕ) × (after (new_system ℕ) choices ≡ some s) × IsConsistent s
after-IsConsistent_example = after-IsConsistent choices

abbrev consented : List (Call ℕ)
consented = provides ProviderId.openai (some true) ∷ []

after-consents_example : consents consented ≡ true
unfolding after default_snapshot choose_provider
after-consents_example =
    after-consents
      (record (new_system ℕ) {
        settings = record (default_snapshot ℕ) {
          provider_id = ProviderId.openai;
          audio_leaves_machine = true;
        };
        clearing = 1;
      })
      consented refl refl

abbrev spoken : DebugTextEvent
spoken = record { transcript = 97 ∷ []; translation = [] }

-- A call that turns debug texts off is overtaken between its two steps by one that turns them on.
abbrev overtaken : List (Call ℕ)
overtaken = switches false ∷ switches true ∷ shows 0 ∷ shows 0 ∷ records spoken ∷ []

-- The snapshot says off, and the buffer keeps a text.
overtaken_run :
    (s : System ℕ) × (after (new_system ℕ) overtaken ≡ some s)
    × (s.switching ≡ [])
    × (s.settings.debug_text_enabled ≡ false)
    × (s.settings.debug_text.enabled ≡ true)
    × (s.settings.debug_text.events ≡ spoken ∷ [])
unfolding after take_nth default_snapshot switch_debug_text show_debug_text record_debug_text push
overtaken_run = (_, refl, refl, refl, refl, refl)
