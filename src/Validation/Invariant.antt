-- ===== src/Validation/Invariant.antt =====
-- crates/translator-ipc/src/validation.rs: the maps and the capacities of the validator between two
-- calls.
use translator.Prelude.{ℕ, ◌≤◌, ◌≡◌, true, is_some, Option, none, length, arith}
use translator.Prelude.Map.{get, get-insert, get-remove, length-insert_le, length-remove_le}
use translator.Validation.Messages.{ProviderAudioDelta}
use translator.Validation.State.{
  ProviderSessionContract, ProviderEventValidator, new_validator, record_input,
  record_end_of_utterance, record_cancel_requested, terminalize,
}
use translator.Validation.Audio.{validate_wire_audio}

-- The entries of one utterance in the six maps.
pub record KeyOk (capture complete wire playable : Option ℕ) (terminal cancel : Option (Unit {0}))
    : Type 0 where
  pub timed : is_some complete ≡ is_some capture
  pub ended : is_some terminal ≡ true → capture ≡ none
  pub wired : is_some wire ≡ true → is_some capture ≡ true
  pub played : is_some playable ≡ true → is_some wire ≡ true
  pub cancelling : is_some cancel ≡ true → is_some capture ≡ true

abbrev pub At : ProviderEventValidator → ℕ → Type 0
At v k =
    KeyOk (get k v.input_capture_ns) (get k v.input_complete_ns) (get k v.last_wire_audio_sequence)
      (get k v.last_playable_audio_sequence) (get k v.terminal_utterances) (get k v.cancel_pending)

pub record Inv (v : ProviderEventValidator) : Type 0 where
  pub keys : (k : ℕ) → At v k
  pub active : length v.input_capture_ns ≤ 64
  pub terminal : length v.terminal_utterances ≤ 4096

pub new_validator-Inv : (c : ProviderSessionContract) → Inv (new_validator c)
unfolding new_validator get
new_validator-Inv c = record {
  keys = λ k. ground arith;
  active = omega arith;
  terminal = omega arith;
}

pub record_input-Inv : (v : ProviderEventValidator) (u ns : ℕ) → Inv v → Inv (record_input v u ns).0
unfolding record_input
record_input-Inv v u ns i = record {
  keys = λ k. ground (
    arith,
    i.keys k,
    i.keys u,
    get-insert u k ns v.input_capture_ns,
    get-insert u k ns v.input_complete_ns,
  );
  active = ground (arith, length-insert_le u ns v.input_capture_ns);
  terminal = ground arith;
}

pub record_end-Inv :
    (v : ProviderEventValidator) (u ns : ℕ) → Inv v → Inv (record_end_of_utterance v u ns).0
unfolding record_end_of_utterance
record_end-Inv v u ns i = record {
  keys = λ k. ground (arith, i.keys k, i.keys u, get-insert u k ns v.input_complete_ns);
  active = ground arith;
  terminal = ground arith;
}

pub record_cancel-Inv :
    (v : ProviderEventValidator) (u : ℕ) → Inv v → Inv (record_cancel_requested v u).0
unfolding record_cancel_requested
record_cancel-Inv v u i = record {
  keys = λ k. ground (arith, i.keys k, i.keys u, get-insert u k tt v.cancel_pending);
  active = ground arith;
  terminal = ground arith;
}

pub terminalize-Inv : (v : ProviderEventValidator) (u : ℕ) → Inv v → Inv (terminalize v u).0
unfolding terminalize
terminalize-Inv v u i = record {
  keys = λ k. ground (
    arith,
    i.keys k,
    get-insert u k tt v.terminal_utterances,
    get-remove u k v.input_capture_ns,
    get-remove u k v.input_complete_ns,
    get-remove u k v.last_wire_audio_sequence,
    get-remove u k v.last_playable_audio_sequence,
    get-remove u k v.cancel_pending,
  );
  active = ground (arith, length-remove_le u v.input_capture_ns);
  terminal = ground (arith, length-insert_le u tt v.terminal_utterances);
}

-- Audio is put on record only for an utterance that is active.
pub validate_wire_audio-Inv :
    (v : ProviderEventValidator) (m : ProviderAudioDelta) (u : ℕ)
    → is_some (get u v.input_capture_ns) ≡ true
    → Inv v
    → Inv (validate_wire_audio v m u).0
unfolding validate_wire_audio
validate_wire_audio-Inv v m u a i = record {
  keys = λ k. ground (arith, i.keys k, get-insert u k m.sequence v.last_wire_audio_sequence);
  active = ground arith;
  terminal = ground arith;
}
