-- ===== src/Supervisor.antt =====
-- crates/translator-daemon/src/sidecar_supervisor.rs: the start, the sessions and the end of the model
-- sidecar. The methods of `SidecarRuntime`, the random bytes and the fresh uuid are calls of the
-- runtime, whose state they change; a call that runs into its timeout answers none.
pub mod Starting
pub mod Laws
pub mod History
pub mod Attempts
use translator.Prelude.{
  ℕ, zero, suc, ◌+◌, ◌*◌, ◌/◌, ◌%◌, Bool, true, false, not, ◌==◌, ltb, if◌then◌else◌, List, [], ◌∷◌,
  ◌++◌, length, Option, none, some, Result, ok, err, ensure,
}
use translator.Prelude.Effects.{Effect, ◌>>=◌, ◌>>◌, pure, fails, lift}

abbrev pub max_start_attempts : ℕ
max_start_attempts = 3

pub data ChildState : Type 0 where
  running reaped : ChildState

pub record SidecarLaunch : Type 0 where
  pub generation_id : ℕ
  pub token : List ℕ  -- ASCII

pub data CloseOutcome : Type 0 where
  acknowledged generation_restarted : CloseOutcome

pub data SupervisorError : Type 0 where
  not_ready unknown_session start_failed readiness_timeout readiness_failed : SupervisorError
  generation_mismatch kill_and_reap_failed cleanup_failed randomness_unavailable : SupervisorError

abbrev pub Supervised : Type 0 → Type 0
Supervised A = Result A SupervisorError

pub record SidecarRuntime (R : Type 0) : Type 0 where
  pub start : SidecarLaunch → R → R × Supervised (Unit {0})
  pub probe : SidecarLaunch → R → R × Option (Supervised ℕ)
  pub kill_and_reap : R → R × Supervised ChildState
  pub shutdown_and_reap : R → R × Supervised ChildState
  pub remove_stale_socket : ChildState → R → R × Supervised (Unit {0})
  pub wait_before_retry : ℕ → R → R × Supervised (Unit {0})
  pub poll_child_state : R → R × Supervised ChildState
  -- `getrandom::fill` of 32 bytes, and `Uuid::new_v4`
  pub fill : R → R × Option (List ℕ)
  pub new_v4 : R → R × ℕ

-- `SidecarStatus` is shared by reference; only the supervisor writes it.
pub record SidecarStatus : Type 0 where
  pub ready : Bool
  pub session_count : ℕ
  pub close_wait_armed : Bool

pub record SidecarSupervisor (R : Type 0) : Type 0 where
  pub runtime : R
  pub launch : Option SidecarLaunch
  pub active_sessions : List ℕ
  pub status : SidecarStatus

abbrev pub Supervising : Type 0 → Type 0 → Type 0
Supervising R A = Effect (SidecarSupervisor R) SupervisorError A

unfoldable pub hex_digit : ℕ → ℕ
hex_digit n = if ltb n 10 then 48 + n else 87 + n

unfoldable pub hex_token : List ℕ → List ℕ
unfolding hex_digit
hex_token [] = []
hex_token (byte ∷ bytes) = hex_digit (byte / 16) ∷ hex_digit (byte % 16) ∷ hex_token bytes

abbrev pub contains : ℕ → List ℕ → Bool
contains x [] = false
contains x (y ∷ ys) = if y == x then true else contains x ys

-- `retain(|candidate| *candidate != session_id)`
unfoldable pub retain_other : ℕ → List ℕ → List ℕ
retain_other x [] = []
retain_other x (y ∷ ys) = let rest = retain_other x ys in if y == x then rest else y ∷ rest

module _ {R : Type 0} where
  unfoldable pub new_supervisor : R → SidecarSupervisor R
  new_supervisor runtime = record {
    runtime = runtime;
    launch = none;
    active_sessions = [];
    status = record { ready = false; session_count = 0; close_wait_armed = false };
  }

  abbrev pub sync_active_count : SidecarSupervisor R → SidecarSupervisor R
  sync_active_count s = record s {
    status = record s.status { session_count = length s.active_sessions };
  }

  abbrev pub with_ready : Bool → SidecarSupervisor R → SidecarSupervisor R
  with_ready b s = record s { status = record s.status { ready = b } }

  abbrev pub with_close_wait : Bool → SidecarSupervisor R → SidecarSupervisor R
  with_close_wait b s = record s { status = record s.status { close_wait_armed = b } }

  unfoldable pub set_unready : SidecarSupervisor R → SidecarSupervisor R
  set_unready s = sync_active_count (record (with_ready false s) { active_sessions = [] })

  -- A call of the runtime, and its answer.
  abbrev pub calls : {A : Type 0} → (R → R × A) → Supervising R A
  calls f s = let (r, a) = f s.runtime in some (record s { runtime = r }, ok a)

  -- `map_err(|_| ..)`, and the `?` that keeps the runtime's error.
  abbrev pub or_error : {A : Type 0} → SupervisorError → Supervised A → Supervising R A
  or_error e (ok a) = pure a
  or_error e (err x) = fails e

  abbrev pub changes : (SidecarSupervisor R → SidecarSupervisor R) → Supervising R (Unit {0})
  changes f s = some (f s, ok tt)

module _ {R : Type 0} (runtime : SidecarRuntime R) where
  unfoldable pub new_launch : Supervising R SidecarLaunch
  unfolding hex_token
  new_launch = do
    random ← calls runtime.fill
    bytes ← elim random [ none ↦ fails randomness_unavailable | some bytes ↦ pure bytes ]
    generation ← calls runtime.new_v4
    pure (record { generation_id = generation; token = hex_token bytes })

  -- `self.launch = Some(new_launch()?)`
  unfoldable pub renew_launch : Supervising R (Unit {0})
  unfolding new_launch
  renew_launch = do launch ← new_launch; changes (λ s. record s { launch = some launch })

  unfoldable pub cleanup_reaped : ChildState → Supervising R (Unit {0})
  cleanup_reaped running = fails kill_and_reap_failed
  cleanup_reaped reaped = do
    removed ← calls (runtime.remove_stale_socket reaped)
    or_error cleanup_failed removed

  unfoldable pub reap_and_cleanup : Supervising R (Unit {0})
  unfolding cleanup_reaped
  reap_and_cleanup = do
    result ← calls runtime.kill_and_reap
    child ← or_error kill_and_reap_failed result
    cleanup_reaped child

  unfoldable pub shutdown : Supervising R (Unit {0})
  unfolding cleanup_reaped set_unready
  shutdown = do
    changes set_unready
    changes (with_close_wait false)
    result ← calls runtime.shutdown_and_reap
    child ← or_error kill_and_reap_failed result
    cleanup_reaped child
