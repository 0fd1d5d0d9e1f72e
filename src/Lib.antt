-- ===== src/Lib.antt =====
-- Verification of the translator: a desktop service that translates both directions of a call live.
--
-- The audio crate captures 20 ms PCM frames and cuts them into utterances; the daemon counts what is
-- buffered, lets one audio operation run at a time and adapts the mode of each direction to the
-- measured latency; a provider (a local sidecar, or a cloud service) sends events back over gRPC, and
-- the ipc crate checks every event before the daemon acts on it.
--
-- Contracts: crates/translator-core/src/contracts.rs. The vocabulary of the crates, `PcmFormat` and
-- `LatencyPolicyState` with their checks on deserialization.
-- Queues: crates/translator-daemon/src/queues.rs. `DaemonQueues`, `push` and `consume`.
-- Gate: crates/translator-daemon/src/audio_operation_gate.rs. `AudioOperationGate` and its leases;
-- Gate.Clients interleaves the calls of their holders.
-- Latency: crates/translator-daemon/src/latency.rs. Policy has `DirectionPolicy`, its modes,
-- `transition` and `force_mode`; Signals has `record_utterance` and `observe_queue_lag`; Epochs has
-- `evaluate_epoch`; Percentile has `nearest_rank_p95`; the file itself has `DuplexLatencyPolicy`.
-- Pcm: crates/translator-audio/src/pcm.rs. Frame has `StreamPcmFormat` and `PcmFrame`, Queue has
-- `BoundedPcmQueue`, Segmenter has `SpeechSegmenter`.
-- Validation: crates/translator-ipc/src/validation.rs. Messages has the events (from
-- proto/translator/provider/v1/provider.proto), State has `ProviderEventValidator` and what the
-- daemon tells it, Audio, Kinds, Terminals and Reports have the checks of each kind of event, and
-- Validate has `validate` and `validate_kind`.
-- Watchdog: crates/translator-daemon/src/provider_audio_watchdog.rs. The file itself, Finals and Polling
-- have `ProviderAudioWatchdog`; Coordinator has `ProviderStreamCoordinator`, which calls the watchdog and
-- the validator, and its Events have `validate_event` and `poll`; its History is a coordinator under any
-- calls and events.
-- Session: crates/translator-daemon/src/direction_session.rs. `DirectionSession` calls the coordinator;
-- Requests has the messages to the provider, Handlers has `handle_capture`, `handle_provider_event` and
-- `poll`.
-- Supervisor: crates/translator-daemon/src/sidecar_supervisor.rs. `SidecarSupervisor`; Starting has
-- `start` and the sessions. The runtime is a record of operations.
-- RoundTrip: crates/translator-daemon/src/round_trip.rs. The checkpoints and the session in the file
-- itself, the methods of `RoundTripSelfTest` in SelfTest, `ExactPcmEvidence` in Evidence.
-- DebugText: crates/translator-daemon/src/debug.rs. `DebugTextBuffer`.
-- Settings: crates/translator-daemon/src/runtime_state.rs. The settings in `RuntimeSnapshot`, and the calls
-- of `RuntimeStore` that change them; the text of the self test is of any type. Settings.Steps has the
-- steps that the locks make of the calls, from any number of threads in any order.
-- Privacy: crates/translator-core/src/privacy.rs. The fixed messages of provider errors, and the two
-- readers that let no other text pass.
-- Prelude: what these share; Examples: concrete inputs.
--
-- Conventions. A method with `&mut self` returns the new value beside its result, also where it fails.
-- A panic (an index out of bounds, `expect`, `unreachable!`) is `none`. Integers are natural numbers
-- with the width written out where the source can leave it: `u32`, `u64` and `u64_mod` wrap as a
-- release build does, `checked_` and `saturating_` follow the methods of that name, usize has 64 bits,
-- and subtraction stops at 0 as `saturating_sub` does. A uuid is a number; a fresh uuid is an argument.
-- `Uuid::parse_str`, `Uuid::to_string`, the voice detector, the SHA-256 hasher and the runtime of the
-- sidecar are parameters, about which nothing is assumed.
-- `sort_unstable` is insertion sort, and a HashMap is an association list; where a loop goes over one,
-- the order of the list stands for the order that the source leaves open. The only fuel is that of
-- `decimal`, which prints a number: the number and one, since each digit divides it by ten.
--
-- Not modelled: tasks, channels, timers, sockets, child processes and files, the WebRTC voice
-- detector, the settings from environment variables, the user interface and the Python sidecar; and of
-- the daemon's own logic the rest of the runtime state, the mixer, the echo canceller and the routing.
pub mod Prelude
pub mod Contracts
pub mod Queues
pub mod Gate
pub mod Latency
pub mod Pcm
pub mod Validation
pub mod Watchdog
pub mod Session
pub mod Supervisor
pub mod RoundTrip
pub mod DebugText
pub mod Settings
pub mod Privacy
pub mod Examples
