-- ===== src/Validation.antt =====
-- crates/translator-ipc/src/validation.rs: the checks that every event of a speech provider passes
-- before the daemon acts on it, over the messages of proto/translator/provider/v1/provider.proto.
pub mod Messages
pub mod State
pub mod Audio
pub mod Kinds
pub mod Terminals
pub mod Reports
pub mod Validate
pub mod History
pub mod Invariant
pub mod Parts
pub mod Totality
pub mod Overflow
pub mod Owing
pub mod Accepted
pub mod Ended
pub mod Unended
pub mod Finals
