-- ===== src/State.antt =====
-- internal/state: the store of skipped keys, the receiver chains and the snapshot for rollback.
pub mod Skipped
pub mod ReceiverChains
pub mod Invariants
pub mod Epoch
