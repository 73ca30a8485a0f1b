-- ===== src/Tests.antt =====
-- Runs of the model on concrete inputs.
pub mod Toy
pub mod Parties
mod Wire
pub mod Handshakes
mod Headers
mod Storage
mod Sessions
mod Starts
mod Sending
pub mod PostQuantum
mod TripleRatchet
mod HeaderSessions
mod PqHandshakes
