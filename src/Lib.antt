-- ===== src/Lib.antt =====
-- Verification of the Double Ratchet library: a session's symmetric and Diffie-Hellman ratchets, its
-- store of skipped keys, the variants with header encryption and with a post-quantum ratchet beside it,
-- and the two handshakes that start them.
--
-- The parts, and the files of the repository that they model:
-- - Base: helpers. Results are values, errors or no return at all; a method is a function from a state
--   to an outcome and the state it leaves, also when it fails. Words holds uint32 wrap-around and
--   encoding/binary, GoMap a Go map as an association list.
-- - Primitives: crypto/hmac, crypto/sha256, hkdf, curve25519 and crypto/aes stand outside the
--   repository. They are the fields of a record that every definition takes as a parameter, with
--   their documented behaviour as named hypotheses.
-- - Padding: internal/padding/padding.go. Suite: internal/suite/suite.go. Config: config.go.
--   Message: message.go and the header encodings of session.go, session_he.go, session_spqr.go and
--   session_tr.go. Kdf: internal/kdf. Crypto: internal/crypto/x25519.go and mem.go, and with
--   HeaderEncrypt header_encrypt.go.
-- - Scka: scka/scka.go, the interface of the post-quantum key agreement, as a record of operations on a
--   state of the provider's own. Its contract that Restore puts back what Snapshot took is a predicate.
-- - EcUtil: internal/ecutil/ecutil.go and xeddsa.go, over a record of the Edwards curve operations of
--   filippo.io/edwards25519. X3dh: x3dh/x3dh.go and keys.go. Pqxdh: pqxdh/pqxdh.go
--   and keys.go, with Kem for kem.go, over a record of the operations of crypto/mlkem; Agreement and
--   Kem.RoundTrip hold proofs.
-- - State: internal/state. Skipped is skipped.go, ReceiverChains is receiver_chains.go, Invariants is
--   invariants.go, Epoch is epoch.go.
-- - Session: session.go. Session holds the state and the constructors, Ratchet the ratchet steps
--   (performDHRatchetSend, performDHRatchetRecv, skipMessageKeys, deriveRecvMessageKey, rollback),
--   Methods the exported methods. The other children hold proofs: Frame what each step leaves alone,
--   Atomic the rollback, WellFormed and Sending the invariant, NextMessage and Numbers what a message
--   carries and leaves, Chain and Skipping the symmetric ratchet and the skipped keys, Deliver,
--   RoundTrip and Late what two sessions do with each other on a chain, Start and First how they begin, Replay what a second delivery does, Keys and KeyAgreement
--   the two methods that only derive keys, which the Triple Ratchet calls.
-- - SessionHe: session_he.go, over the state of Session with four header keys beside it. Ratchet and
--   Methods hold the operations; Frame, Atomic, WellFormed, Sending, Nonce, Deliver and RoundTrip hold
--   proofs.
-- - SessionSpqr: session_spqr.go. SessionSpqr holds the state, the constructors and the maps of epochs,
--   Methods the operations. Atomic is about the snapshot, Epochs about the epochs that are kept, Chains,
--   Adopt, KeyAgreement and RoundTrip about two sides in step, Start about two new sessions.
-- - SessionTr: session_tr.go, a session of Session and one of SessionSpqr. Atomic and RoundTrip hold
--   proofs.
-- - Tests: runs on concrete inputs, with weak functions in place of the primitives (Toy).
--
-- How the parts interact: a session calls the store and the buffer of receiving chains through their
-- operations, records a snapshot of itself in Invariants before it decrypts, and takes the snapshot
-- back on an error. A pointer into the buffer of receiving chains is an index. Random bytes are an
-- argument of the methods that draw them.
--
-- Fuel: the loop of deriveRecvMessageKey counts with a uint32 that can wrap, so it runs on fuel, one
-- round more than there are messages up to the wanted one, which is what it takes when the counter
-- does not wrap. A loop that has not ended then comes to the outcome `diverges`. The other loops run
-- over a list or a number.
--
-- The Triple Ratchet calls ratchetSendKey and ratchetReceiveKey of the one session and sendKey and receiveKey of the other on
-- their parts of its state, and takes both back on an error. The undoing itself is shared by the three
-- kinds of session (Base.Rollback). A pointer to the chains of an epoch is the epoch.
--
-- Go visits a map in no fixed order. Where that matters, in TryAllHeaderKeys, the order is an argument,
-- and a theorem that needs it assumes that each entry is visited and nothing else. Loops that treat all
-- entries alike run over the list of entries.
--
-- Not modelled: the mutex of the store, the zeroing of slices that are no longer reachable, the test
-- double of the provider (scka/testing), the text around wrapped errors, the panic on a nil SCKA header
-- that Decrypt of the post-quantum session is given (a header is always there), and the state in which a
-- constructor that fails leaves the provider.
pub mod Base
pub mod Primitives
pub mod Padding
pub mod Suite
pub mod Config
pub mod Message
pub mod Kdf
pub mod Crypto
pub mod EcUtil
pub mod X3dh
pub mod Pqxdh
pub mod State
pub mod Session
pub mod SessionHe
pub mod Scka
pub mod SessionSpqr
pub mod SessionTr
pub mod Tests
