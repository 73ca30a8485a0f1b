-- ===== src/Session/Replay.antt =====
-- What happens when a message is delivered twice whose key is stored although its chain still stands
-- before it, as performDHRatchetRecv leaves the chain of the epoch that ends.
use go_doubleratchet.Base.{ℕ, ◌+◌, ◌≤◌, ◌<◌, ◌≡◌, ap, false, some, Bytes, ok}
use go_doubleratchet.Base.Words.{u32_mod}
use go_doubleratchet.Primitives.{Primitives}
use go_doubleratchet.Config.{effective_max_skip, effective_encrypt_info}
use go_doubleratchet.Message.{Message, encode_header}
use go_doubleratchet.State.Skipped.Access.{stored}
use go_doubleratchet.State.ReceiverChains.{find, chain_at}
use go_doubleratchet.State.ReceiverChains.Window
use go_doubleratchet.Suite
use go_doubleratchet.Session.{Session, build_ad}
use go_doubleratchet.Session.Methods.{decrypt}
use go_doubleratchet.Session.Chain.{message_key}
use go_doubleratchet.Session.Deliver.{chain}
use go_doubleratchet.Session.Deliver.{decrypt_lem}
use go_doubleratchet.Session.Late.{decrypt_from_store}

module _ (p : Primitives) where
  -- In a well-formed buffer whose chain of the message's ratchet key stands `gap` messages before the
  -- message, with the message's key stored as well, a message that opens is accepted twice: the second
  -- Decrypt derives the key from the chain that the first one took from the store, if the gap is at
  -- most MaxSkip and the number is below 2^32 - 1.
  pub decrypt-decrypt :
      (b : Session) (msg : Message) (ad : Bytes) (idx nr gap : ℕ) (ck pt : Bytes)
      → stored b.mk_skipped msg.header.ratchet_public_key msg.header.n ≡ some (message_key p gap ck)
      → find b.recv_chains msg.header.ratchet_public_key ≡ some idx
      → chain_at b.recv_chains idx ≡ chain ck nr msg.header.ratchet_public_key
      → Window.IsValid b.recv_chains
      → msg.header.n ≡ nr + gap
      → gap ≤ effective_max_skip (some b.config)
      → msg.header.n + 1 < u32_mod
      → Suite.decrypt p
          (message_key p gap ck)
          msg.ciphertext
          (build_ad b.config (encode_header msg.header) ad false)
          (effective_encrypt_info b.config)
        ≡ ok pt
      → ((decrypt p msg ad b).0 ≡ ok pt) × ((decrypt p msg ad (decrypt p msg ad b).1).0 ≡ ok pt)
  decrypt-decrypt b msg ad idx nr gap ck pt held found c v e le fits opened =
      let after = (decrypt p msg ad b).1 in
      let (first, gone, chains, config) =
        decrypt_from_store p b msg ad (message_key p gap ck) pt held opened in
      (
        first,
        ap (λ r. r.0)
            (decrypt_lem p after msg ad idx nr gap ck pt gone (rw chains found) (rw chains c)
              (rw chains v) e (rw config le) fits (rw config opened)),
      )
