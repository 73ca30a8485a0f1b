-- ===== src/Session/Numbers.antt =====
-- What a message of Encrypt carries, and the session that is left: its ratchet key, its numbers, and
-- the keys that it was made with.
use go_doubleratchet.Base.{◌≡◌, true, false, some, Bytes, ok, if◌then◌else◌}
use go_doubleratchet.Base.Words.{u32_succ}
use go_doubleratchet.Primitives.{Primitives}
use go_doubleratchet.Config.{effective_encrypt_info}
use go_doubleratchet.Crypto.{public_key_from_private}
use go_doubleratchet.Kdf.{derive_message_key}
use go_doubleratchet.Message.{Message, encode_header}
use go_doubleratchet.Suite
use go_doubleratchet.Session.{Session, build_ad}
use go_doubleratchet.Session.Ratchet.{next_chain_key}
use go_doubleratchet.Session.Methods.{encrypt}
use go_doubleratchet.Session.NextMessage.{Origin, IsSame}

module _ (p : Primitives) where
  -- A message that was sent under the chain key `ck`, and the session `s'` behind it.
  pub record Sent (s s' : Session) (plaintext ad : Bytes) (msg : Message) : Type 0 where
    pub ck : Bytes
    pub origin : Origin p s.dh_ratchet_performed s s'.rk s'.dhs ck
    pub own_key : public_key_from_private p s'.dhs ≡ ok msg.header.ratchet_public_key
    pub number : msg.header.n ≡ (if s.dh_ratchet_performed then 0 else s.ns)
    pub previous : msg.header.pn ≡ (if s.dh_ratchet_performed then s.ns else s.pn)
    pub sealed :
        Suite.encrypt p
          (derive_message_key p ck)
          plaintext
          (build_ad s.config (encode_header msg.header) ad true)
          (effective_encrypt_info s.config)
        ≡ ok msg.ciphertext
    pub next_key : s'.cks ≡ some (next_chain_key p ck)
    pub next_number : s'.ns ≡ u32_succ msg.header.n
    pub next_previous : s'.pn ≡ msg.header.pn
    pub no_turn : s'.dh_ratchet_performed ≡ false
    pub same : IsSame s s'
