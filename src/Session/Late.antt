-- ===== src/Session/Late.antt =====
-- Messages that arrive behind a later message of their chain: their stored keys decrypt them, once.
use go_doubleratchet.Base.{
  ℕ, suc, ◌+◌, ◌≤◌, ◌<◌, ◌≡◌, refl, ap, ◌∙◌, false, none, some, Bytes, length, Result, ok, arith,
  take-all,
}
use go_doubleratchet.Base.Words.{u32_mod}
use go_doubleratchet.Primitives.{Primitives, HmacLength, HkdfReads, CbcInverts}
use go_doubleratchet.Config.{effective_max_skip, effective_encrypt_info}
use go_doubleratchet.Kdf.{derive_message_key}
use go_doubleratchet.Message.{Header, Message, encode_header}
use go_doubleratchet.State.Skipped.{get_key}
use go_doubleratchet.State.Skipped.Laws
use go_doubleratchet.State.Skipped.Access.{stored, get_key_lem}
use go_doubleratchet.Suite
use go_doubleratchet.Session.{Session, build_ad}
use go_doubleratchet.Session.Ratchet.{message_key_32}
use go_doubleratchet.Session.Methods.{take_skipped, decrypt_with, decrypt, encrypt}
use go_doubleratchet.Session.Atomic.{recorded}
use go_doubleratchet.Session.Chain.{chain_key, message_key}
use go_doubleratchet.Session.Skipping.{stored-store_range}
use go_doubleratchet.Session.Deliver.{after_delivery, open_message_lem, decrypt_lem}
use go_doubleratchet.Session.RoundTrip.{Mirrored, InSync, after_send, sent-InSync, sealed_message}

module _ (p : Primitives) where
  -- Decrypt of a message whose key is stored opens it with that key, and the key is then gone.
  pub decrypt_from_store :
      (b : Session) (msg : Message) (ad mk pt : Bytes)
      → stored b.mk_skipped msg.header.ratchet_public_key msg.header.n ≡ some mk
      → Suite.decrypt p mk msg.ciphertext
          (build_ad b.config (encode_header msg.header) ad false)
          (effective_encrypt_info b.config)
        ≡ ok pt
      → let after = decrypt p msg ad b in
        (after.0 ≡ ok pt)
        × (stored after.1.mk_skipped msg.header.ratchet_public_key msg.header.n ≡ none)
        × (after.1.recv_chains ≡ b.recv_chains)
        × (after.1.config ≡ b.config)
  unfolding decrypt take_skipped decrypt_with
  decrypt_from_store b msg ad mk pt held opened =
      let pk = msg.header.ratchet_public_key in
      let (found, gone) = get_key_lem b.mk_skipped pk msg.header.n in
      let s1 : Session = record (recorded b) {
        mk_skipped = (get_key b.mk_skipped pk msg.header.n).1;
      } in
      simp (found, held, open_message_lem p s1 mk msg ad pt opened) (refl, gone, refl, refl)

  message_key_32_lem :
      HmacLength p → (k : ℕ) (ck : Bytes) → message_key_32 p (chain_key p k ck) ≡ message_key p k ck
  unfolding message_key_32 message_key derive_message_key
  message_key_32_lem hl k ck = take-all 32 _ (hl _ _)

  -- A receiver whose chain stands at number `nr` gets message `nr + gap`, and later message `nr + j`
  -- with `j` below `gap`: Decrypt returns the later one's plaintext, if the store had room for `gap`
  -- keys more, none of them was stored before, and the message was sealed with its key of the chain
  -- for the associated data that Decrypt builds.
  pub decrypt_late :
      HmacLength p
      → (b : Session) (idx nr gap j : ℕ) (ck ad pt : Bytes) (late : Message)
      → length late.header.ratchet_public_key ≡ 32
      → nr + gap ≤ u32_mod
      → j < gap
      → late.header.n ≡ nr + j
      → Laws.IsValid b.mk_skipped
      → length b.mk_skipped.entries + gap ≤ b.mk_skipped.max_skip
      → ((i : ℕ) → i < gap → stored b.mk_skipped late.header.ratchet_public_key (nr + i) ≡ none)
      → Suite.decrypt p
          (message_key p j ck)
          late.ciphertext
          (build_ad b.config (encode_header late.header) ad false)
          (effective_encrypt_info b.config)
        ≡ ok pt
      → let after =
          decrypt p late ad
            (after_delivery p (recorded b) late.header.ratchet_public_key idx nr gap ck) in
        (after.0 ≡ ok pt)
        × (stored after.1.mk_skipped late.header.ratchet_public_key late.header.n ≡ none)
  decrypt_late hl b idx nr gap j ck ad pt late l fits lt e v room new opened =
      let pk = late.header.ratchet_public_key in
      let s : Session = after_delivery p (recorded b) pk idx nr gap ck in
      let held : stored s.mk_skipped pk late.header.n ≡ some (message_key p j ck) =
        rw e (stored-store_range p pk gap nr j ck b.mk_skipped l fits lt v room new)
        ∙ ap some (message_key_32_lem hl j ck) in
      let (r, gone, _, _) = decrypt_from_store s late ad (message_key p j ck) pt held opened in
      (r, gone)

  -- With the documented behaviour of HMAC, HKDF and AES-CBC, of two messages that the sender
  -- encrypts in a pair of sessions in sync, whose configurations mirror each other, the receiver
  -- gets the second first, and both calls of Decrypt return the plaintexts, if MaxSkip admits
  -- the gap, the store is well formed, has room for the gap and holds none of the keys up to the
  -- second message's, the ratchet key has 32 bytes and the numbers are below 2^32 - 1.
  pub decrypt-encrypt_swapped :
      HmacLength p
      → HkdfReads p
      → CbcInverts p
      → (a b : Session) (gap : ℕ) (e1 e2 : Result Bytes) (pt1 pt2 ad1 ad2 : Bytes)
      → (y : InSync p a b gap) → Mirrored a.config b.config
      → length y.pk ≡ 32
      → gap + 1 ≤ effective_max_skip (some b.config)
      → Laws.IsValid b.mk_skipped
      → length b.mk_skipped.entries + (gap + 1) ≤ b.mk_skipped.max_skip
      → ((i : ℕ) → i ≤ gap + 1 → stored b.mk_skipped y.pk (y.nr + i) ≡ none)
      → a.ns + 2 < u32_mod
      → let sent1 = encrypt p e1 pt1 ad1 a in
        let sent2 = encrypt p e2 pt2 ad2 sent1.1 in
        (msg1 msg2 : Message) × (sent1.0 ≡ ok msg1)
        × (sent2.0 ≡ ok msg2)
        × ((decrypt p msg2 ad2 b).0 ≡ ok pt2)
        × ((decrypt p msg1 ad1 (decrypt p msg2 ad2 b).1).0 ≡ ok pt1)
  decrypt-encrypt_swapped hl reads cbc a b gap e1 e2 pt1 pt2 ad1 ad2 y m l le v room new fits =
      let (msg1, sent1, h1, opened1) = sealed_message p hl reads cbc a b gap e1 pt1 ad1 y m in
      let a' = after_send p a (chain_key p gap y.ck) in
      let y' : InSync p a' b (suc gap) = sent-InSync p a b gap y (omega arith) in
      let (msg2, sent2, h2, opened2) =
        sealed_message p hl reads cbc a' b (suc gap) e2 pt2 ad2 y' m in
      let pk1 : msg1.header.ratchet_public_key ≡ y.pk =
        ap (λ (h : Header). h.ratchet_public_key) h1 in
      let pk2 : msg2.header.ratchet_public_key ≡ y.pk =
        ap (λ (h : Header). h.ratchet_public_key) h2 in
      let n1 : msg1.header.n ≡ y.nr + gap = ap (λ (h : Header). h.n) h1 ∙ y.number in
      let n2 : msg2.header.n ≡ y.nr + suc gap = ap (λ (h : Header). h.n) h2 ∙ y'.number in
      let received2 =
        decrypt_lem p b msg2 ad2 y.idx y.nr (suc gap) y.ck pt2
          (rw (pk2, n2) (new (suc gap) (omega arith))) (rw pk2 y.held) (rw pk2 y.at_chain) y.valid
          n2 (omega arith) (omega (arith, y.number)) opened2 in
      let received1 =
        decrypt_late hl b y.idx y.nr (suc gap) gap y.ck ad1 pt1 msg1 (rw pk1 l)
          (omega (arith, y.number)) (omega arith) n1 v (omega arith)
          (λ i lt. rw pk1 (new i (omega arith))) opened1 in
      (
        msg1,
        msg2,
        ap (λ r. r.0) sent1,
        rw sent1 (ap (λ r. r.0) sent2),
        ap (λ r. r.0) received2,
        rw (received2, pk2) (rw pk1 at received1.0),
      )
