-- ===== src/Session/RoundTrip.antt =====
-- What the one party encrypts, the other decrypts: a sender and the receiver of its current chain.
use native.Mathlib.Nat.{mod-eq_of_lt}
use go_doubleratchet.Base.{
  ℕ, suc, ◌+◌, ◌≤◌, ◌<◌, ◌≡◌, refl, sym, ap, ◌∙◌, true, false, none, some, Bytes, Result, ok, arith,
  ◌++◌,
}
use go_doubleratchet.Base.Words.{u32_mod, u32_succ}
use go_doubleratchet.Primitives.{Primitives, HmacLength, HkdfReads, CbcInverts}
use go_doubleratchet.Config.{Config, effective_max_skip, effective_encrypt_info}
use go_doubleratchet.Config.Laws.{identity_ad_prefix_agree}
use go_doubleratchet.Crypto.{public_key_from_private}
use go_doubleratchet.Kdf.{derive_message_key}
use go_doubleratchet.Message.{Header, Message, encode_header}
use go_doubleratchet.State.Skipped.Access.{stored}
use go_doubleratchet.State.ReceiverChains.{find, chain_at}
use go_doubleratchet.State.ReceiverChains.Window
use go_doubleratchet.State.ReceiverChains.Window.{
  set_chain-IsValid, chain_at-set_chain, find_bounds, find-set_chain,
}
use go_doubleratchet.Suite
use go_doubleratchet.Suite.RoundTrip.{decrypt-encrypt}
use go_doubleratchet.Session.{Session, build_ad}
use go_doubleratchet.Session.Ratchet.{next_chain_key}
use go_doubleratchet.Session.Methods.{decrypt, send_on_chain, ratchet_send_key, encrypt}
use go_doubleratchet.Session.Atomic.{recorded}
use go_doubleratchet.Session.Chain.{chain_key, message_key, chain_key-suc}
use go_doubleratchet.Session.Deliver.{chain, after_delivery, decrypt_lem}

-- The configurations of two parties that hold each other's identity keys and derive their
-- encryption keys under the same info.
pub record Mirrored (a b : Config) : Type 0 where
  pub local_is_remote : a.local_identity_key ≡ b.remote_identity_key
  pub remote_is_local : a.remote_identity_key ≡ b.local_identity_key
  pub same_info : effective_encrypt_info a ≡ effective_encrypt_info b

-- The receiver `b` holds the sending chain of `a` as a receiving chain, `gap` messages behind.
pub record InSync (p : Primitives) (a b : Session) (gap : ℕ) : Type 0 where
  pub pk : Bytes
  pub idx : ℕ
  pub nr : ℕ
  pub ck : Bytes
  pub sending : a.cks ≡ some (chain_key p gap ck)
  pub no_turn : a.dh_ratchet_performed ≡ false
  pub own_key : public_key_from_private p a.dhs ≡ ok pk
  pub held : find b.recv_chains pk ≡ some idx
  pub at_chain : chain_at b.recv_chains idx ≡ chain ck nr pk
  pub number : a.ns ≡ nr + gap
  pub valid : Window.IsValid b.recv_chains

module _ (p : Primitives) where
  -- The sender behind one more message.
  abbrev pub after_send : Session → Bytes → Session
  after_send a ck = record a { cks = some (next_chain_key p ck); ns = u32_succ a.ns }

  pub encrypt_lem :
      (a : Session) (entropy : Result Bytes) (plaintext ad ck pk ct : Bytes)
      → a.cks ≡ some ck
      → a.dh_ratchet_performed ≡ false
      → public_key_from_private p a.dhs ≡ ok pk
      → let header : Header = record { ratchet_public_key = pk; pn = a.pn; n = a.ns } in
        Suite.encrypt p
            (derive_message_key p ck)
            plaintext
            (build_ad a.config (encode_header header) ad true)
            (effective_encrypt_info a.config)
          ≡ ok ct
        → encrypt p entropy plaintext ad a
          ≡ (ok (record { ciphertext = ct; header = header }), after_send a ck)
  unfolding encrypt ratchet_send_key send_on_chain
  encrypt_lem a entropy plaintext ad ck pk ct sending no_turn own sealed =
      simp (no_turn, sending, own, sealed)

  -- The sender behind a message that the receiver has not got.
  abbrev pub sent-InSync :
      (a b : Session) (gap : ℕ)
      → (y : InSync p a b gap) → a.ns + 1 < u32_mod
      → InSync p (after_send a (chain_key p gap y.ck)) b (suc gap)
  sent-InSync a b gap y fits = record {
    pk = y.pk;
    idx = y.idx;
    nr = y.nr;
    ck = y.ck;
    sending = ap some (sym (chain_key-suc p gap y.ck));
    no_turn = y.no_turn;
    own_key = y.own_key;
    held = y.held;
    at_chain = y.at_chain;
    number = mod-eq_of_lt fits ∙ omega (arith, y.number);
    valid = y.valid;
  }

  -- What Encrypt returns in a pair of sessions in sync, and that its ciphertext opens under the
  -- receiver's associated data with the key of the chain.
  pub sealed_message :
      HmacLength p
      → HkdfReads p
      → CbcInverts p
      → (a b : Session) (gap : ℕ) (entropy : Result Bytes) (plaintext ad : Bytes)
      → (y : InSync p a b gap) → Mirrored a.config b.config
      → (msg : Message) × (encrypt p entropy plaintext ad a
          ≡ (ok msg, after_send a (chain_key p gap y.ck)))
        × (msg.header ≡ record { ratchet_public_key = y.pk; pn = a.pn; n = a.ns })
        × (Suite.decrypt p
              (message_key p gap y.ck)
              msg.ciphertext
              (build_ad b.config (encode_header msg.header) ad false)
              (effective_encrypt_info b.config)
            ≡ ok plaintext)
  unfolding build_ad
  sealed_message hl reads cbc a b gap entropy plaintext ad y m =
      let header : Header = record { ratchet_public_key = y.pk; pn = a.pn; n = a.ns } in
      let sent_ad = build_ad a.config (encode_header header) ad true in
      let (ct, sealed, opened) =
        decrypt-encrypt p hl reads cbc (message_key p gap y.ck) plaintext sent_ad
          (effective_encrypt_info a.config) in
      let same_ad : sent_ad ≡ build_ad b.config (encode_header header) ad false =
        ap (λ prefix. prefix ++ (ad ++ encode_header header))
          (identity_ad_prefix_agree a.config b.config m.local_is_remote m.remote_is_local) in
      (
        record { ciphertext = ct; header = header },
        encrypt_lem a entropy plaintext ad (chain_key p gap y.ck) y.pk ct y.sending y.no_turn
            y.own_key (unfold message_key in sealed),
        refl,
        rw (← same_ad, ← m.same_info) opened,
      )

  -- The session behind a delivery, as the sender's counterpart again.
  unfoldable pub delivered-InSync :
      (a b : Session) (gap : ℕ)
      → (y : InSync p a b gap) → a.ns + 1 < u32_mod
      → InSync p
          (after_send a (chain_key p gap y.ck))
          (after_delivery p (recorded b) y.pk y.idx y.nr gap y.ck)
          0
  unfolding chain_key
  delivered-InSync a b gap y fits =
      let c = chain (next_chain_key p (chain_key p gap y.ck)) (y.nr + gap + 1) y.pk in
      record {
        pk = y.pk;
        idx = y.idx;
        nr = y.nr + gap + 1;
        ck = next_chain_key p (chain_key p gap y.ck);
        sending = refl;
        no_turn = y.no_turn;
        own_key = y.own_key;
        held = find-set_chain b.recv_chains y.pk y.idx c (simp (y.at_chain)) ∙ y.held;
        at_chain =
            chain_at-set_chain b.recv_chains y.idx c y.valid
              (find_bounds b.recv_chains y.pk y.idx y.held).0;
        number = mod-eq_of_lt fits ∙ omega (arith, y.number);
        valid = set_chain-IsValid b.recv_chains y.idx c y.valid;
      }

  -- With the documented behaviour of HMAC, HKDF and AES-CBC, in a pair of sessions in sync,
  -- whose configurations mirror each other, the receiver decrypts what the sender encrypts to
  -- the plaintext, and the sessions are in sync again without a gap, if the gap before is at
  -- most the receiver's MaxSkip, the receiver has stored no key under the message's number, and
  -- that number is below 2^32 - 1.
  pub decrypt-encrypt_in_sync :
      HmacLength p
      → HkdfReads p
      → CbcInverts p
      → (a b : Session) (gap : ℕ) (entropy : Result Bytes) (plaintext ad : Bytes)
      → (y : InSync p a b gap) → Mirrored a.config b.config
      → gap ≤ effective_max_skip (some b.config)
      → stored b.mk_skipped y.pk a.ns ≡ none
      → a.ns + 1 < u32_mod
      → (msg : Message) × ((encrypt p entropy plaintext ad a).0 ≡ ok msg)
        × ((decrypt p msg ad b).0 ≡ ok plaintext)
        × InSync p (encrypt p entropy plaintext ad a).1 (decrypt p msg ad b).1 0
  decrypt-encrypt_in_sync hl reads cbc a b gap entropy plaintext ad y m le free fits =
      let (msg, sent, header, opened) =
        sealed_message hl reads cbc a b gap entropy plaintext ad y m in
      let pk : msg.header.ratchet_public_key ≡ y.pk =
        ap (λ (h : Header). h.ratchet_public_key) header in
      let n : msg.header.n ≡ a.ns = ap (λ (h : Header). h.n) header in
      let received =
        decrypt_lem p b msg ad y.idx y.nr gap y.ck plaintext (rw (pk, n) free) (rw pk y.held)
          (rw pk y.at_chain) y.valid (n ∙ y.number) le (rw n fits) opened in
      (
        msg,
        ap (λ r. r.0) sent,
        ap (λ r. r.0) received,
        rw (sent, received, pk) (delivered-InSync a b gap y fits),
      )

  -- With the documented behaviour of HMAC, HKDF and AES-CBC, in a pair of sessions in sync,
  -- whose configurations mirror each other, Encrypt returns a message, and without its delivery
  -- the receiver is one message further behind, if the message's number is below 2^32 - 1.
  pub encrypt-InSync :
      HmacLength p
      → HkdfReads p
      → CbcInverts p
      → (a b : Session) (gap : ℕ) (entropy : Result Bytes) (plaintext ad : Bytes) → InSync p a b gap
      → Mirrored a.config b.config
      → a.ns + 1 < u32_mod
      → (msg : Message) × ((encrypt p entropy plaintext ad a).0 ≡ ok msg)
        × InSync p (encrypt p entropy plaintext ad a).1 b (suc gap)
  encrypt-InSync hl reads cbc a b gap entropy plaintext ad y m fits =
      let (msg, sent, _, _) = sealed_message hl reads cbc a b gap entropy plaintext ad y m in
      (msg, ap (λ r. r.0) sent, rw sent (sent-InSync a b gap y fits))
