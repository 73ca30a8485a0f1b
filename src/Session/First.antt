-- ===== src/Session/First.antt =====
-- The first message: what the initiator's session encrypts, the responder's session decrypts.
use go_doubleratchet.Base.{
  ℕ, ◌≡◌, refl, sym, ap, ◌∙◌, true, false, Option, none, Bytes, length, Result, ok, arith,
}
use go_doubleratchet.Primitives.{
  Primitives, HmacLength, HkdfReads, CbcInverts, IsPair, X25519Length, X25519Commutes,
}
use go_doubleratchet.Config.{Config, effective_kdf_info}
use go_doubleratchet.Crypto.{KeyPair, shared_secret, public_key_from_private, verify_public_key}
use go_doubleratchet.Message.{Header, Message}
use go_doubleratchet.State.Skipped.Access.{stored}
use go_doubleratchet.State.ReceiverChains.{new_receiver_chains}
use go_doubleratchet.Session.{Session, derive_root_and_chain, init_initiator, init_responder}
use go_doubleratchet.Session.Ratchet.{store_previous, enter_epoch, perform_dh_ratchet_recv}
use go_doubleratchet.Session.Methods.{encrypt, decrypt}
use go_doubleratchet.State.Skipped.Access.{get_key_missing}
use go_doubleratchet.Suite
use go_doubleratchet.Config.{effective_encrypt_info}
use go_doubleratchet.Message.{encode_header}
use go_doubleratchet.Session.{build_ad}
use go_doubleratchet.Session.Methods.{take_skipped, decrypt_with}
use go_doubleratchet.Session.Atomic.{recorded}
use go_doubleratchet.Session.Chain.{chain_key, message_key}
use go_doubleratchet.Session.Deliver.{after_delivery, decrypt_on_chain_lem}
use go_doubleratchet.Session.RoundTrip.{Mirrored, InSync, sealed_message, delivered-InSync}
use go_doubleratchet.Session.Start.{
  own_key_lem, Starts, init_initiator-Starts, init_responder-Waits, one_chain, find-one_chain,
  chain_at-one_chain, one_chain-IsValid, nothing_known,
}

module _ (p : Primitives) where
  -- The responder's session behind the ratchet step of the first message.
  abbrev entered : Session → Bytes → Bytes → Bytes → Session
  entered b pk rk ck = record b {
    rk = rk;
    recv_chains = one_chain pk ck;
    dhr = pk;
    dh_r_set = true;
    dh_ratchet_performed = true;
  }

  perform_dh_ratchet_recv_lem :
      (b : Session) (header : Header) (dh_out rk ck : Bytes)
      → b.dh_r_set ≡ false
      → b.recv_chains ≡ new_receiver_chains
      → verify_public_key header.ratchet_public_key ≡ true
      → shared_secret p b.dhs header.ratchet_public_key ≡ ok dh_out
      → derive_root_and_chain p dh_out b.rk (effective_kdf_info b.config) ≡ ok (rk, ck)
      → perform_dh_ratchet_recv p header b ≡ (ok tt, entered b header.ratchet_public_key rk ck)
  unfolding perform_dh_ratchet_recv enter_epoch store_previous
  perform_dh_ratchet_recv_lem b header dh_out rk ck unset c valid agreed derived =
      simp (valid, agreed, derived, unset, c)

  -- Decrypt of the first message.
  decrypt_first_lem :
      (b : Session) (msg : Message) (ad dh_out rk ck pt : Bytes)
      → b.dh_r_set ≡ false
      → b.recv_chains ≡ new_receiver_chains
      → ((pk : Bytes) (n : ℕ) → stored b.mk_skipped pk n ≡ none)
      → verify_public_key msg.header.ratchet_public_key ≡ true
      → shared_secret p b.dhs msg.header.ratchet_public_key ≡ ok dh_out
      → derive_root_and_chain p dh_out b.rk (effective_kdf_info b.config) ≡ ok (rk, ck)
      → msg.header.n ≡ 0
      → Suite.decrypt p
          (message_key p 0 ck)
          msg.ciphertext
          (build_ad b.config (encode_header msg.header) ad false)
          (effective_encrypt_info b.config)
        ≡ ok pt
      → let pk = msg.header.ratchet_public_key in
        decrypt p msg ad b ≡ (ok pt, after_delivery p (entered (recorded b) pk rk ck) pk 0 0 0 ck)
  unfolding decrypt take_skipped decrypt_with
  decrypt_first_lem b msg ad dh_out rk ck pt unset c nothing valid agreed derived first opened =
      let pk = msg.header.ratchet_public_key in
      simp
        (
          get_key_missing b.mk_skipped pk msg.header.n (nothing pk msg.header.n),
          nothing_known (recorded b) msg.header c unset,
          perform_dh_ratchet_recv_lem (recorded b) msg.header dh_out rk ck unset c valid agreed
              derived,
        )
        (simp (find-one_chain pk ck) (
          decrypt_on_chain_lem p (entered (recorded b) pk rk ck) msg ad 0 0 0 ck pt
            (chain_at-one_chain pk ck) (omega arith) (one_chain-IsValid pk ck)
            (omega (arith, first)) (omega arith) (omega (arith, first)) opened))

  shared_secret_commutes :
      X25519Commutes p
      → (a b a_pub b_pub : Bytes) → IsPair p a a_pub
      → IsPair p b b_pub
      → shared_secret p a b_pub ≡ shared_secret p b a_pub
  unfolding shared_secret
  shared_secret_commutes commutes a b a_pub b_pub pa pb = rw (commutes a b a_pub b_pub pa pb) refl

  unfoldable entered-InSync :
      (secret bob_pk : Bytes) (a b : Session)
      → X25519Length p
      → (y : Starts p secret bob_pk a) → InSync p a (entered b y.pk a.rk y.ck) 0
  unfolding chain_key
  entered-InSync secret bob_pk a b xl y = record {
    pk = y.pk;
    idx = 0;
    nr = 0;
    ck = y.ck;
    sending = y.sending;
    no_turn = y.no_turn;
    own_key = own_key_lem p xl a.dhs y.pk y.pair;
    held = find-one_chain y.pk y.ck;
    at_chain = chain_at-one_chain y.pk y.ck;
    number = y.number;
    valid = one_chain-IsValid y.pk y.ck;
  }

  -- With the documented behaviour of HMAC, HKDF and AES-CBC, and for an X25519 that gives 32
  -- bytes and commutes, the responder that InitResponder returns decrypts the first message of
  -- the initiator that InitInitiator returns, and the sessions are then in sync, if both were
  -- given the same shared secret, the initiator was given the public key of the responder's
  -- pair, their configurations mirror each other with the same info for the root key, the
  -- initiator's public key is not zero and the random source fills its buffer.
  pub decrypt-encrypt_first :
      HmacLength p
      → HkdfReads p
      → CbcInverts p
      → X25519Length p
      → X25519Commutes p
      → (entropy e1 : Result Bytes) (secret plaintext ad : Bytes) (pair : KeyPair)
      → (cfg_a cfg_b : Option Config) (a b : Session)
      → ((bytes : Bytes) → entropy ≡ ok bytes → length bytes ≡ 32)
      → IsPair p pair.private_key pair.public_key
      → init_initiator p entropy secret pair.public_key cfg_a ≡ ok a
      → init_responder secret pair cfg_b ≡ ok b
      → Mirrored a.config b.config
      → effective_kdf_info a.config ≡ effective_kdf_info b.config
      → ((pk : Bytes) → public_key_from_private p a.dhs ≡ ok pk → verify_public_key pk ≡ true)
      → (msg : Message) × ((encrypt p e1 plaintext ad a).0 ≡ ok msg)
        × ((decrypt p msg ad b).0 ≡ ok plaintext)
        × InSync p (encrypt p e1 plaintext ad a).1 (decrypt p msg ad b).1 0
  unfolding entered-InSync chain_key
  decrypt-encrypt_first hl reads cbc xl commutes entropy e1 secret plaintext ad pair cfg_a cfg_b a b
        filled bob_pair started waiting m same_info live =
      let y = init_initiator-Starts p xl entropy secret pair.public_key cfg_a a filled started in
      let w = init_responder-Waits secret pair cfg_b b waiting in
      let after = entered (recorded b) y.pk a.rk y.ck in
      let sync : InSync p a after 0 = entered-InSync secret pair.public_key a (recorded b) xl y in
      let (msg, sent, header, opened) =
        sealed_message p hl reads cbc a after 0 e1 plaintext ad sync m in
      let pk : msg.header.ratchet_public_key ≡ y.pk =
        ap (λ (h : Header). h.ratchet_public_key) header in
      let n : msg.header.n ≡ 0 = ap (λ (h : Header). h.n) header ∙ y.number in
      let agreed : shared_secret p b.dhs y.pk ≡ ok y.dh_out =
        ap (λ k. shared_secret p k y.pk) w.own_private
        ∙ sym (
            shared_secret_commutes commutes a.dhs pair.private_key y.pk pair.public_key y.pair
              bob_pair)
        ∙ y.agreed in
      let derived : derive_root_and_chain p y.dh_out b.rk (effective_kdf_info b.config)
          ≡ ok (a.rk, y.ck) =
        rw (w.root, ← same_info) y.derived in
      let received =
        decrypt_first_lem b msg ad y.dh_out a.rk y.ck plaintext w.not_set w.chains w.nothing
          (rw pk (live y.pk (own_key_lem p xl a.dhs y.pk y.pair))) (rw pk agreed) derived n
          opened in
      let z = delivered-InSync p a after 0 sync (omega (arith, y.number)) in
      (
        msg,
        ap (λ r. r.0) sent,
        ap (λ r. r.0) received,
        rw (sent, received, pk)
            (record {
              pk = z.pk;
              idx = z.idx;
              nr = z.nr;
              ck = z.ck;
              sending = z.sending;
              no_turn = z.no_turn;
              own_key = z.own_key;
              held = z.held;
              at_chain = z.at_chain;
              number = z.number;
              valid = z.valid;
            }),
      )
