-- ===== src/SessionTr/RoundTrip.antt =====
-- What the one party of the Triple Ratchet encrypts, the other decrypts.
use go_doubleratchet.Base.{
  ℕ, ◌+◌, ◌≤◌, ◌<◌, ◌≡◌, refl, ap, true, false, none, some, Option, Bytes, length, ◌++◌, Result, ok,
  arith,
}
use go_doubleratchet.Base.Words.{u32_mod, put_uint32}
use go_doubleratchet.Primitives.{Primitives, HmacLength, HkdfReads, CbcInverts}
use go_doubleratchet.Config.{effective_max_skip, effective_hybrid_info, effective_encrypt_info}
use go_doubleratchet.Config.Laws.{identity_ad_prefix_agree}
use go_doubleratchet.Kdf.{hybrid}
use go_doubleratchet.Message.{
  Header, SckaHeader, TripleRatchetHeader, TripleRatchetMessage, encode_tr_header, encode_header,
  encode_scka_header,
}
use go_doubleratchet.Scka.{Provider}
use go_doubleratchet.Suite
use go_doubleratchet.Suite.RoundTrip.{decrypt-encrypt}
use go_doubleratchet.State.Invariants.{Invariants}
use go_doubleratchet.Session.Ratchet.{snapshot}
use go_doubleratchet.State.Skipped.Access.{stored}
use go_doubleratchet.Session.{Session, build_ad}
use go_doubleratchet.Session.Atomic.{recorded}
use go_doubleratchet.Session.RoundTrip.{Mirrored, InSync, delivered-InSync}
use go_doubleratchet.Session.KeyAgreement.{ratchet_receive_key-ratchet_send_key}
use go_doubleratchet.Session.Methods.{ratchet_send_key, ratchet_receive_key}
use go_doubleratchet.SessionSpqr.Methods.{send_key, receive_key}
use go_doubleratchet.SessionSpqr.Adopt.{Paired}
use go_doubleratchet.SessionSpqr.KeyAgreement.{receive_key-send_key}
use go_doubleratchet.SessionTr.{
  TripleRatchetSession, record_snapshot, encrypt_tr, decrypt_both, decrypt_checked, decrypt_tr,
}

-- The snapshots do not matter for being in sync.
abbrev with_snapshots :
    (p : Primitives) (a b : Session) (gap : ℕ) (i j : Invariants)
    → InSync p a b gap
    → InSync p (record a { invariants = i }) (record b { invariants = j }) gap
with_snapshots p a b gap i j y = record {
  pk = y.pk;
  idx = y.idx;
  nr = y.nr;
  ck = y.ck;
  sending = y.sending;
  no_turn = y.no_turn;
  own_key = y.own_key;
  held = y.held;
  at_chain = y.at_chain;
  number = y.number;
  valid = y.valid;
}

module _ {P S : Type 0} (p : Primitives) (scka : Provider P S) where
  -- Encrypt, from what its steps come to.
  encrypt_tr_lem :
      (a : TripleRatchetSession P) (entropy : Result Bytes) (plaintext ad : Bytes) (ec : Header)
      (ec_mk msg pq_mk combined ct header_bytes : Bytes) (n : ℕ) (dr' : Session)
      → let header : TripleRatchetHeader = record {
        scka = some (record { msg = msg; n = n });
        ec = ec;
      } in
        ratchet_send_key p entropy (recorded a.dr) ≡ (ok (ec, ec_mk), dr')
        → (send_key p scka a.spqr).0 ≡ ok (msg, n, pq_mk)
        → hybrid p pq_mk ec_mk (effective_hybrid_info a.config) ≡ ok combined
        → encode_tr_header header ≡ ok header_bytes
        → Suite.encrypt p combined plaintext
            (build_ad a.config header_bytes ad true)
            (effective_encrypt_info a.config)
          ≡ ok ct
        → encrypt_tr p scka entropy plaintext ad a ≡ (
          ok (record { ciphertext = ct; header = header }),
          record a { dr = dr'; spqr = (send_key p scka a.spqr).1 },
        )
  unfolding encrypt_tr record_snapshot
  encrypt_tr_lem a entropy plaintext ad ec ec_mk msg pq_mk combined ct header_bytes n dr' sent keyed
        mixed coded sealed =
      simp (sent, keyed, mixed, coded, sealed)

  -- Decrypt, from what its steps come to.
  decrypt_tr_lem :
      (b : TripleRatchetSession P) (m : TripleRatchetMessage) (h : SckaHeader) (ad : Bytes)
      (ec_mk pq_mk combined header_bytes plaintext : Bytes) (e : ℕ) (dr' : Session)
      → m.header.scka ≡ some h
      → ratchet_receive_key p m.header.ec (recorded b.dr) ≡ (ok ec_mk, dr')
      → (receive_key p scka h b.spqr).0 ≡ ok (e, pq_mk)
      → hybrid p pq_mk ec_mk (effective_hybrid_info b.config) ≡ ok combined
      → encode_tr_header m.header ≡ ok header_bytes
      → Suite.decrypt p combined m.ciphertext
          (build_ad b.config header_bytes ad false)
          (effective_encrypt_info b.config)
        ≡ ok plaintext
      → decrypt_tr p scka m ad b
        ≡ (ok plaintext, record b { dr = dr'; spqr = (receive_key p scka h b.spqr).1 })
  unfolding decrypt_tr decrypt_checked decrypt_both record_snapshot
  decrypt_tr_lem b m h ad ec_mk pq_mk combined header_bytes plaintext e dr' some_h received keyed
        mixed coded opened =
      simp (some_h) (simp (received, keyed, mixed, coded, opened))

  -- With the documented behaviour of HMAC, HKDF and AES-CBC, for two parties whose base sessions are
  -- in sync up to a gap and whose post-quantum receiver has got all that was sent, whose
  -- configurations mirror each other with the same info for the hybrid key, and where the receiver's
  -- provider reports for the message of the sender's provider the epoch and the output key that it
  -- was sent with, if sendKey derives a key, then Encrypt returns a message that Decrypt opens, and
  -- afterwards the base sessions are in sync without a gap and the post-quantum receiver has again
  -- got all that was sent; this if the gap is at most the receiver's MaxSkip, the receiver has stored
  -- no key under the message's number, and that number is below 2^32 - 1.
  pub decrypt_tr-encrypt_tr :
      HmacLength p
      → HkdfReads p
      → CbcInverts p
      → (a b : TripleRatchetSession P) (gap : ℕ) (entropy : Result Bytes) (plaintext ad : Bytes)
        (keyed : Bytes × ℕ × Bytes) (scka_msg : Bytes) (e : ℕ) (key : Option Bytes) (key_epoch : ℕ)
      → (y : InSync p a.dr b.dr gap) → Paired a.spqr b.spqr
      → Mirrored a.config b.config
      → effective_hybrid_info a.config ≡ effective_hybrid_info b.config
      → gap ≤ effective_max_skip (some b.dr.config)
      → stored b.dr.mk_skipped y.pk a.dr.ns ≡ none
      → a.dr.ns + 1 < u32_mod
      → (scka.send a.spqr.scka).0 ≡ ok (scka_msg, e, key, key_epoch)
      → (scka.receive scka_msg b.spqr.scka).0 ≡ ok (e, key, key_epoch)
      → (send_key p scka a.spqr).0 ≡ ok keyed
      → (msg : TripleRatchetMessage) × ((encrypt_tr p scka entropy plaintext ad a).0 ≡ ok msg)
        × ((decrypt_tr p scka msg ad b).0 ≡ ok plaintext)
        × InSync p
            (encrypt_tr p scka entropy plaintext ad a).1.dr
            (decrypt_tr p scka msg ad b).1.dr
            0
        × Paired
            (encrypt_tr p scka entropy plaintext ad a).1.spqr
            (decrypt_tr p scka msg ad b).1.spqr
  unfolding build_ad encode_tr_header encode_scka_header hybrid
  decrypt_tr-encrypt_tr hl reads cbc a b gap entropy plaintext ad keyed scka_msg e key key_epoch y q
        m same_info le free fits given received derived =
      let ya = with_snapshots p a.dr b.dr gap (snapshot a.dr) b.dr.invariants y in
      let yb = with_snapshots p a.dr b.dr gap (snapshot a.dr) (snapshot b.dr) y in
      let (ec, ec_mk, ec_sent, ec_received) =
        ratchet_receive_key-ratchet_send_key p (recorded a.dr) (recorded b.dr) gap entropy yb le
          free fits in
      let (pq_received, q') =
        receive_key-send_key p scka a.spqr b.spqr keyed scka_msg e key key_epoch q given received
          derived in
      let (combined, mixed, _) =
        reads ec_mk keyed.2 (effective_hybrid_info a.config) 32 (omega arith) in
      let scka_header : SckaHeader = record { msg = keyed.0; n = keyed.1 } in
      let header : TripleRatchetHeader = record { scka = some scka_header; ec = ec } in
      let header_bytes =
        encode_header ec ++ (put_uint32 (length keyed.0) ++ (keyed.0 ++ put_uint32 keyed.1)) in
      let sent_ad = build_ad a.config header_bytes ad true in
      let (ct, sealed, opened) =
        decrypt-encrypt p hl reads cbc combined plaintext sent_ad
          (effective_encrypt_info a.config) in
      let same_ad : sent_ad ≡ build_ad b.config header_bytes ad false =
        ap (λ prefix. prefix ++ (ad ++ header_bytes))
          (identity_ad_prefix_agree a.config b.config m.local_is_remote m.remote_is_local) in
      let msg : TripleRatchetMessage = record { ciphertext = ct; header = header } in
      let sent =
        encrypt_tr_lem a entropy plaintext ad ec ec_mk keyed.0 keyed.2 combined ct header_bytes
          keyed.1 _ ec_sent derived mixed refl sealed in
      let got =
        decrypt_tr_lem b msg scka_header ad ec_mk keyed.2 combined header_bytes plaintext e _ refl
          ec_received pq_received (rw (← same_info) mixed) refl
          (rw (← same_ad, ← m.same_info) opened) in
      (
        msg,
        ap (λ r. r.0) sent,
        ap (λ r. r.0) got,
        rw (sent, got) (delivered-InSync p (recorded a.dr) b.dr gap ya fits),
        rw (sent, got) q',
      )
