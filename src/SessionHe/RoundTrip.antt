-- ===== src/SessionHe/RoundTrip.antt =====
-- What the one party encrypts with an encrypted header, the other decrypts on the same chain.
use go_doubleratchet.Base.{
  ℕ, ◌+◌, ◌≤◌, ◌<◌, ◌≡◌, ap, true, false, some, [], Bytes, length, ◌++◌, Result, ok, arith,
}
use go_doubleratchet.Base.Words.{u32_mod}
use go_doubleratchet.Base.GoMap.{IsRange}
use go_doubleratchet.Primitives.{Primitives, HmacLength, HkdfReads, CbcInverts}
use go_doubleratchet.Config.{effective_max_skip, effective_encrypt_info}
use go_doubleratchet.Config.Laws.{identity_ad_prefix_agree}
use go_doubleratchet.Crypto.{is_zeroed, public_key_from_private}
use go_doubleratchet.Crypto.HeaderEncrypt.{max_uint64, encrypt_header}
use go_doubleratchet.Crypto.HeaderEncrypt.Laws.{decrypt_header-encrypt_header}
use go_doubleratchet.Kdf.{derive_message_key}
use go_doubleratchet.Message.{Header, IsHeader, encode_header}
use go_doubleratchet.Suite
use go_doubleratchet.Suite.RoundTrip.{decrypt-encrypt}
use go_doubleratchet.Session.{build_ad}
use go_doubleratchet.Session.Chain.{chain_key, message_key}
use go_doubleratchet.Session.RoundTrip.{Mirrored, InSync, after_send, delivered-InSync}
use go_doubleratchet.SessionHe.{HeSession}
use go_doubleratchet.SessionHe.Methods.{Visit, send_on_chain_he, encrypt_he, decrypt_he}
use go_doubleratchet.SessionHe.Atomic.{recorded_he}
use go_doubleratchet.SessionHe.Deliver.{after_delivery_he, decrypt_he_lem}

-- The receiver `b` is at the sender's chain, `gap` messages behind, with the sender's header key.
pub record InSyncHe (p : Primitives) (a b : HeSession) (gap : ℕ) : Type 0 where
  pub base : InSync p a.dr b.dr gap
  pub current : b.dr.dhr ≡ base.pk
  pub is_set : b.dr.dh_r_set ≡ true
  pub header_key : b.hkr.key ≡ a.hks.key
  pub live : is_zeroed a.hks.key ≡ false
  pub key_length : length base.pk ≡ 32
  pub pn_fits : a.dr.pn < u32_mod

-- The sender behind one more message.
abbrev pub after_send_he : Primitives → HeSession → Bytes → HeSession
after_send_he p a ck = record a {
  dr = after_send p a.dr ck;
  hks = record a.hks { nonce_counter = a.hks.nonce_counter + 1 };
}

module _ (p : Primitives) where
  encrypt_he_lem :
      (a : HeSession) (entropy : Result Bytes) (plaintext ad ck pk enc ct : Bytes)
      → a.dr.cks ≡ some ck
      → a.dr.dh_ratchet_performed ≡ false
      → public_key_from_private p a.dr.dhs ≡ ok pk
      → encrypt_header p
          (encode_header (record { ratchet_public_key = pk; pn = a.dr.pn; n = a.dr.ns }))
          a.hks
        ≡ (ok enc, record a.hks { nonce_counter = a.hks.nonce_counter + 1 })
      → Suite.encrypt p
          (derive_message_key p ck)
          plaintext
          (build_ad a.dr.config enc ad true)
          (effective_encrypt_info a.dr.config)
        ≡ ok ct
      → encrypt_he p entropy plaintext ad a ≡ (ok (enc, ct), after_send_he p a ck)
  unfolding encrypt_he send_on_chain_he
  encrypt_he_lem a entropy plaintext ad ck pk enc ct sending no_turn own hidden sealed =
      simp (no_turn, sending, own, hidden, sealed)

  -- The sessions behind a delivery.
  delivered-InSyncHe :
      (a b : HeSession) (gap : ℕ)
      → (y : InSyncHe p a b gap) → a.dr.ns + 1 < u32_mod
      → InSyncHe p
          (after_send_he p a (chain_key p gap y.base.ck))
          (after_delivery_he p (recorded_he b) y.base.pk y.base.idx y.base.nr gap y.base.ck)
          0
  unfolding delivered-InSync
  delivered-InSyncHe a b gap y fits =
      let d = delivered-InSync p a.dr b.dr gap y.base fits in
      record {
        base = record {
          pk = d.pk;
          idx = d.idx;
          nr = d.nr;
          ck = d.ck;
          sending = d.sending;
          no_turn = d.no_turn;
          own_key = d.own_key;
          held = d.held;
          at_chain = d.at_chain;
          number = d.number;
          valid = d.valid;
        };
        current = y.current;
        is_set = y.is_set;
        header_key = y.header_key;
        live = y.live;
        key_length = y.key_length;
        pn_fits = y.pn_fits;
      }

  -- With the documented behaviour of HMAC, HKDF and AES-CBC, in a pair of sessions in sync on the
  -- current chain, whose configurations mirror each other and that share a header key that is not
  -- zeroed, EncryptHE returns an encrypted header and a ciphertext that DecryptHE opens to the
  -- plaintext, and the sessions are in sync again without a gap, if the gap before is at most the
  -- receiver's MaxSkip, the receiver has stored no skipped key, the message's number is below
  -- 2^32 - 1, and a nonce is left.
  pub decrypt_he-encrypt_he :
      HmacLength p
      → HkdfReads p
      → CbcInverts p
      → (visit : Visit) (a b : HeSession) (gap : ℕ) (entropy : Result Bytes) (plaintext ad : Bytes)
      → IsRange visit
      → InSyncHe p a b gap
      → Mirrored a.dr.config b.dr.config
      → gap ≤ effective_max_skip (some b.dr.config)
      → b.dr.mk_skipped.entries ≡ []
      → a.dr.ns + 1 < u32_mod
      → a.hks.nonce_counter < max_uint64
      → (sent : Bytes × Bytes) × ((encrypt_he p entropy plaintext ad a).0 ≡ ok sent)
        × ((decrypt_he p visit sent.0 sent.1 ad b).0 ≡ ok plaintext)
        × InSyncHe p
            (encrypt_he p entropy plaintext ad a).1
            (decrypt_he p visit sent.0 sent.1 ad b).1
            0
  unfolding build_ad
  decrypt_he-encrypt_he hl reads cbc visit a b gap entropy plaintext ad range y m le nothing fits
        nonce =
      let x = y.base in
      let header : Header = record { ratchet_public_key = x.pk; pn = a.dr.pn; n = a.dr.ns } in
      let v : IsHeader header = record {
        key_length = y.key_length;
        pn_fits = y.pn_fits;
        n_fits = omega (arith, fits);
      } in
      let (enc, hidden, found) =
        decrypt_header-encrypt_header p hl cbc a.hks (encode_header header) y.live nonce in
      let sent_ad = build_ad a.dr.config enc ad true in
      let (ct, sealed, opened) =
        decrypt-encrypt p hl reads cbc (message_key p gap x.ck) plaintext sent_ad
          (effective_encrypt_info a.dr.config) in
      let same_ad : sent_ad ≡ build_ad b.dr.config enc ad false =
        ap (λ prefix. prefix ++ (ad ++ enc))
          (identity_ad_prefix_agree a.dr.config b.dr.config m.local_is_remote m.remote_is_local) in
      let sent =
        encrypt_he_lem a entropy plaintext ad (chain_key p gap x.ck) x.pk enc ct x.sending x.no_turn
          x.own_key hidden (unfold message_key in sealed) in
      let received =
        decrypt_he_lem p visit b header enc ct ad x.idx x.nr gap x.ck plaintext range nothing v
          (rw y.header_key found) y.is_set y.current (rw y.current x.held) x.at_chain x.valid
          x.number le fits (rw (← same_ad, ← m.same_info) opened) in
      (
        (enc, ct),
        ap (λ r. r.0) sent,
        ap (λ r. r.0) received,
        rw (sent, received) (delivered-InSyncHe a b gap y fits),
      )
