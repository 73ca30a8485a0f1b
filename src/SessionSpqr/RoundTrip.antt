-- ===== src/SessionSpqr/RoundTrip.antt =====
-- What the one side of the post-quantum ratchet encrypts, the other decrypts, across the epochs.
use go_doubleratchet.Base.{
  ℕ, ◌≡◌, refl, sym, ap, ◌∙◌, true, false, ◌++◌, Option, some, Bytes, ok, bind-eq-ok,
  continue-eq-ok, nat_eq, subst, ok-injective,
}
use go_doubleratchet.Primitives.{Primitives, HmacLength, HkdfReads, CbcInverts}
use go_doubleratchet.Config.{Config, effective_encrypt_info}
use go_doubleratchet.Config.Laws.{identity_ad_prefix_agree}
use go_doubleratchet.Message.{SckaHeader, encode_scka_header}
use go_doubleratchet.Scka.{Provider}
use go_doubleratchet.Suite.RoundTrip.{decrypt-encrypt}
use go_doubleratchet.Session.{build_ad}
use go_doubleratchet.Session.RoundTrip.{Mirrored}
use go_doubleratchet.SessionSpqr.{SpqrSession}
use go_doubleratchet.SessionSpqr.Methods.{
  send_key, encrypt_message_spqr, encrypt_spqr, receive_key, decrypt_message_spqr, decrypt_spqr,
}
use go_doubleratchet.SessionSpqr.Atomic.{KeptSpqr, send_key-Preserves, receive_key-Preserves}
use go_doubleratchet.SessionSpqr.Adopt.{Paired}
use go_doubleratchet.SessionSpqr.KeyAgreement.{receive_key-send_key}

module _ {P : Type 0} (p : Primitives) {S : Type 0} (scka : Provider P S) where
  decrypt_message-encrypt_message :
      HmacLength p
      → HkdfReads p
      → CbcInverts p
      → (config_a config_b : Config) (key plaintext ad ct : Bytes) (header : SckaHeader)
      → Mirrored config_a config_b
      → encrypt_message_spqr p config_a key plaintext header ad ≡ ok ct
      → decrypt_message_spqr p config_b key ct header ad ≡ ok plaintext
  unfolding encrypt_message_spqr decrypt_message_spqr build_ad
  decrypt_message-encrypt_message hl reads cbc config_a config_b key plaintext ad ct header m h =
      let (header_bytes, coded, h1) = bind-eq-ok (encode_scka_header (some header)) _ h in
      let sent_ad = build_ad config_a header_bytes ad true in
      let (ct', sealed, opened) =
        decrypt-encrypt p hl reads cbc key plaintext sent_ad (effective_encrypt_info config_a) in
      let same_ad : sent_ad ≡ build_ad config_b header_bytes ad false =
        ap (λ prefix. prefix ++ (ad ++ header_bytes))
          (identity_ad_prefix_agree config_a config_b m.local_is_remote m.remote_is_local) in
      let same : ct' ≡ ct = ok-injective ct' ct (sym sealed ∙ h1) in
      rw coded (rw (← same, ← same_ad, ← m.same_info) opened)

  -- With the documented behaviour of HMAC, HKDF and AES-CBC, if the receiver has got all that the
  -- sender has sent, their configurations mirror each other, and the receiver's provider reports
  -- for the message of the sender's provider the epoch and the output key that it was sent with,
  -- then Decrypt opens what Encrypt returns, also when the message starts a new epoch, and the
  -- receiver has again got all that was sent.
  pub decrypt_spqr-encrypt_spqr :
      HmacLength p
      → HkdfReads p
      → CbcInverts p
      → (a b : SpqrSession P) (plaintext ad : Bytes) (sent : SckaHeader × Bytes) (msg : Bytes)
        (e : ℕ) (key : Option Bytes) (key_epoch : ℕ)
      → Paired a b
      → Mirrored a.config b.config
      → (scka.send a.scka).0 ≡ ok (msg, e, key, key_epoch)
      → (scka.receive msg b.scka).0 ≡ ok (e, key, key_epoch)
      → (encrypt_spqr p scka plaintext ad a).0 ≡ ok sent
      → ((decrypt_spqr p scka sent.0 sent.1 ad b).0 ≡ ok plaintext)
        × Paired (encrypt_spqr p scka plaintext ad a).1 (decrypt_spqr p scka sent.0 sent.1 ad b).1
  unfolding encrypt_spqr decrypt_spqr
  decrypt_spqr-encrypt_spqr hl reads cbc a b plaintext ad sent msg e key key_epoch y m given
        received h =
      let (keyed, derived, h1, e1) =
        continue-eq-ok {B = SckaHeader × Bytes} (send_key p scka a).0 (send_key p scka a).1 _ h in
      let (agreed, y') =
        receive_key-send_key p scka a b keyed msg e key key_epoch y given received derived in
      let header : SckaHeader = record { msg = keyed.0; n = keyed.1 } in
      let a2 = (send_key p scka a).1 in
      let b2 = (receive_key p scka header b).1 in
      let kept_a : KeptSpqr a a2 =
        send_key-Preserves p scka a a
          (record { config = refl; max_skip = refl; direction = refl }) in
      let kept_b : KeptSpqr b b2 =
        receive_key-Preserves p scka b header b
          (record { config = refl; max_skip = refl; direction = refl }) in
      let (ct, sealed, h2, e2) =
        continue-eq-ok {B = SckaHeader × Bytes}
          (encrypt_message_spqr p a2.config keyed.2 plaintext header ad) a2 _ h1 in
      let opened =
        decrypt_message-encrypt_message hl reads cbc a.config b.config keyed.2 plaintext ad ct
          header m (rw kept_a.config at sealed) in
      let opened' : decrypt_message_spqr p b2.config keyed.2 ct header ad ≡ ok plaintext =
        rw kept_b.config opened in
      let received_all : decrypt_spqr p scka header ct ad b ≡ (ok plaintext, b2) =
        simp (agreed, opened') in
      let same : (header, ct) ≡ sent = ok-injective _ sent h2 in
      subst
        (λ (x : SckaHeader × Bytes).
          ((decrypt_spqr p scka x.0 x.1 ad b).0 ≡ ok plaintext)
          × Paired (encrypt_spqr p scka plaintext ad a).1 (decrypt_spqr p scka x.0 x.1 ad b).1)
        same (ap (λ r. r.0) received_all, rw (e1, e2, received_all) y')
