-- ===== src/Suite/RoundTrip.antt =====
-- Decryption inverts encryption, and accepts nothing whose tag is not the right one.
use go_doubleratchet.Base.{
  ◌+◌, ◌-◌, ◌%◌, ◌≤◌, ◌<◌, ◌≡◌, Bool-cases, inl, inr, bind-eq-ok, refl, [], ◌++◌, Bytes, length,
  take, drop, ok, ltb, bytes_eqb_refl, bytes_eqb_iff, arith, length-append, length-take,
  length-drop, take-append, drop-append, append_assoc, ap, sym, ◌∙◌, le→ltb,
}
use go_doubleratchet.Primitives.{Primitives, HmacLength, HkdfReads, CbcInverts}
use go_doubleratchet.Padding.{pkcs7_pad}
use go_doubleratchet.Padding.RoundTrip.{length-pkcs7_pad_bounds, pkcs7_unpad-pkcs7_pad}
use go_doubleratchet.Suite.{derive_keys, encrypt, open_body, decrypt}

-- The three slices that Decrypt cuts a ciphertext into.
pub cut_parts :
    (iv ct tag : Bytes)
    → length iv ≡ 16
    → length tag ≡ 32
    → let c = iv ++ (ct ++ tag) in
      (length c ≡ 48 + length ct)
      × (take 16 c ≡ iv)
      × (drop 16 (take (length c - 32) c) ≡ ct)
      × (drop (length c - 32) c ≡ tag)
cut_parts iv ct tag li lt =
    let c = iv ++ (ct ++ tag) in
    let l : length c ≡ 48 + length ct =
      omega (arith, length-append iv (ct ++ tag), length-append ct tag) in
    let o : length (iv ++ ct) ≡ length c - 32 = omega (arith, length-append iv ct) in
    let regroup : c ≡ (iv ++ ct) ++ tag = sym (append_assoc iv ct tag) in
    let n = length c - 32 in
    let front : take n c ≡ iv ++ ct = ap (take n) regroup ∙ take-append n (iv ++ ct) tag o in
    let back : drop n c ≡ tag = ap (drop n) regroup ∙ drop-append n (iv ++ ct) tag o in
    (l, take-append 16 iv (ct ++ tag) li, ap (drop 16) front ∙ drop-append 16 iv ct li, back)

module _ (p : Primitives) where
  open p use {hmac_sha256, hkdf_sha256, cbc_encrypt, cbc_decrypt}

  -- The three keys that a message key is expanded to, with their lengths.
  derive_keys_lengths :
      HkdfReads p
      → (msg_key info : Bytes)
      → (enc_key : Bytes) × (auth_key : Bytes) × (iv : Bytes) × (derive_keys p msg_key info
          ≡ ok (enc_key, auth_key, iv))
        × (length enc_key ≡ 32)
        × (length iv ≡ 16)
  unfolding derive_keys
  derive_keys_lengths reads msg_key info =
      let (out, read, l) = reads msg_key [] info 80 (omega arith) in
      (
        take 32 out,
        take 32 (drop 32 out),
        take 16 (drop 64 out),
        rw read refl,
        omega (arith, length-take 32 out),
        omega (arith, length-take 16 (drop 64 out), length-drop 64 out),
      )

  open_body_lem :
      HmacLength p
      → CbcInverts p
      → (enc_key auth_key iv plaintext ad ct : Bytes) → length enc_key ≡ 32
      → length iv ≡ 16
      → length ct ≡ length (pkcs7_pad plaintext 16)
      → cbc_decrypt enc_key iv ct ≡ ok (pkcs7_pad plaintext 16)
      → open_body p enc_key auth_key iv ct (hmac_sha256 auth_key (ad ++ (iv ++ ct))) ad
        ≡ ok plaintext
  unfolding open_body
  open_body_lem hl cbc enc_key auth_key iv plaintext ad ct ke ki lc dec =
      rw (bytes_eqb_refl (hmac_sha256 auth_key (ad ++ (iv ++ ct))), dec)
        (ground (
          arith,
          length-pkcs7_pad_bounds plaintext 16 (omega arith),
          pkcs7_unpad-pkcs7_pad plaintext 16 (omega arith) (omega arith),
        ))

  -- With the documented behaviour of HMAC, HKDF and AES-CBC, encryption succeeds, and decryption
  -- under the same message key, associated data and info returns the plaintext.
  pub decrypt-encrypt :
      HmacLength p
      → HkdfReads p
      → CbcInverts p
      → (msg_key plaintext ad info : Bytes)
      → (c : Bytes) × (encrypt p msg_key plaintext ad info ≡ ok c)
        × (decrypt p msg_key c ad info ≡ ok plaintext)
  unfolding encrypt decrypt
  decrypt-encrypt hl reads cbc msg_key plaintext ad info =
      let (enc_key, auth_key, iv, keys, le, li) = derive_keys_lengths reads msg_key info in
      let pad = pkcs7_pad plaintext 16 in
      let (ct, enc, lc, dec) =
        cbc enc_key iv pad le li (length-pkcs7_pad_bounds plaintext 16 (omega arith)).0 in
      let tag = hmac_sha256 auth_key (ad ++ (iv ++ ct)) in
      let c = iv ++ (ct ++ tag) in
      let (l, at_iv, at_ct, at_tag) = cut_parts iv ct tag li (hl auth_key (ad ++ (iv ++ ct))) in
      (
        c,
        rw (keys, enc) refl,
        rw (le→ltb (length c) 48 (omega arith), keys, at_iv, at_ct, at_tag)
            (open_body_lem hl cbc enc_key auth_key iv plaintext ad ct le li lc dec),
      )

  open_body_authentic :
      (enc_key auth_key iv ct tag ad plaintext : Bytes)
      → open_body p enc_key auth_key iv ct tag ad ≡ ok plaintext
      → (length ct % 16 ≡ 0) × (0 < length ct) × (tag ≡ hmac_sha256 auth_key (ad ++ (iv ++ ct)))
  unfolding open_body
  open_body_authentic enc_key auth_key iv ct tag ad plaintext h =
      ground (arith, bytes_eqb_iff tag (hmac_sha256 auth_key (ad ++ (iv ++ ct))))

  -- Whatever Decrypt accepts carries the right tag: it splits into an IV, a non-empty body of whole
  -- blocks and the HMAC of the associated data, the IV and the body under the authentication key of
  -- the message key.
  pub decrypt_authentic :
      (msg_key c ad info plaintext : Bytes)
      → decrypt p msg_key c ad info ≡ ok plaintext
      → let iv = take 16 c in
        let ct = drop 16 (take (length c - 32) c) in
        (keys : Bytes × Bytes × Bytes) × (derive_keys p msg_key info ≡ ok keys)
        × (48 ≤ length c)
        × (length ct % 16 ≡ 0)
        × (0 < length ct)
        × (drop (length c - 32) c ≡ hmac_sha256 keys.1 (ad ++ (iv ++ ct)))
  unfolding decrypt
  decrypt_authentic msg_key c ad info plaintext h = elim (Bool-cases (ltb (length c) 48)) [
    | inl short ↦ absurd (ground arith)
    | inr long ↦
        let n = length c - 32 in
        let (keys, e, opened) =
          bind-eq-ok (derive_keys p msg_key info)
            (λ (k : Bytes × Bytes × Bytes).
              open_body p k.0 k.1 (take 16 c) (drop 16 (take n c)) (drop n c) ad)
            (rw long at h) in
        let (whole, some_, tag) =
          open_body_authentic keys.0 keys.1 (take 16 c) (drop 16 (take n c)) (drop n c) ad plaintext
            opened in
        (keys, e, ground arith, whole, some_, tag)
  ]
