-- ===== src/Crypto/HeaderEncrypt/Laws.antt =====
-- Header encryption round trips, and never uses a nonce twice under one key.
use go_doubleratchet.Base.{
  ℕ, ◌+◌, ◌/◌, ◌%◌, ◌≤◌, ◌<◌, ◌≡◌, ◌≢◌, refl, sym, ap, ◌∙◌, false, ◌++◌, some, Bytes, length, take,
  drop, Result, ok, err, diverges, Bool-cases, inl, inr, nat_eqb, bytes_eqb_refl, arith,
  take-append, le→ltb, bind-eq-ok,
}
use go_doubleratchet.Base.Words.{put_uint32, put_uint64, uint32, u32_mod}
use go_doubleratchet.Primitives.{Primitives, HmacLength, CbcInverts}
use go_doubleratchet.Padding.{pkcs7_pad}
use go_doubleratchet.Padding.RoundTrip.{length-pkcs7_pad_bounds, pkcs7_unpad-pkcs7_pad}
use go_doubleratchet.Suite.RoundTrip.{cut_parts}
use go_doubleratchet.Crypto.{is_zeroed}
use go_doubleratchet.Crypto.HeaderEncrypt.{
  HeaderKey, max_uint64, header_key_info, nonce_of, as_found, derive_header_keys, seal_header,
  count_nonce, encrypt_header, decrypt_header,
}

length-nonce_of : (counter : ℕ) → length (nonce_of counter) ≡ 16
unfolding nonce_of put_uint64 put_uint32
length-nonce_of counter = refl

read_high : (v : ℕ) → uint32 (nonce_of v) ≡ v / u32_mod % u32_mod
unfolding nonce_of put_uint64 put_uint32 uint32
read_high v = omega arith

read_low : (v : ℕ) → uint32 (drop 4 (nonce_of v)) ≡ v % u32_mod
unfolding nonce_of put_uint64 put_uint32 uint32
read_low v = omega arith

-- Two uint64 counters with the same nonce are equal.
nonce_of_injective : (a b : ℕ) → a ≤ max_uint64 → b ≤ max_uint64 → nonce_of a ≡ nonce_of b → a ≡ b
nonce_of_injective a b fa fb e =
    let high : a / u32_mod % u32_mod ≡ b / u32_mod % u32_mod =
      sym (read_high a) ∙ ap uint32 e ∙ read_high b in
    let low : a % u32_mod ≡ b % u32_mod =
      sym (read_low a) ∙ ap (λ n. uint32 (drop 4 n)) e ∙ read_low b in
    omega arith

module _ (p : Primitives) where
  open p use {hmac_sha256, cbc_encrypt, cbc_decrypt}

  -- With the documented behaviour of HMAC and AES-CBC, under a key that is not zeroed and a counter
  -- below its maximum, EncryptHeader succeeds and moves the counter on by one, and DecryptHeader
  -- under the same key returns the header.
  pub decrypt_header-encrypt_header :
      HmacLength p
      → CbcInverts p
      → (hk : HeaderKey) (header : Bytes) → is_zeroed hk.key ≡ false
      → hk.nonce_counter < max_uint64
      → (c : Bytes) × (encrypt_header p header hk
          ≡ (ok c, record hk { nonce_counter = hk.nonce_counter + 1 }))
        × (decrypt_header p hk.key c ≡ ok (some header))
  unfolding encrypt_header seal_header count_nonce decrypt_header as_found derive_header_keys
  decrypt_header-encrypt_header hl cbc hk header live fits =
      let nonce = nonce_of hk.nonce_counter in
      let keys = derive_header_keys p hk.key header_key_info in
      let pad = pkcs7_pad header 16 in
      let (ct, enc, lc, dec) =
        cbc keys.0 nonce pad (hl _ _) (length-nonce_of hk.nonce_counter)
          (length-pkcs7_pad_bounds header 16 (omega arith)).0 in
      let tag = hmac_sha256 keys.1 (nonce ++ ct) in
      let c = nonce ++ (ct ++ tag) in
      let (l, at_nonce, at_ct, at_tag) =
        cut_parts nonce ct tag (length-nonce_of hk.nonce_counter) (hl _ _) in
      let below : nat_eqb hk.nonce_counter max_uint64 ≡ false = ground arith in
      (
        c,
        rw (live, below, enc) refl,
        rw
            (
              live,
              le→ltb (length c) 48 (omega arith),
              at_nonce,
              at_ct,
              at_tag,
              bytes_eqb_refl tag,
              dec,
              pkcs7_unpad-pkcs7_pad header 16 (omega arith) (omega arith),
            )
            refl,
      )

  seal_header-nonce :
      (header c : Bytes) (counter : ℕ) (keys : Bytes × Bytes)
      → seal_header p header (nonce_of counter) keys ≡ ok c
      → take 16 c ≡ nonce_of counter
  unfolding seal_header
  seal_header-nonce header c counter keys h =
      let (ct, enc, e) =
        bind-eq-ok (cbc_encrypt keys.0 (nonce_of counter) (pkcs7_pad header 16)) _ h in
      let same : nonce_of counter ++ (ct ++ hmac_sha256 keys.1 (nonce_of counter ++ ct)) ≡ c =
        ground (arith, e) in
      rw (← same) (take-append 16 (nonce_of counter) _ (length-nonce_of counter))

  count_nonce-ok :
      (r : Result Bytes) (hk : HeaderKey) (c : Bytes) → (count_nonce p r hk).0 ≡ ok c → r ≡ ok c
  unfolding count_nonce
  count_nonce-ok (ok x) hk c h = h
  count_nonce-ok (err x) hk c h = h
  count_nonce-ok diverges hk c h = h

  pub encrypt_header-take :
      (hk : HeaderKey) (header c : Bytes)
      → (encrypt_header p header hk).0 ≡ ok c
      → take 16 c ≡ nonce_of hk.nonce_counter
  unfolding encrypt_header
  encrypt_header-take hk header c h =
      let sealed =
        seal_header p header (nonce_of hk.nonce_counter)
          (derive_header_keys p hk.key header_key_info) in
      elim (Bool-cases (is_zeroed hk.key)) [
        | inl zeroed ↦ absurd (ground (arith, h))
        | inr live ↦ elim (Bool-cases (nat_eqb hk.nonce_counter max_uint64)) [
          | inl end ↦ absurd (ground (arith, h))
          | inr below ↦
              seal_header-nonce header c hk.nonce_counter _
                (count_nonce-ok sealed hk c (rw (live, below) at h))
        ]
      ]

  -- Two calls of EncryptHeader that succeed under different uint64 counters begin their results with
  -- different nonces.
  pub encrypt_header-nonce :
      (hk1 hk2 : HeaderKey) (header1 header2 c1 c2 : Bytes)
      → hk1.nonce_counter ≤ max_uint64
      → hk2.nonce_counter ≤ max_uint64
      → (encrypt_header p header1 hk1).0 ≡ ok c1
      → (encrypt_header p header2 hk2).0 ≡ ok c2
      → hk1.nonce_counter ≢ hk2.nonce_counter
      → take 16 c1 ≢ take 16 c2
  encrypt_header-nonce hk1 hk2 header1 header2 c1 c2 f1 f2 e1 e2 ne same = ne (
      nonce_of_injective hk1.nonce_counter hk2.nonce_counter f1 f2 (
        sym (encrypt_header-take hk1 header1 c1 e1) ∙ same ∙ encrypt_header-take hk2 header2 c2 e2))
