-- ===== src/Suite.antt =====
-- internal/suite/suite.go: AES-256-CBC with HMAC-SHA256 under keys derived from a message key.
pub mod RoundTrip
use go_doubleratchet.Base.{
  ℕ, ◌+◌, ◌-◌, ◌%◌, List, [], ◌++◌, Bytes, length, take, drop, Result, ok, err, bind,
  ciphertext_short, ciphertext_len_invalid, auth_failed, ltb, nat_eqb, not, ◌||◌, bytes_eqb,
  if◌then◌else◌,
}
use go_doubleratchet.Primitives.{Primitives}
use go_doubleratchet.Padding.{pkcs7_pad, pkcs7_unpad}

module _ (p : Primitives) where
  open p use {hmac_sha256, hkdf_sha256, cbc_encrypt, cbc_decrypt}

  -- the encryption key, the authentication key and the IV
  unfoldable pub derive_keys : Bytes → Bytes → Result (Bytes × Bytes × Bytes)
  derive_keys msg_key info =
      bind (hkdf_sha256 msg_key [] info 80)
        λ derived. ok (take 32 derived, take 32 (drop 32 derived), take 16 (drop 64 derived))

  unfoldable pub encrypt : Bytes → Bytes → Bytes → Bytes → Result Bytes
  encrypt msg_key plaintext ad info = bind (derive_keys msg_key info) λ (enc_key, auth_key, iv).
      bind (cbc_encrypt enc_key iv (pkcs7_pad plaintext 16))
        λ ct. ok (iv ++ (ct ++ hmac_sha256 auth_key (ad ++ (iv ++ ct))))

  -- the middle of the ciphertext, checked and decrypted
  unfoldable pub open_body : Bytes → Bytes → Bytes → Bytes → Bytes → Bytes → Result Bytes
  open_body enc_key auth_key iv ct tag ad =
      if nat_eqb (length ct) 0 || not (nat_eqb (length ct % 16) 0)
      then err ciphertext_len_invalid
      else (if not (bytes_eqb tag (hmac_sha256 auth_key (ad ++ (iv ++ ct))))
          then err auth_failed
          else bind (cbc_decrypt enc_key iv ct) λ plaintext. pkcs7_unpad plaintext 16)

  unfoldable pub decrypt : Bytes → Bytes → Bytes → Bytes → Result Bytes
  decrypt msg_key ciphertext ad info =
      if ltb (length ciphertext) 48
      then err ciphertext_short
      else bind (derive_keys msg_key info) λ (enc_key, auth_key, _).
        let tag_offset = length ciphertext - 32 in
        let iv = take 16 ciphertext in
        let ct = drop 16 (take tag_offset ciphertext) in
        let tag = drop tag_offset ciphertext in open_body enc_key auth_key iv ct tag ad
