-- ===== src/Crypto/HeaderEncrypt.antt =====
-- internal/crypto/header_encrypt.go: headers under a header key with a nonce counter.
pub mod Laws
use go_doubleratchet.Base.{
  ℕ, ◌+◌, ◌-◌, Bool, true, false, List, [], ◌∷◌, ◌++◌, Option, none, some, Bytes, length, take,
  drop, replicate, Result, ok, err, diverges, bind, Method, invalid_header_key,
  invalid_nonce_counter, ltb, nat_eqb, not, bytes_eqb, if◌then◌else◌,
}
use go_doubleratchet.Base.Words.{put_uint64}
use go_doubleratchet.Primitives.{Primitives}
use go_doubleratchet.Padding.{pkcs7_pad, pkcs7_unpad}
use go_doubleratchet.Crypto.{is_zeroed}

-- The counter is a uint64.
pub record HeaderKey : Type 0 where
  pub key : Bytes
  pub nonce_counter : ℕ

-- `math.MaxUint64`
abbrev pub max_uint64 : ℕ
max_uint64 = 18446744073709551615

abbrev pub header_key_info : Bytes
header_key_info =
    b'D' ∷ b'o' ∷ b'u' ∷ b'b' ∷ b'l' ∷ b'e' ∷ b'R' ∷ b'a' ∷ b't' ∷ b'c' ∷ b'h' ∷ b'e' ∷ b't' ∷ b'H'
    ∷ b'e' ∷ b'a' ∷ b'd' ∷ b'e' ∷ b'r' ∷ b'K' ∷ b'e' ∷ b'y' ∷ []

-- `PutUint64(nonce[:8], counter)` into 16 zero bytes
unfoldable pub nonce_of : ℕ → Bytes
nonce_of counter = put_uint64 counter ++ replicate 8 0

-- What the caller gets of an unpadded header: an error counts as a failure.
unfoldable pub as_found : Result Bytes → Result (Option Bytes)
as_found (ok plaintext) = ok (some plaintext)
as_found (err _) = ok none
as_found diverges = diverges

module _ (p : Primitives) where
  open p use {hmac_sha256, cbc_encrypt, cbc_decrypt}

  -- the AES key and the MAC key
  unfoldable pub derive_header_keys : Bytes → Bytes → Bytes × Bytes
  derive_header_keys header_key info = (
    hmac_sha256 header_key (info ++ (b'a' ∷ b'e' ∷ b's' ∷ [])),
    hmac_sha256 header_key (info ++ (b'm' ∷ b'a' ∷ b'c' ∷ [])),
  )

  -- The nonce, the encrypted body and the tag.
  unfoldable pub seal_header : Bytes → Bytes → Bytes × Bytes → Result Bytes
  seal_header header nonce (aes_key, mac_key) =
      bind (cbc_encrypt aes_key nonce (pkcs7_pad header 16))
        λ ct. ok (nonce ++ (ct ++ hmac_sha256 mac_key (nonce ++ ct)))

  -- `hk.NonceCounter++` on success, and no change on an error
  unfoldable pub count_nonce : Result Bytes → Method HeaderKey Bytes
  count_nonce (ok c) hk = (ok c, record hk { nonce_counter = hk.nonce_counter + 1 })
  count_nonce (err e) hk = (err e, hk)
  count_nonce diverges hk = (diverges, hk)

  unfoldable pub encrypt_header : Bytes → Method HeaderKey Bytes
  encrypt_header header hk =
      if is_zeroed hk.key
      then (err invalid_header_key, hk)
      else (if nat_eqb hk.nonce_counter max_uint64
          then (err invalid_nonce_counter, hk)
          else count_nonce
              (seal_header header (nonce_of hk.nonce_counter)
                (derive_header_keys hk.key header_key_info))
              hk)

  -- A false result is `none`. CryptBlocks panics on a body that is not a whole number of blocks: its
  -- outcome is that of the primitive.
  unfoldable pub decrypt_header : Bytes → Bytes → Result (Option Bytes)
  decrypt_header hk ciphertext =
      let tag_offset = length ciphertext - 32 in
      let nonce = take 16 ciphertext in
      let ct = drop 16 (take tag_offset ciphertext) in
      let tag = drop tag_offset ciphertext in
      let keys = derive_header_keys hk header_key_info in
      let opened = bind (cbc_decrypt keys.0 nonce ct) λ plaintext. pkcs7_unpad plaintext 16 in
      if is_zeroed hk
      then ok none
      else (if ltb (length ciphertext) 48
          then ok none
          else (if not (bytes_eqb tag (hmac_sha256 keys.1 (nonce ++ ct)))
              then ok none
              else as_found opened))
