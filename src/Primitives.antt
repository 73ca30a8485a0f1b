-- ===== src/Primitives.antt =====
-- The packages outside the repository that its code calls: crypto/hmac with crypto/sha256,
-- golang.org/x/crypto/hkdf and curve25519, crypto/aes with crypto/cipher. They are parameters of
-- everything that uses them. What their documentation promises is stated here as predicates, which
-- theorems take as hypotheses where they need them.
use go_doubleratchet.Base.{ℕ, ◌%◌, ◌≤◌, ◌<◌, ◌≡◌, Bytes, Result, ok, length, All}

pub record Primitives : Type 0 where
  -- `hmac.New(sha256.New, key)`, one or more writes that come to the second argument, `Sum(nil)`
  pub hmac_sha256 : Bytes → Bytes → Bytes
  -- `io.ReadFull(hkdf.New(sha256.New, secret, salt, info), buf)` with the length of `buf`
  pub hkdf_sha256 : Bytes → Bytes → Bytes → ℕ → Result Bytes
  -- `curve25519.X25519(scalar, point)`
  pub x25519 : Bytes → Bytes → Result Bytes
  -- `curve25519.Basepoint`
  pub basepoint : Bytes
  -- `aes.NewCipher(key)`, then `cipher.NewCBCEncrypter(block, iv)` or `NewCBCDecrypter` over the
  -- whole third argument
  pub cbc_encrypt : Bytes → Bytes → Bytes → Result Bytes
  pub cbc_decrypt : Bytes → Bytes → Bytes → Result Bytes

-- A slice of bytes.
abbrev pub IsBytes : Bytes → Type 0
IsBytes = All (λ x. x < 256)

module _ (p : Primitives) where
  open p use {hmac_sha256, hkdf_sha256, x25519, basepoint, cbc_encrypt, cbc_decrypt}

  -- SHA-256 has 32 bytes.
  abbrev pub HmacLength : Type 0
  HmacLength = (key message : Bytes) → length (hmac_sha256 key message) ≡ 32

  -- HKDF gives up to 255 blocks of 32 bytes, and never fails below that.
  abbrev pub HkdfReads : Type 0
  HkdfReads =
      (secret salt info : Bytes) (n : ℕ)
      → n ≤ 8160
      → (out : Bytes) × (hkdf_sha256 secret salt info n ≡ ok out) × (length out ≡ n)

  -- A 32-byte key selects AES-256. In CBC mode a whole number of blocks is mapped to as many bytes,
  -- and decryption under the same key and IV inverts encryption.
  abbrev pub CbcInverts : Type 0
  CbcInverts =
      (key iv plaintext : Bytes)
      → length key ≡ 32
      → length iv ≡ 16
      → length plaintext % 16 ≡ 0
      → (ct : Bytes) × (cbc_encrypt key iv plaintext ≡ ok ct)
        × (length ct ≡ length plaintext)
        × (cbc_decrypt key iv ct ≡ ok plaintext)

-- A public key that belongs to a private key.
abbrev pub IsPair : Primitives → Bytes → Bytes → Type 0
IsPair p priv pub_key = p.x25519 priv p.basepoint ≡ ok pub_key

-- X25519 gives 32 bytes, and the multiplications by two scalars commute.
abbrev pub X25519Length : Primitives → Type 0
X25519Length p = (a b c : Bytes) → p.x25519 a b ≡ ok c → length c ≡ 32

abbrev pub X25519Commutes : Primitives → Type 0
X25519Commutes p =
    (a b a_pub b_pub : Bytes)
    → IsPair p a a_pub
    → IsPair p b b_pub
    → p.x25519 a b_pub ≡ p.x25519 b a_pub
