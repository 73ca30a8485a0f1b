-- ===== src/Tests/Headers.antt =====
-- Header encryption on concrete inputs.
use native.Mathlib.Omega.{arith}
use go_doubleratchet.Base.{
  ℕ, ◌≡◌, ◌≢◌, refl, false, [], ◌∷◌, ◌++◌, some, Bytes, take, replicate, ok,
}
use go_doubleratchet.Base.Words.{put_uint32, put_uint64}
use go_doubleratchet.Padding.{pkcs7_pad}
use go_doubleratchet.Crypto.{is_zeroed}
use go_doubleratchet.Crypto.HeaderEncrypt.{
  HeaderKey, nonce_of, derive_header_keys, seal_header, count_nonce, encrypt_header, decrypt_header,
}
use go_doubleratchet.Crypto.HeaderEncrypt.Laws.{decrypt_header-encrypt_header, encrypt_header-nonce}
use go_doubleratchet.Tests.Toy.{toy, toy-HmacLength, toy-CbcInverts}

abbrev header_key : ℕ → HeaderKey
header_key counter = record { key = replicate 32 7; nonce_counter = counter }

abbrev plain : Bytes
plain = 1 ∷ 2 ∷ 3 ∷ []

live : is_zeroed (replicate 32 7) ≡ false
unfolding is_zeroed
live = refl

decrypt_header-encrypt_header_example :
    (c : Bytes) × (encrypt_header toy plain (header_key 5) ≡ (ok c, header_key 6))
    × (decrypt_header toy (replicate 32 7) c ≡ ok (some plain))
decrypt_header-encrypt_header_example =
    decrypt_header-encrypt_header toy toy-HmacLength toy-CbcInverts (header_key 5) plain live
      (omega arith)

abbrev nonce : ℕ → Bytes
nonce n = replicate 7 0 ++ (n ∷ replicate 8 0)

abbrev sealed_with : Bytes → ℕ → Bytes
sealed_with start tag = start ++ (plain ++ (replicate 13 13 ++ replicate 32 tag))

encrypt_5 : (encrypt_header toy plain (header_key 5)).0 ≡ ok (sealed_with (nonce 5) 44)
unfolding encrypt_header is_zeroed count_nonce seal_header nonce_of put_uint64 put_uint32
    derive_header_keys pkcs7_pad
encrypt_5 = refl

encrypt_6 : (encrypt_header toy plain (header_key 6)).0 ≡ ok (sealed_with (nonce 6) 47)
unfolding encrypt_header is_zeroed count_nonce seal_header nonce_of put_uint64 put_uint32
    derive_header_keys pkcs7_pad
encrypt_6 = refl

encrypt_header-nonce_example :
    take 16 (sealed_with (nonce 5) 44) ≢ take 16 (sealed_with (nonce 6) 47)
encrypt_header-nonce_example =
    encrypt_header-nonce toy (header_key 5) (header_key 6) plain plain (sealed_with (nonce 5) 44)
      (sealed_with (nonce 6) 47) (omega arith) (omega arith) encrypt_5 encrypt_6
      (λ e. omega (arith, e))
