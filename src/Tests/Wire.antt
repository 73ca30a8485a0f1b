-- ===== src/Tests/Wire.antt =====
-- Padding, suite, options and headers on concrete inputs.
use native.Mathlib.Omega.{arith}
use go_doubleratchet.Base.{
  ◌-◌, ◌%◌, ◌<◌, ◌≤◌, ◌≡◌, refl, [], ◌∷◌, ◌++◌, some, Bytes, length, take, drop, replicate, ok, err,
  auth_failed, bytes_eqb,
}
use go_doubleratchet.Padding.{pkcs7_pad, pkcs7_unpad, all_eqb}
use go_doubleratchet.Padding.RoundTrip.{pkcs7_unpad-pkcs7_pad, pkcs7_pad-pkcs7_unpad}
use go_doubleratchet.Suite.{derive_keys, open_body, encrypt, decrypt}
use go_doubleratchet.Suite.RoundTrip.{decrypt-encrypt, decrypt_authentic}
use go_doubleratchet.Config.{Config, default_config, zero_key, validate, validate_config}
use go_doubleratchet.Message.{Header, IsHeader, encode_header, decode_header}
use go_doubleratchet.Message.RoundTrip.{decode_header-encode_header}
use go_doubleratchet.Tests.Toy.{toy, toy-HmacLength, toy-HkdfReads, toy-CbcInverts}

abbrev three : Bytes
three = 1 ∷ 2 ∷ 3 ∷ []

abbrev three_padded : Bytes
three_padded = three ++ replicate 13 13

pkcs7_unpad-pkcs7_pad_example : pkcs7_unpad (pkcs7_pad three 16) 16 ≡ ok three
pkcs7_unpad-pkcs7_pad_example = pkcs7_unpad-pkcs7_pad three 16 (omega arith) (omega arith)

unpad_three : pkcs7_unpad three_padded 16 ≡ ok three
unfolding pkcs7_unpad all_eqb
unpad_three = refl

pkcs7_pad-pkcs7_unpad_example : pkcs7_pad three 16 ≡ three_padded
pkcs7_pad-pkcs7_unpad_example =
    pkcs7_pad-pkcs7_unpad three_padded three 16 (omega arith) unpad_three

abbrev key : Bytes
key = replicate 32 7

abbrev sealed_three : Bytes
sealed_three = replicate 16 64 ++ (three_padded ++ replicate 32 33)

decrypt-encrypt_example :
    (c : Bytes) × (encrypt toy key three [] [] ≡ ok c) × (decrypt toy key c [] [] ≡ ok three)
decrypt-encrypt_example =
    decrypt-encrypt toy toy-HmacLength toy-HkdfReads toy-CbcInverts key three [] []

sealing_run : encrypt toy key three [] [] ≡ ok sealed_three
unfolding encrypt derive_keys pkcs7_pad
sealing_run = refl

opening_run : decrypt toy key sealed_three [] [] ≡ ok three
unfolding decrypt derive_keys open_body pkcs7_unpad all_eqb bytes_eqb
opening_run = refl

-- A changed byte of the body.
decrypt_tampered :
    decrypt toy key (replicate 16 64 ++ (9 ∷ drop 17 sealed_three)) [] [] ≡ err auth_failed
unfolding decrypt derive_keys open_body bytes_eqb
decrypt_tampered = refl

decrypt_authentic_example :
    (keys : Bytes × Bytes × Bytes) × (derive_keys toy key [] ≡ ok keys)
    × (48 ≤ length sealed_three)
    × (length (drop 16 (take (length sealed_three - 32) sealed_three)) % 16 ≡ 0)
    × (0 < length (drop 16 (take (length sealed_three - 32) sealed_three)))
    × (drop (length sealed_three - 32) sealed_three
        ≡ toy.hmac_sha256 keys.1 (
            [] ++ (take 16 sealed_three ++ drop 16 (take (length sealed_three - 32) sealed_three))))
decrypt_authentic_example = decrypt_authentic toy key sealed_three [] [] three opening_run

abbrev identities : Config
identities = record default_config {
  local_identity_key = replicate 32 1;
  remote_identity_key = replicate 32 2;
}

abbrev swapped_identities : Config
swapped_identities = record default_config {
  local_identity_key = replicate 32 2;
  remote_identity_key = replicate 32 1;
}

identities_pass : validate (some identities) ≡ ok tt
unfolding validate validate_config zero_key bytes_eqb
identities_pass = refl

abbrev header : Header
header = record { ratchet_public_key = replicate 32 72; pn = 258; n = 65536 }

header-IsHeader : IsHeader header
header-IsHeader = record { key_length = refl; pn_fits = omega arith; n_fits = omega arith }

decode_header-encode_header_example : decode_header (encode_header header ++ three) ≡ ok header
decode_header-encode_header_example = decode_header-encode_header header three header-IsHeader
