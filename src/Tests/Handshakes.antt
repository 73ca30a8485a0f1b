-- ===== src/Tests/Handshakes.antt =====
-- A key agreement on concrete inputs.
use go_doubleratchet.Base.{
  ◌≡◌, refl, sym, ap, true, false, [], ◌∷◌, ◌++◌, some, Bytes, length, replicate, ok, bytes_eqb,
}
use go_doubleratchet.EcUtil.{
  Edwards, generate_x25519_key_pair, dh_x25519, validate_public_key, scalar_is_in_range, below_from,
  has_valid_point, is_torsion_free, montgomery_u_to_edwards_y_bytes, xeddsa_verify, verify_with,
  check_signature,
}
use go_doubleratchet.X3dh.{
  IdentityKey, SignedPreKey, OneTimePreKey, InitialMessage, HandshakeResult, build_ad, append_dh,
  derive_x3dh_sk, send_dh4, send_keys, send_handshake, receive_handshake, validate_optional,
}
use go_doubleratchet.X3dh.Agreement.{bundle_of, handshake_agrees}
use go_doubleratchet.Tests.Toy.{toy, toy-X25519Length, toy-X25519Commutes, ok_value}

-- Every element is its bytes; a signature is accepted when its halves are equal.
abbrev pub toy_curve : Edwards Bytes Bytes Bytes
toy_curve = record {
  field_set_bytes = λ b. some b;
  field_bytes = λ x. x;
  field_zero = [];
  field_one = 1 ∷ [];
  field_subtract = λ a b. a;
  field_add = λ a b. a;
  field_multiply = λ a b. a;
  field_invert = λ a. a;
  field_equal = λ a b. false;
  point_set_bytes = λ b. some b;
  point_bytes = λ a. a;
  point_equal = λ a b. true;
  point_negate = λ a. a;
  scalar_mult = λ s a. a;
  scalar_base_mult = λ s. s;
  double_scalar_base_mult = λ h a s. s;
  scalar_set_canonical_bytes = λ b. some b;
  scalar_set_uniform_bytes = λ b. some b;
  scalar_multiply_add = λ a b c. a;
  scalar_bytes = λ s. s;
  sha512 = λ b. b;
}

abbrev alice_key : IdentityKey
alice_key = record { private_key = replicate 32 8; public_key = replicate 32 17 }

abbrev bob_key : IdentityKey
bob_key = record { private_key = replicate 32 16; public_key = replicate 32 25 }

abbrev bob_spk : SignedPreKey
bob_spk = record {
  private_key = replicate 32 12;
  public_key = replicate 32 21;
  key_id = 1;
  signature = replicate 64 1;
}

abbrev bob_opk : OneTimePreKey
bob_opk = record { private_key = replicate 32 5; public_key = replicate 32 14; key_id = 3 }

abbrev first_message : InitialMessage
first_message = record {
  opk_id = some 3;
  identity_key = replicate 32 17;
  ephemeral_key = replicate 32 17;
}

abbrev secret : HandshakeResult
secret = record { ad = replicate 32 17 ++ replicate 32 25; shared_secret = replicate 32 190 }

alice_sends :
    send_handshake toy_curve toy
      (ok (replicate 32 8))
      alice_key
      (bundle_of bob_key bob_spk (some bob_opk))
    ≡ ok (secret, first_message)
unfolding send_handshake validate_public_key scalar_is_in_range below_from has_valid_point
    is_torsion_free montgomery_u_to_edwards_y_bytes validate_optional xeddsa_verify verify_with
    check_signature bytes_eqb generate_x25519_key_pair send_keys dh_x25519 send_dh4 derive_x3dh_sk
    append_dh build_ad
alice_sends = refl

alice_is_valid : validate_public_key toy_curve (replicate 32 17) ≡ ok tt
unfolding validate_public_key scalar_is_in_range below_from has_valid_point is_torsion_free
    montgomery_u_to_edwards_y_bytes
alice_is_valid = refl

filled : (bytes : Bytes) → ok (replicate 32 8) ≡ ok bytes → length bytes ≡ 32
filled bytes h = ap (λ r. length (ok_value r)) (sym h)

handshake_agrees_example :
    receive_handshake toy_curve toy bob_key bob_spk (some bob_opk) first_message ≡ ok secret
handshake_agrees_example =
    handshake_agrees toy_curve toy toy-X25519Length toy-X25519Commutes (ok (replicate 32 8))
      alice_key bob_key bob_spk (some bob_opk) secret first_message filled refl refl refl refl
      alice_is_valid alice_is_valid alice_sends
