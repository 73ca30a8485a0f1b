-- ===== src/Tests/PqHandshakes.antt =====
-- A PQXDH handshake on concrete inputs.
use go_doubleratchet.Base.{
  ◌+◌, ◌≡◌, refl, sym, ap, [], ◌∷◌, ◌++◌, some, Bytes, Result, get_or, length, replicate, ok,
  bytes_eqb,
}
use go_doubleratchet.EcUtil.{
  Edwards, generate_x25519_key_pair, dh_x25519, validate_public_key, scalar_is_in_range, below_from,
  has_valid_point, is_torsion_free, montgomery_u_to_edwards_y_bytes, xeddsa_verify, verify_with,
  check_signature, xeddsa_sign, sign_with, pack_signature,
}
use go_doubleratchet.Pqxdh.Kem.{
  IdentityKey, MlKem, KemOps, Decapsulates, KemSignedPreKey, mlkem768, generate_kem_spk,
  kem_generate_key, kem_registry, kem_encapsulate, signed_decaps_key,
}
use go_doubleratchet.Pqxdh.{
  SignedPreKey, OneTimePreKey, InitialMessage, HandshakeResult, send_handshake, receive_handshake,
  check_bundle, validate_optional, send_keys, send_dh4, derive_pqxdh_sk, append_dh, build_ad,
}
use go_doubleratchet.Pqxdh.Agreement.{bundle_of, handshake_agrees_pq}
use go_doubleratchet.Tests.Toy.{toy, toy-X25519Length, toy-X25519Commutes, ok_value}
use go_doubleratchet.Tests.Handshakes.{toy_curve}

-- A curve on which every signature is accepted.
abbrev curve : Edwards Bytes Bytes Bytes
curve = record toy_curve {
  double_scalar_base_mult = λ h a s. h;
  scalar_multiply_add = λ a b c. replicate 32 1;
}

-- The encapsulation key is the seed, and the secret adds the first bytes of key and ciphertext.
abbrev toy_ops : KemOps
toy_ops = record {
  generate_encap_key = λ seed. ok seed;
  encapsulate =
      λ drawn encap_key. ok (drawn, replicate 32 (get_or drawn 0 0 + get_or encap_key 0 0));
  decapsulate = λ seed ct. ok (replicate 32 (get_or ct 0 0 + get_or seed 0 0));
}

abbrev toy_kem : MlKem
toy_kem = record { ops768 = toy_ops; ops1024 = toy_ops }

abbrev ok_pair : Result (Bytes × Bytes) → Bytes × Bytes
ok_pair (ok x) = x
ok_pair r = ([], [])

toy-Decapsulates : Decapsulates toy_ops
toy-Decapsulates seed encap_key drawn ct ss made sealed =
    let k : seed ≡ encap_key = ap ok_value made in
    let c : drawn ≡ ct = ap (λ r. (ok_pair r).0) sealed in
    let e : replicate 32 (get_or drawn 0 0 + get_or encap_key 0 0) ≡ ss =
      ap (λ r. (ok_pair r).1) sealed in
    rw (k, ← c) (ap ok e)

abbrev alice_key : IdentityKey
alice_key = record { private_key = replicate 32 8; public_key = replicate 32 17 }

abbrev bob_key : IdentityKey
bob_key = record { private_key = replicate 32 16; public_key = replicate 32 25 }

abbrev bob_spk : SignedPreKey
bob_spk = record {
  private_key = replicate 32 12;
  public_key = replicate 32 21;
  key_id = 1;
  signature = replicate 64 1;
}

abbrev bob_opk : OneTimePreKey
bob_opk = record { private_key = replicate 32 5; public_key = replicate 32 14; key_id = 3 }

abbrev bob_kem : KemSignedPreKey
bob_kem = record {
  encapsulation_key = replicate 64 2;
  params = mlkem768;
  key_id = 7;
  seed = replicate 64 2;
  signature = 254 ∷ (replicate 31 255 ++ replicate 32 1);
}

bob_generates :
    generate_kem_spk curve toy_kem (ok (replicate 64 2)) (ok (replicate 64 4)) bob_key 7 mlkem768
    ≡ ok bob_kem
unfolding generate_kem_spk kem_generate_key kem_registry xeddsa_sign sign_with pack_signature
bob_generates = refl

abbrev first_message : InitialMessage
first_message = record {
  opk_id = some 3;
  kem_ciphertext = 11 ∷ [];
  pq_params = mlkem768;
  pq_pre_key_id = 7;
  identity_key = replicate 32 17;
  ephemeral_key = replicate 32 17;
}

abbrev secret : HandshakeResult
secret = record {
  ad = replicate 32 17 ++ (replicate 32 25 ++ replicate 64 2);
  root_key = replicate 32 9;
  chain_key = replicate 32 9;
  pqr_key = replicate 32 9;
}

alice_sends :
    send_handshake curve toy toy_kem
      (ok (replicate 32 8))
      (11 ∷ [])
      alice_key
      (bundle_of bob_key bob_spk (some bob_opk) bob_kem)
    ≡ ok (secret, first_message)
unfolding send_handshake check_bundle validate_public_key scalar_is_in_range below_from
    has_valid_point is_torsion_free montgomery_u_to_edwards_y_bytes validate_optional xeddsa_verify
    verify_with check_signature bytes_eqb generate_x25519_key_pair kem_encapsulate kem_registry
    send_keys dh_x25519 send_dh4 derive_pqxdh_sk append_dh build_ad
alice_sends = refl

alice_is_valid : validate_public_key curve (replicate 32 17) ≡ ok tt
unfolding validate_public_key scalar_is_in_range below_from has_valid_point is_torsion_free
    montgomery_u_to_edwards_y_bytes
alice_is_valid = refl

filled : (bytes : Bytes) → ok (replicate 32 8) ≡ ok bytes → length bytes ≡ 32
filled bytes h = ap (λ r. length (ok_value r)) (sym h)

handshake_agrees_pq_example :
    receive_handshake curve toy toy_kem bob_key bob_spk
      (some bob_opk)
      (signed_decaps_key bob_kem)
      first_message
    ≡ ok secret
handshake_agrees_pq_example =
    handshake_agrees_pq curve toy toy_kem toy-X25519Length toy-X25519Commutes toy-Decapsulates
      toy-Decapsulates (ok (replicate 32 8)) (ok (replicate 64 2)) (ok (replicate 64 4)) (11 ∷ [])
      alice_key bob_key bob_spk (some bob_opk) bob_kem 7 mlkem768 secret first_message filled refl
      refl refl refl bob_generates alice_is_valid alice_is_valid alice_sends
