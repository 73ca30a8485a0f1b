-- ===== src/Pqxdh.antt =====
-- pqxdh/pqxdh.go and pqxdh/keys.go: the PQXDH key agreement.
pub mod Kem
pub mod Agreement
use go_doubleratchet.Base.{
  ℕ, Bool, true, false, List, [], ◌∷◌, ◌++◌, Option, none, some, Bytes, take, drop, replicate,
  Result, ok, err, bind, invalid_spk_signature, invalid_pq_pre_key_signature,
  one_time_prekey_missing, kem_params_mismatch, not, if◌then◌else◌,
}
use go_doubleratchet.Primitives.{Primitives}
use go_doubleratchet.EcUtil.{
  Edwards, generate_x25519_key_pair, dh_x25519, validate_public_key, xeddsa_verify, xeddsa_sign,
}
use go_doubleratchet.Pqxdh.Kem.{
  IdentityKey, KemParams, KemPreKey, MlKem, kem_params_eqb, kem_encapsulate, kem_decapsulate,
}

pub record SignedPreKey : Type 0 where
  pub private_key : Bytes
  pub public_key : Bytes
  pub key_id : ℕ
  pub signature : Bytes

pub record OneTimePreKey : Type 0 where
  pub private_key : Bytes
  pub public_key : Bytes
  pub key_id : ℕ

-- A nil pointer is `none`.
pub record PrekeyBundle : Type 0 where
  pub one_time_pre_key : Option Bytes
  pub opk_id : Option ℕ
  pub pq_pre_key : Bytes
  pub pq_params : KemParams
  pub spk_id : ℕ
  pub pq_pre_key_id : ℕ
  pub spk_signature : Bytes
  pub pq_pre_key_signature : Bytes
  pub identity_key : Bytes
  pub signed_pre_key : Bytes

pub record InitialMessage : Type 0 where
  pub opk_id : Option ℕ
  pub kem_ciphertext : Bytes
  pub pq_params : KemParams
  pub pq_pre_key_id : ℕ
  pub identity_key : Bytes
  pub ephemeral_key : Bytes

pub record HandshakeResult : Type 0 where
  pub ad : Bytes
  pub root_key : Bytes
  pub chain_key : Bytes
  pub pqr_key : Bytes

abbrev pub pqxdh_info : Bytes
pqxdh_info =
    b'W' ∷ b'h' ∷ b'i' ∷ b's' ∷ b'p' ∷ b'e' ∷ b'r' ∷ b'T' ∷ b'e' ∷ b'x' ∷ b't' ∷ b'_' ∷ b'X' ∷ b'2'
    ∷ b'5' ∷ b'5' ∷ b'1' ∷ b'9' ∷ b'_' ∷ b'S' ∷ b'H' ∷ b'A' ∷ b'-' ∷ b'2' ∷ b'5' ∷ b'6' ∷ b'_'
    ∷ b'C' ∷ b'R' ∷ b'Y' ∷ b'S' ∷ b'T' ∷ b'A' ∷ b'L' ∷ b'S' ∷ b'-' ∷ b'K' ∷ b'Y' ∷ b'B' ∷ b'E'
    ∷ b'R' ∷ b'-' ∷ b'1' ∷ b'0' ∷ b'2' ∷ b'4' ∷ []

-- The first two keys have 32 bytes each.
unfoldable pub build_ad : Bytes → Bytes → Bytes → Bytes
build_ad ika_public ikb_public pq_pre_key = ika_public ++ (ikb_public ++ pq_pre_key)

-- A nil slice adds nothing.
unfoldable pub append_dh : Bytes → Option Bytes → Bytes
append_dh km none = km
append_dh km (some dh4) = km ++ dh4

module _ (p : Primitives) where
  open p use {hkdf_sha256}

  -- The result without its associated data, which the callers set.
  unfoldable pub derive_pqxdh_sk :
      Bytes → Bytes → Bytes → Option Bytes → Bytes → Result HandshakeResult
  unfolding append_dh
  derive_pqxdh_sk dh1 dh2 dh3 dh4 kem_ss =
      let km = append_dh (replicate 32 255 ++ (dh1 ++ (dh2 ++ dh3))) dh4 ++ kem_ss in
      bind (hkdf_sha256 km (replicate 32 0) pqxdh_info 96) λ sk. ok (record {
        ad = [];
        root_key = take 32 sk;
        chain_key = take 32 (drop 32 sk);
        pqr_key = take 32 (drop 64 sk);
      })

  -- DH4 of the sender, with the identifier that the message carries.
  unfoldable pub send_dh4 : Bytes → PrekeyBundle → Option Bytes → Result (Option Bytes × Option ℕ)
  send_dh4 ek_priv bundle none = ok (none, none)
  send_dh4 ek_priv bundle (some opk) =
      bind (dh_x25519 p ek_priv opk) λ dh4. ok (some dh4, bundle.opk_id)

  -- SendHandshake behind its validations, the ephemeral key pair and the KEM's ciphertext and secret.
  unfoldable pub send_keys :
      IdentityKey
      → PrekeyBundle
      → Bytes × Bytes
      → Bytes × Bytes
      → Result (HandshakeResult × InitialMessage)
  send_keys sender_ik bundle (ek_priv, ek_pub) (ct, kem_ss) =
      bind (dh_x25519 p sender_ik.private_key bundle.signed_pre_key) λ dh1.
        bind (dh_x25519 p ek_priv bundle.identity_key) λ dh2.
          bind (dh_x25519 p ek_priv bundle.signed_pre_key) λ dh3.
            bind (send_dh4 ek_priv bundle bundle.one_time_pre_key) λ (dh4, opk_id).
              bind (derive_pqxdh_sk dh1 dh2 dh3 dh4 kem_ss) λ result. ok (
                record result {
                  ad = build_ad sender_ik.public_key bundle.identity_key bundle.pq_pre_key;
                },
                record {
                  opk_id = opk_id;
                  kem_ciphertext = ct;
                  pq_params = bundle.pq_params;
                  pq_pre_key_id = bundle.pq_pre_key_id;
                  identity_key = sender_ik.public_key;
                  ephemeral_key = ek_pub;
                },
              )

  -- DH4 of the receiver.
  unfoldable pub receive_dh4 : Option ℕ → Option OneTimePreKey → Bytes → Result (Option Bytes)
  receive_dh4 none opk ek_pub = ok none
  receive_dh4 (some id) none ek_pub = err one_time_prekey_missing
  receive_dh4 (some id) (some opk) ek_pub =
      bind (dh_x25519 p opk.private_key ek_pub) λ dh4. ok (some dh4)

  -- ReceiveHandshake behind its validations and the decapsulation.
  unfoldable pub receive_keys :
      IdentityKey
      → SignedPreKey
      → Option OneTimePreKey
      → KemPreKey
      → InitialMessage
      → Bytes
      → Result HandshakeResult
  receive_keys receiver_ik spk opk pqpk msg kem_ss =
      bind (dh_x25519 p spk.private_key msg.identity_key) λ dh1.
        bind (dh_x25519 p receiver_ik.private_key msg.ephemeral_key) λ dh2.
          bind (dh_x25519 p spk.private_key msg.ephemeral_key) λ dh3.
            bind (receive_dh4 msg.opk_id opk msg.ephemeral_key) λ dh4.
              bind (derive_pqxdh_sk dh1 dh2 dh3 dh4 kem_ss) λ result. ok (record result {
                ad = build_ad msg.identity_key receiver_ik.public_key pqpk.encapsulation_key;
              })

module _ {F P S : Type 0} (c : Edwards F P S) where
  unfoldable pub validate_optional : Option Bytes → Result (Unit {0})
  validate_optional none = ok tt
  validate_optional (some pub_key) = validate_public_key c pub_key

  -- The checks of a bundle: its public keys, then both signatures.
  unfoldable pub check_bundle : PrekeyBundle → Result (Unit {0})
  unfolding validate_optional
  check_bundle bundle = bind (validate_public_key c bundle.identity_key) λ _.
      bind (validate_public_key c bundle.signed_pre_key) λ _.
        bind (validate_optional bundle.one_time_pre_key) λ _.
          if not (xeddsa_verify c bundle.identity_key bundle.signed_pre_key bundle.spk_signature)
          then err invalid_spk_signature
          else (if not
                (xeddsa_verify c bundle.identity_key bundle.pq_pre_key bundle.pq_pre_key_signature)
              then err invalid_pq_pre_key_signature
              else ok tt)

module _ {F P S : Type 0} (c : Edwards F P S) (p : Primitives) (kem : MlKem) where
  -- The first two arguments are what the random source gives for the key pair and for the KEM.
  unfoldable pub send_handshake :
      Result Bytes → Bytes → IdentityKey → PrekeyBundle → Result (HandshakeResult × InitialMessage)
  send_handshake entropy kem_entropy sender_ik bundle = bind (check_bundle c bundle) λ _.
      bind (generate_x25519_key_pair p entropy) λ ek.
        bind (kem_encapsulate kem kem_entropy bundle.pq_pre_key bundle.pq_params)
          λ encapsulated. send_keys p sender_ik bundle ek encapsulated

  unfoldable pub receive_handshake :
      IdentityKey
      → SignedPreKey
      → Option OneTimePreKey
      → KemPreKey
      → InitialMessage
      → Result HandshakeResult
  receive_handshake receiver_ik spk opk pqpk msg =
      if not (kem_params_eqb pqpk.params msg.pq_params)
      then err kem_params_mismatch
      else bind (validate_public_key c msg.identity_key) λ _.
        bind (validate_public_key c msg.ephemeral_key) λ _.
          bind (kem_decapsulate kem pqpk msg.kem_ciphertext)
            λ kem_ss. receive_keys p receiver_ik spk opk pqpk msg kem_ss

module _ (p : Primitives) where
  unfoldable pub generate_identity_key : Result Bytes → Result IdentityKey
  generate_identity_key entropy =
      bind (generate_x25519_key_pair p entropy)
        λ (priv, pub_key). ok (record { private_key = priv; public_key = pub_key })

  unfoldable pub generate_opk : Result Bytes → ℕ → Result OneTimePreKey
  generate_opk entropy key_id =
      bind (generate_x25519_key_pair p entropy)
        λ (priv, pub_key). ok (record { private_key = priv; public_key = pub_key; key_id = key_id })

module _ {F P S : Type 0} (c : Edwards F P S) (p : Primitives) where
  -- The two random arguments are those of the key pair and of the signature.
  unfoldable pub generate_spk : Result Bytes → Result Bytes → IdentityKey → ℕ → Result SignedPreKey
  generate_spk entropy sign_entropy ik key_id =
      bind (generate_x25519_key_pair p entropy) λ (priv, pub_key).
        bind (xeddsa_sign c sign_entropy ik.private_key pub_key) λ sig.
          ok (record { private_key = priv; public_key = pub_key; key_id = key_id; signature = sig })
