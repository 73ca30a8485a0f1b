-- ===== src/X3dh.antt =====
-- x3dh/x3dh.go and x3dh/keys.go: the X3DH key agreement.
pub mod Agreement
use go_doubleratchet.Base.{
  ℕ, Bool, true, false, List, [], ◌∷◌, ◌++◌, Option, none, some, Bytes, replicate, Result, ok, err,
  bind, invalid_spk_signature, one_time_prekey_missing, if◌then◌else◌,
}
use go_doubleratchet.Primitives.{Primitives}
use go_doubleratchet.EcUtil.{
  Edwards, generate_x25519_key_pair, dh_x25519, validate_public_key, xeddsa_verify, xeddsa_sign,
}

pub record IdentityKey : Type 0 where
  pub private_key : Bytes
  pub public_key : Bytes

pub record SignedPreKey : Type 0 where
  pub private_key : Bytes
  pub public_key : Bytes
  pub key_id : ℕ
  pub signature : Bytes

pub record OneTimePreKey : Type 0 where
  pub private_key : Bytes
  pub public_key : Bytes
  pub key_id : ℕ

-- A nil pointer is `none`.
pub record PrekeyBundle : Type 0 where
  pub one_time_pre_key : Option Bytes
  pub opk_id : Option ℕ
  pub spk_id : ℕ
  pub spk_signature : Bytes
  pub identity_key : Bytes
  pub signed_pre_key : Bytes

pub record InitialMessage : Type 0 where
  pub opk_id : Option ℕ
  pub identity_key : Bytes
  pub ephemeral_key : Bytes

pub record HandshakeResult : Type 0 where
  pub ad : Bytes
  pub shared_secret : Bytes

abbrev pub x3dh_info : Bytes
x3dh_info = b'X' ∷ b'3' ∷ b'D' ∷ b'H' ∷ []

-- The copies fill 32 bytes each.
unfoldable pub build_ad : Bytes → Bytes → Bytes
build_ad ika_public ikb_public = ika_public ++ ikb_public

-- A nil slice adds nothing.
unfoldable pub append_dh : Bytes → Option Bytes → Bytes
append_dh km none = km
append_dh km (some dh4) = km ++ dh4

module _ (p : Primitives) where
  open p use {hkdf_sha256}

  unfoldable pub derive_x3dh_sk : Bytes → Bytes → Bytes → Option Bytes → Result Bytes
  derive_x3dh_sk dh1 dh2 dh3 dh4 =
      let km = append_dh (replicate 32 255 ++ (dh1 ++ (dh2 ++ dh3))) dh4 in
      hkdf_sha256 km (replicate 32 0) x3dh_info 32

  -- DH4 of the sender, with the identifier that the message carries.
  unfoldable pub send_dh4 : Bytes → PrekeyBundle → Option Bytes → Result (Option Bytes × Option ℕ)
  send_dh4 ek_priv bundle none = ok (none, none)
  send_dh4 ek_priv bundle (some opk) =
      bind (dh_x25519 p ek_priv opk) λ dh4. ok (some dh4, bundle.opk_id)

  -- SendHandshake behind its validations and the ephemeral key pair.
  unfoldable pub send_keys :
      IdentityKey → PrekeyBundle → Bytes × Bytes → Result (HandshakeResult × InitialMessage)
  send_keys sender_ik bundle (ek_priv, ek_pub) =
      bind (dh_x25519 p sender_ik.private_key bundle.signed_pre_key) λ dh1.
        bind (dh_x25519 p ek_priv bundle.identity_key) λ dh2.
          bind (dh_x25519 p ek_priv bundle.signed_pre_key) λ dh3.
            bind (send_dh4 ek_priv bundle bundle.one_time_pre_key) λ (dh4, opk_id).
              bind (derive_x3dh_sk dh1 dh2 dh3 dh4) λ sk. ok (
                record {
                  ad = build_ad sender_ik.public_key bundle.identity_key;
                  shared_secret = sk;
                },
                record {
                  opk_id = opk_id;
                  identity_key = sender_ik.public_key;
                  ephemeral_key = ek_pub;
                },
              )

  -- DH4 of the receiver.
  unfoldable pub receive_dh4 : Option ℕ → Option OneTimePreKey → Bytes → Result (Option Bytes)
  receive_dh4 none opk ek_pub = ok none
  receive_dh4 (some id) none ek_pub = err one_time_prekey_missing
  receive_dh4 (some id) (some opk) ek_pub =
      bind (dh_x25519 p opk.private_key ek_pub) λ dh4. ok (some dh4)

  -- ReceiveHandshake behind its validations.
  unfoldable pub receive_keys :
      IdentityKey → SignedPreKey → Option OneTimePreKey → InitialMessage → Result HandshakeResult
  receive_keys receiver_ik spk opk msg = bind (dh_x25519 p spk.private_key msg.identity_key) λ dh1.
      bind (dh_x25519 p receiver_ik.private_key msg.ephemeral_key) λ dh2.
        bind (dh_x25519 p spk.private_key msg.ephemeral_key) λ dh3.
          bind (receive_dh4 msg.opk_id opk msg.ephemeral_key) λ dh4.
            bind (derive_x3dh_sk dh1 dh2 dh3 dh4) λ sk.
              ok (record {
                ad = build_ad msg.identity_key receiver_ik.public_key;
                shared_secret = sk;
              })

module _ {F P S : Type 0} (c : Edwards F P S) (p : Primitives) where
  unfoldable pub validate_optional : Option Bytes → Result (Unit {0})
  validate_optional none = ok tt
  validate_optional (some pub_key) = validate_public_key c pub_key

  unfoldable pub send_handshake :
      Result Bytes → IdentityKey → PrekeyBundle → Result (HandshakeResult × InitialMessage)
  send_handshake entropy sender_ik bundle = bind (validate_public_key c bundle.identity_key) λ _.
      bind (validate_public_key c bundle.signed_pre_key) λ _.
        bind (validate_optional bundle.one_time_pre_key) λ _.
          if xeddsa_verify c bundle.identity_key bundle.signed_pre_key bundle.spk_signature
          then bind (generate_x25519_key_pair p entropy) (send_keys p sender_ik bundle)
          else err invalid_spk_signature

  unfoldable pub receive_handshake :
      IdentityKey → SignedPreKey → Option OneTimePreKey → InitialMessage → Result HandshakeResult
  receive_handshake receiver_ik spk opk msg = bind (validate_public_key c msg.identity_key) λ _.
      bind (validate_public_key c msg.ephemeral_key) λ _. receive_keys p receiver_ik spk opk msg

module _ (p : Primitives) where
  unfoldable pub generate_identity_key : Result Bytes → Result IdentityKey
  generate_identity_key entropy =
      bind (generate_x25519_key_pair p entropy)
        λ (priv, pub_key). ok (record { private_key = priv; public_key = pub_key })

  unfoldable pub generate_opk : Result Bytes → ℕ → Result OneTimePreKey
  generate_opk entropy key_id =
      bind (generate_x25519_key_pair p entropy)
        λ (priv, pub_key). ok (record { private_key = priv; public_key = pub_key; key_id = key_id })

module _ {F P S : Type 0} (c : Edwards F P S) (p : Primitives) where
  -- The two random arguments are those of the key pair and of the signature.
  unfoldable pub generate_spk : Result Bytes → Result Bytes → IdentityKey → ℕ → Result SignedPreKey
  generate_spk entropy sign_entropy ik key_id =
      bind (generate_x25519_key_pair p entropy) λ (priv, pub_key).
        bind (xeddsa_sign c sign_entropy ik.private_key pub_key) λ sig.
          ok (record { private_key = priv; public_key = pub_key; key_id = key_id; signature = sig })
