-- ===== src/Pqxdh/Kem.antt =====
-- pqxdh/kem.go: the post-quantum prekeys, over ML-KEM.
pub mod RoundTrip
use go_doubleratchet.Base.{
  ℕ, Bool, true, false, [], ◌∷◌, Option, none, some, Bytes, Result, ok, err, bind, ◌≡◌, nat_eqb,
  unsupported_kem_params,
}
use go_doubleratchet.EcUtil.{Edwards, xeddsa_sign}

-- Of pqxdh/keys.go.
pub record IdentityKey : Type 0 where
  pub private_key : Bytes
  pub public_key : Bytes

-- `unknown`: any other value of the type, which is an int.
pub data KemParams : Type 0 where
  mlkem768 : KemParams
  mlkem1024 : KemParams
  unknown : ℕ → KemParams

unfoldable pub kem_params_eqb : KemParams → KemParams → Bool
kem_params_eqb mlkem768 mlkem768 = true
kem_params_eqb mlkem1024 mlkem1024 = true
kem_params_eqb (unknown a) (unknown b) = nat_eqb a b
kem_params_eqb _ _ = false

unfoldable pub string : KemParams → Bytes
string mlkem768 = b'M' ∷ b'L' ∷ b'-' ∷ b'K' ∷ b'E' ∷ b'M' ∷ b'-' ∷ b'7' ∷ b'6' ∷ b'8' ∷ []
string mlkem1024 = b'M' ∷ b'L' ∷ b'-' ∷ b'K' ∷ b'E' ∷ b'M' ∷ b'-' ∷ b'1' ∷ b'0' ∷ b'2' ∷ b'4' ∷ []
string (unknown n) = b'u' ∷ b'n' ∷ b'k' ∷ b'n' ∷ b'o' ∷ b'w' ∷ b'n' ∷ []

-- The three operations of a parameter set: the encapsulation key of a seed; the ciphertext and the
-- shared secret for an encapsulation key, with the random bytes that are drawn; and the shared secret
-- for a seed and a ciphertext.
pub record KemOps : Type 0 where
  pub generate_encap_key : Bytes → Result Bytes
  pub encapsulate : Bytes → Bytes → Result (Bytes × Bytes)
  pub decapsulate : Bytes → Bytes → Result Bytes

-- crypto/mlkem, which stands outside the program.
pub record MlKem : Type 0 where
  pub ops768 : KemOps
  pub ops1024 : KemOps

-- What a key encapsulation mechanism promises: decapsulation under a seed gives the secret that was
-- encapsulated for the key of that seed.
abbrev pub Decapsulates : KemOps → Type 0
Decapsulates ops =
    (seed encap_key drawn ct ss : Bytes)
    → ops.generate_encap_key seed ≡ ok encap_key
    → ops.encapsulate drawn encap_key ≡ ok (ct, ss)
    → ops.decapsulate seed ct ≡ ok ss

pub record KemSignedPreKey : Type 0 where
  pub encapsulation_key : Bytes
  pub params : KemParams
  pub key_id : ℕ
  pub seed : Bytes
  pub signature : Bytes

pub record KemOneTimePreKey : Type 0 where
  pub encapsulation_key : Bytes
  pub params : KemParams
  pub key_id : ℕ
  pub seed : Bytes
  pub signature : Bytes

pub record KemPreKey : Type 0 where
  pub encapsulation_key : Bytes
  pub seed : Bytes
  pub params : KemParams

-- `DecapsKey`, of either type of prekey
unfoldable pub signed_decaps_key : KemSignedPreKey → KemPreKey
signed_decaps_key k = record {
  encapsulation_key = k.encapsulation_key;
  seed = k.seed;
  params = k.params;
}

unfoldable pub one_time_decaps_key : KemOneTimePreKey → KemPreKey
one_time_decaps_key k = record {
  encapsulation_key = k.encapsulation_key;
  seed = k.seed;
  params = k.params;
}

module _ (kem : MlKem) where
  unfoldable pub kem_registry : KemParams → Option KemOps
  kem_registry mlkem768 = some kem.ops768
  kem_registry mlkem1024 = some kem.ops1024
  kem_registry (unknown n) = none

  -- The operation of a parameter set, if there is the set.
  abbrev pub with_ops : {A : Type 0} → Option KemOps → (KemOps → Result A) → Result A
  with_ops none f = err unsupported_kem_params
  with_ops (some ops) f = f ops

  -- the seed and the encapsulation key; `entropy` is what the random source gives for the seed
  unfoldable pub kem_generate_key : Result Bytes → KemParams → Result (Bytes × Bytes)
  kem_generate_key entropy params = with_ops (kem_registry params) λ ops.
      bind entropy λ seed. bind (ops.generate_encap_key seed) λ encap_key. ok (seed, encap_key)

  unfoldable pub kem_encapsulate : Bytes → Bytes → KemParams → Result (Bytes × Bytes)
  kem_encapsulate drawn encap_key_bytes params =
      with_ops (kem_registry params) λ ops. ops.encapsulate drawn encap_key_bytes

  unfoldable pub kem_decapsulate : KemPreKey → Bytes → Result Bytes
  kem_decapsulate pqpk ciphertext =
      with_ops (kem_registry pqpk.params) λ ops. ops.decapsulate pqpk.seed ciphertext

module _ {F P S : Type 0} (c : Edwards F P S) (kem : MlKem) where
  -- The two random arguments are those of the seed and of the signature.
  unfoldable pub generate_kem_spk :
      Result Bytes → Result Bytes → IdentityKey → ℕ → KemParams → Result KemSignedPreKey
  generate_kem_spk entropy sign_entropy ik key_id params =
      bind (kem_generate_key kem entropy params) λ (seed, encap_key).
        bind (xeddsa_sign c sign_entropy ik.private_key encap_key) λ sig. ok (record {
          encapsulation_key = encap_key;
          params = params;
          key_id = key_id;
          seed = seed;
          signature = sig;
        })

  unfoldable pub generate_kem_opk :
      Result Bytes → Result Bytes → IdentityKey → ℕ → KemParams → Result KemOneTimePreKey
  generate_kem_opk entropy sign_entropy ik key_id params =
      bind (kem_generate_key kem entropy params) λ (seed, encap_key).
        bind (xeddsa_sign c sign_entropy ik.private_key encap_key) λ sig. ok (record {
          encapsulation_key = encap_key;
          params = params;
          key_id = key_id;
          seed = seed;
          signature = sig;
        })
