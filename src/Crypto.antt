-- ===== src/Crypto.antt =====
-- internal/crypto/x25519.go: key pairs and Diffie-Hellman over X25519. What io.ReadFull(rand.Reader)
-- delivers is the argument `entropy`: 32 bytes, or the error.
pub mod HeaderEncrypt
use Prim.Native.Nat.{bit_and, bit_or}
use go_doubleratchet.Base.{
  Bool, true, false, [], ◌∷◌, Bytes, get_or, set, take, Result, ok, err, bind, low_order_point,
  nat_eqb, if◌then◌else◌,
}
use go_doubleratchet.Primitives.{Primitives}

pub record KeyPair : Type 0 where
  pub private_key : Bytes
  pub public_key : Bytes

-- Every byte is zero: the loops of SharedSecret, VerifyPublicKey, VerifyPrivateKey and isZeroed.
unfoldable pub is_zeroed : Bytes → Bool
is_zeroed [] = true
is_zeroed (x ∷ xs) = if nat_eqb x 0 then is_zeroed xs else false

-- `crypto.ZeroBytes`, of what the slice holds afterwards
unfoldable pub zero_bytes : Bytes → Bytes
zero_bytes [] = []
zero_bytes (x ∷ xs) = 0 ∷ zero_bytes xs

-- The clamping of GenerateKeyPair.
unfoldable pub clamp : Bytes → Bytes
clamp k =
    let k0 = set k 0 (bit_and (get_or k 0 0) 248) in
    let k1 = set k0 31 (bit_and (get_or k0 31 0) 127) in set k1 31 (bit_or (get_or k1 31 0) 64)

unfoldable pub verify_public_key : Bytes → Bool
verify_public_key pk = if is_zeroed pk then false else true

unfoldable pub verify_private_key : Bytes → Bool
verify_private_key sk = if is_zeroed sk then false else true

module _ (p : Primitives) where
  open p use {x25519, basepoint}

  -- the private and the public key
  unfoldable pub generate_key_pair : Result Bytes → Result (Bytes × Bytes)
  generate_key_pair entropy = bind entropy λ bytes.
      let private_key = clamp bytes in
      bind (x25519 private_key basepoint) λ public_key. ok (take 32 private_key, take 32 public_key)

  unfoldable pub shared_secret : Bytes → Bytes → Result Bytes
  shared_secret private_key public_key =
      bind (x25519 private_key public_key) λ ss. if is_zeroed ss then err low_order_point else ok ss

  unfoldable pub public_key_from_private : Bytes → Result Bytes
  public_key_from_private private_key =
      bind (x25519 private_key basepoint) λ public_key. ok (take 32 public_key)

  unfoldable pub new_key_pair : Result Bytes → Result KeyPair
  unfolding generate_key_pair
  new_key_pair entropy =
      bind (generate_key_pair entropy)
        λ (priv, pub_key). ok (record { private_key = priv; public_key = pub_key })
