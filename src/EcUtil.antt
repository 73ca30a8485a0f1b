-- ===== src/EcUtil.antt =====
-- internal/ecutil/ecutil.go and xeddsa.go: X25519 keys, the validation of public keys, and XEdDSA.
use Prim.Native.Nat.{bit_and, bit_or}
use go_doubleratchet.Base.{
  ℕ, zero, suc, ◌*◌, ◌/◌, Bool, true, false, [], ◌∷◌, ◌++◌, Option, none, some, Bytes, get_or, set,
  take, drop, replicate, Result, ok, err, bind, zero_shared_secret, invalid_public_key, external,
  ltb, nat_eqb, not, bytes_eqb, if◌then◌else◌,
}
use go_doubleratchet.Primitives.{Primitives}

-- What the package uses of filippo.io/edwards25519, its package field, and crypto/sha512. `none` is an
-- error.
pub record Edwards (FieldElement Point Scalar : Type 0) : Type 0 where
  pub field_set_bytes : Bytes → Option FieldElement
  pub field_bytes : FieldElement → Bytes
  pub field_zero : FieldElement
  pub field_one : FieldElement
  pub field_subtract : FieldElement → FieldElement → FieldElement
  pub field_add : FieldElement → FieldElement → FieldElement
  pub field_multiply : FieldElement → FieldElement → FieldElement
  pub field_invert : FieldElement → FieldElement
  pub field_equal : FieldElement → FieldElement → Bool
  pub point_set_bytes : Bytes → Option Point
  pub point_bytes : Point → Bytes
  pub point_equal : Point → Point → Bool
  pub point_negate : Point → Point
  pub scalar_mult : Scalar → Point → Point
  pub scalar_base_mult : Scalar → Point
  pub double_scalar_base_mult : Scalar → Point → Scalar → Point
  pub scalar_set_canonical_bytes : Bytes → Option Scalar
  pub scalar_set_uniform_bytes : Bytes → Option Scalar
  pub scalar_multiply_add : Scalar → Scalar → Scalar → Scalar
  pub scalar_bytes : Scalar → Bytes
  pub sha512 : Bytes → Bytes

abbrev pub eight_inv_mod_l : Bytes
eight_inv_mod_l =
    121 ∷ 47 ∷ 220 ∷ 226 ∷ 41 ∷ 229 ∷ 6 ∷ 97 ∷ 208 ∷ 218 ∷ 28 ∷ 125 ∷ 179 ∷ 157 ∷ 211 ∷ 7 ∷ 0 ∷ 0
    ∷ 0 ∷ 0 ∷ 0 ∷ 0 ∷ 0 ∷ 0 ∷ 0 ∷ 0 ∷ 0 ∷ 0 ∷ 0 ∷ 0 ∷ 0 ∷ 6 ∷ []

abbrev pub curve25519_p : Bytes
curve25519_p =
    237 ∷ 255 ∷ 255 ∷ 255 ∷ 255 ∷ 255 ∷ 255 ∷ 255 ∷ 255 ∷ 255 ∷ 255 ∷ 255 ∷ 255 ∷ 255 ∷ 255 ∷ 255
    ∷ 255 ∷ 255 ∷ 255 ∷ 255 ∷ 255 ∷ 255 ∷ 255 ∷ 255 ∷ 255 ∷ 255 ∷ 255 ∷ 255 ∷ 255 ∷ 255 ∷ 255 ∷ 127
    ∷ []

abbrev pub xeddsa_hash_prefix : Bytes
xeddsa_hash_prefix = 254 ∷ replicate 31 255

-- The loop of scalarIsInRange over the bytes below the `n`-th, from the highest down.
unfoldable pub below_from : ℕ → Bytes → Bytes → Bool
below_from zero k bound = false
below_from (suc n) k bound =
    let rest = below_from n k bound in
    if ltb (get_or k n 0) (get_or bound n 0)
    then true
    else (if ltb (get_or bound n 0) (get_or k n 0) then false else rest)

unfoldable pub scalar_is_in_range : Bytes → Bool
scalar_is_in_range k =
    if not (nat_eqb (bit_and (get_or k 31 0) 128) 0) then false else below_from 32 k curve25519_p

module _ (p : Primitives) where
  open p use {x25519, basepoint}

  -- the private and the public key, from what the random source delivers
  unfoldable pub generate_x25519_key_pair : Result Bytes → Result (Bytes × Bytes)
  generate_x25519_key_pair entropy = bind entropy λ priv_bytes.
      let k0 = set priv_bytes 0 (bit_and (get_or priv_bytes 0 0) 248) in
      let k1 = set k0 31 (bit_and (get_or k0 31 0) 127) in
      let k2 = set k1 31 (bit_or (get_or k1 31 0) 64) in
      bind (x25519 k2 basepoint) λ pub_bytes. ok (take 32 k2, take 32 pub_bytes)

  unfoldable pub dh_x25519 : Bytes → Bytes → Result Bytes
  dh_x25519 priv pub_key =
      bind (x25519 priv pub_key)
        λ ss. if bytes_eqb ss (replicate 32 0) then err zero_shared_secret else ok ss

module _ {F P S : Type 0} (c : Edwards F P S) where
  open c use {
    field_set_bytes, field_bytes, field_zero, field_one, field_subtract, field_add, field_multiply,
    field_invert, field_equal, point_set_bytes, point_bytes, point_equal, point_negate, scalar_mult,
    scalar_base_mult, double_scalar_base_mult, scalar_set_canonical_bytes, scalar_set_uniform_bytes,
    scalar_multiply_add, scalar_bytes, sha512,
  }

  -- `none` is the nil slice.
  unfoldable pub montgomery_u_to_edwards_y_bytes : Bytes → Option Bytes
  montgomery_u_to_edwards_y_bytes u = elim (field_set_bytes u) [
    | none ↦ none
    | some u_elem ↦
        let u_plus_1 = field_add u_elem field_one in
        if field_equal u_plus_1 field_zero
        then none
        else some
            (field_bytes (field_multiply (field_subtract u_elem field_one) (field_invert u_plus_1)))
  ]

  -- `8⁻¹·(8·P) == P`
  unfoldable pub is_torsion_free : P → Bool
  is_torsion_free ed_point = elim (scalar_set_canonical_bytes (8 ∷ replicate 31 0)) [
    | none ↦ false
    | some eight ↦ elim (scalar_set_canonical_bytes eight_inv_mod_l) [
      | none ↦ false
      | some eight_inv ↦ point_equal (scalar_mult eight_inv (scalar_mult eight ed_point)) ed_point
    ]
  ]

  unfoldable pub has_valid_point : Bytes → Bool
  unfolding is_torsion_free
  has_valid_point pub_key = elim (montgomery_u_to_edwards_y_bytes pub_key) [
    | none ↦ false
    | some y ↦ elim (point_set_bytes (set y 31 (bit_and (get_or y 31 0) 127))) [
      | none ↦ false
      | some ed_point ↦ is_torsion_free ed_point
    ]
  ]

  unfoldable pub validate_public_key : Bytes → Result (Unit {0})
  validate_public_key pub_key =
      if not (scalar_is_in_range pub_key)
      then err invalid_public_key
      else (if has_valid_point pub_key then ok tt else err invalid_public_key)

  -- The signature's bytes with the sign bit in the last one.
  unfoldable pub pack_signature : Bytes → Bytes → ℕ → Bytes
  pack_signature r_bytes s_bytes sign_bit =
      let sig = take 32 r_bytes ++ take 32 s_bytes in
      set sig 63 (bit_or (bit_and (get_or sig 63 0) 127) sign_bit)

  -- XEdDSASign for a decoded private key and 64 random bytes.
  unfoldable pub sign_with : Bytes → Bytes → S → Bytes → Result Bytes
  unfolding pack_signature
  sign_with x_priv message a random =
      let ed_pub = point_bytes (scalar_base_mult a) in
      elim (scalar_set_uniform_bytes
        (sha512 (xeddsa_hash_prefix ++ (x_priv ++ (message ++ random))))) [
          | none ↦ err external
          | some r ↦
              let r_bytes = point_bytes (scalar_base_mult r) in
              elim (scalar_set_uniform_bytes (sha512 (r_bytes ++ (ed_pub ++ message)))) [
                | none ↦ err external
                | some h ↦ ok (
                    pack_signature r_bytes (scalar_bytes (scalar_multiply_add h a r))
                      (bit_and (get_or ed_pub 31 0) 128))
              ]
        ]

  unfoldable pub xeddsa_sign : Result Bytes → Bytes → Bytes → Result Bytes
  unfolding sign_with
  xeddsa_sign entropy x_priv message = elim (scalar_set_uniform_bytes (x_priv ++ replicate 32 0)) [
    | none ↦ err external
    | some a ↦ bind entropy (sign_with x_priv message a)
  ]

  -- The equation of the signature, once its point, its scalar and the public point are decoded.
  unfoldable pub check_signature : P → Bytes → S → Bytes → Bool
  check_signature a r_bytes s_scalar message =
      elim (scalar_set_uniform_bytes (sha512 (r_bytes ++ (point_bytes a ++ message)))) [
        | none ↦ false
        | some h ↦
            bytes_eqb (take 32 (point_bytes (double_scalar_base_mult h (point_negate a) s_scalar)))
              r_bytes
      ]

  -- From the point where the public key is decoded.
  unfoldable pub verify_with : Option P → Bytes → Bytes → Bool
  unfolding check_signature
  verify_with none message sig = false
  verify_with (some a) message sig =
      let r_bytes = take 32 sig in
      let s0 = take 32 (drop 32 sig) in
      let s_bytes = set s0 31 (bit_and (get_or s0 31 0) 127) in
      let checked : Bool = elim (scalar_set_canonical_bytes s_bytes) [
        | none ↦ false
        | some s_scalar ↦ check_signature a r_bytes s_scalar message
      ] in
      elim (point_set_bytes r_bytes) [
        | none ↦ false
        | some _ ↦ if not (nat_eqb (bit_and (get_or s_bytes 31 0) 224) 0) then false else checked
      ]

  unfoldable pub xeddsa_verify : Bytes → Bytes → Bytes → Bool
  unfolding verify_with
  xeddsa_verify x_pub message sig =
      let sign_bit = bit_and (get_or sig 63 0) 128 / 128 in
      elim (montgomery_u_to_edwards_y_bytes x_pub) [
        | none ↦ false
        | some y ↦
            verify_with
              (point_set_bytes (set y 31 (bit_or (bit_and (get_or y 31 0) 127) (sign_bit * 128))))
              message sig
      ]
