-- ===== src/Pqxdh/Kem/RoundTrip.antt =====
-- The receiver of a post-quantum prekey decapsulates what the sender encapsulated for it.
use go_doubleratchet.Base.{
  ℕ, ◌≡◌, refl, true, Bytes, Result, ok, bind-eq-ok, ok-injective, arith, eqb_refl, nat_eq, subst,
}
use go_doubleratchet.EcUtil.{Edwards, xeddsa_sign}
use go_doubleratchet.Pqxdh.Kem.{
  IdentityKey, KemParams, mlkem768, mlkem1024, unknown, kem_params_eqb, MlKem, KemOps, Decapsulates,
  KemSignedPreKey, kem_registry, kem_generate_key, kem_encapsulate, kem_decapsulate,
  generate_kem_spk,
}

pub kem_params_eqb_refl : (params : KemParams) → kem_params_eqb params params ≡ true
unfolding kem_params_eqb
kem_params_eqb_refl mlkem768 = refl
kem_params_eqb_refl mlkem1024 = refl
kem_params_eqb_refl (unknown n) = eqb_refl n

generated :
    (ops : KemOps) (x y : Bytes × Bytes)
    → ops.generate_encap_key x.0 ≡ ok x.1
    → ok x ≡ ok y
    → ops.generate_encap_key y.0 ≡ ok y.1
generated ops x y key h =
    subst (λ (z : Bytes × Bytes). ops.generate_encap_key z.0 ≡ ok z.1) (ok-injective x y h) key

-- The receiver decapsulates what the sender encapsulated for its key.
pub kem_agrees :
    (kem : MlKem)
    → Decapsulates kem.ops768
    → Decapsulates kem.ops1024
    → (entropy : Result Bytes) (drawn seed encap_key ct ss : Bytes) (params : KemParams)
    → kem_generate_key kem entropy params ≡ ok (seed, encap_key)
    → kem_encapsulate kem drawn encap_key params ≡ ok (ct, ss)
    → kem_decapsulate kem
        (record { encapsulation_key = encap_key; seed = seed; params = params })
        ct
      ≡ ok ss
unfolding kem_generate_key kem_encapsulate kem_decapsulate kem_registry
kem_agrees kem d768 d1024 entropy drawn seed encap_key ct ss mlkem768 made sealed =
    let (s, _, h1) = bind-eq-ok entropy _ made in
    let (k, key, h2) = bind-eq-ok (kem.ops768.generate_encap_key s) _ h1 in
    d768 seed encap_key drawn ct ss (generated kem.ops768 (s, k) (seed, encap_key) key h2) sealed
kem_agrees kem d768 d1024 entropy drawn seed encap_key ct ss mlkem1024 made sealed =
    let (s, _, h1) = bind-eq-ok entropy _ made in
    let (k, key, h2) = bind-eq-ok (kem.ops1024.generate_encap_key s) _ h1 in
    d1024 seed encap_key drawn ct ss (generated kem.ops1024 (s, k) (seed, encap_key) key h2) sealed
kem_agrees kem d768 d1024 entropy drawn seed encap_key ct ss (unknown n) made sealed =
    absurd (ground (arith, made))

-- The seed and the key of a generated prekey.
pub generate_kem_spk-key :
    {F P S : Type 0} (c : Edwards F P S) (kem : MlKem) (entropy sign_entropy : Result Bytes)
    (ik : IdentityKey) (key_id : ℕ) (params : KemParams) (k : KemSignedPreKey)
    → generate_kem_spk c kem entropy sign_entropy ik key_id params ≡ ok k
    → kem_generate_key kem entropy k.params ≡ ok (k.seed, k.encapsulation_key)
unfolding generate_kem_spk
generate_kem_spk-key c kem entropy sign_entropy ik key_id params k h =
    let (pair, made, h1) = bind-eq-ok (kem_generate_key kem entropy params) _ h in
    let (sig, _, h2) = bind-eq-ok (xeddsa_sign c sign_entropy ik.private_key pair.1) _ h1 in
    subst
      (λ (k : KemSignedPreKey).
        kem_generate_key kem entropy k.params ≡ ok (k.seed, k.encapsulation_key))
      (ok-injective _ k h2) made
