-- ===== src/X3dh/Agreement.antt =====
-- Both sides of a handshake come to the same secret and the same associated data.
use Prim.Native.Nat.{bit_and, bit_or}
use go_doubleratchet.Base.{
  ℕ, set, get_or, length-set, take-all, ◌≡◌, refl, sym, ap, ◌∙◌, Option, none, some, Bytes, length,
  take, Result, ok, bind-eq-ok, arith, Bool-cases, inl, inr,
}
use go_doubleratchet.Primitives.{Primitives, IsPair, X25519Length, X25519Commutes}
use go_doubleratchet.EcUtil.{
  Edwards, generate_x25519_key_pair, dh_x25519, validate_public_key, xeddsa_verify,
}
use go_doubleratchet.X3dh.{
  IdentityKey, SignedPreKey, OneTimePreKey, PrekeyBundle, InitialMessage, HandshakeResult, build_ad,
  derive_x3dh_sk, send_dh4, send_keys, receive_dh4, receive_keys, send_handshake, receive_handshake,
  validate_optional,
}

abbrev public_of : Option OneTimePreKey → Option Bytes
public_of none = none
public_of (some opk) = some opk.public_key

abbrev id_of : Option OneTimePreKey → Option ℕ
id_of none = none
id_of (some opk) = some opk.key_id

-- The bundle that the owner of an identity key, a signed prekey and perhaps a one-time prekey publishes.
abbrev pub bundle_of : IdentityKey → SignedPreKey → Option OneTimePreKey → PrekeyBundle
bundle_of ik spk opk = record {
  one_time_pre_key = public_of opk;
  opk_id = id_of opk;
  spk_id = spk.key_id;
  spk_signature = spk.signature;
  identity_key = ik.public_key;
  signed_pre_key = spk.public_key;
}

abbrev pub IsOptionalPair : Primitives → Option OneTimePreKey → Type 0
IsOptionalPair p none = Unit
IsOptionalPair p (some opk) = IsPair p opk.private_key opk.public_key

module _ (p : Primitives) (commutes : X25519Commutes p) where
  pub dh_commutes :
      (a b a_pub b_pub : Bytes)
      → IsPair p a a_pub
      → IsPair p b b_pub
      → dh_x25519 p a b_pub ≡ dh_x25519 p b a_pub
  unfolding dh_x25519
  dh_commutes a b a_pub b_pub pa pb = rw (commutes a b a_pub b_pub pa pb) refl

  -- The receiver's fourth secret is the sender's, and is used by both or by neither.
  dh4_agrees :
      (ik : IdentityKey) (spk : SignedPreKey) (opk : Option OneTimePreKey)
      → (ek_priv ek_pub : Bytes) (dh4 : Option Bytes) (id : Option ℕ) → IsPair p ek_priv ek_pub
      → IsOptionalPair p opk
      → send_dh4 p ek_priv (bundle_of ik spk opk) (bundle_of ik spk opk).one_time_pre_key
        ≡ ok (dh4, id)
      → receive_dh4 p id opk ek_pub ≡ ok dh4
  unfolding send_dh4 receive_dh4
  dh4_agrees ik spk none ek_priv ek_pub dh4 id pe po h = ground (arith, h)
  dh4_agrees ik spk (some opk) ek_priv ek_pub dh4 id pe po h =
      let (x, dh, e) = bind-eq-ok (dh_x25519 p ek_priv opk.public_key) _ h in
      let e1 : dh4 ≡ some x = ground (arith, e) in
      let e2 : id ≡ some opk.key_id = ground (arith, e) in
      rw (e1, e2, dh_commutes opk.private_key ek_priv opk.public_key ek_pub po pe, dh) refl

  -- The receiver's steps, one after the other.
  receive_keys_lem :
      (ik : IdentityKey) (spk : SignedPreKey) (opk : Option OneTimePreKey) (msg : InitialMessage)
      → (dh1 dh2 dh3 sk : Bytes) (dh4 : Option Bytes)
      → dh_x25519 p spk.private_key msg.identity_key ≡ ok dh1
      → dh_x25519 p ik.private_key msg.ephemeral_key ≡ ok dh2
      → dh_x25519 p spk.private_key msg.ephemeral_key ≡ ok dh3
      → receive_dh4 p msg.opk_id opk msg.ephemeral_key ≡ ok dh4
      → derive_x3dh_sk p dh1 dh2 dh3 dh4 ≡ ok sk
      → receive_keys p ik spk opk msg
        ≡ ok (record { ad = build_ad msg.identity_key ik.public_key; shared_secret = sk })
  unfolding receive_keys
  receive_keys_lem ik spk opk msg dh1 dh2 dh3 sk dh4 e1 e2 e3 e4 e5 = simp (e1, e2, e3, e4, e5)

  keys_agree :
      (ik_a ik_b : IdentityKey) (spk : SignedPreKey) (opk : Option OneTimePreKey)
      → (ek_priv ek_pub : Bytes) (r : HandshakeResult) (msg : InitialMessage)
      → IsPair p ik_a.private_key ik_a.public_key
      → IsPair p ik_b.private_key ik_b.public_key
      → IsPair p spk.private_key spk.public_key
      → IsOptionalPair p opk
      → IsPair p ek_priv ek_pub
      → send_keys p ik_a (bundle_of ik_b spk opk) (ek_priv, ek_pub) ≡ ok (r, msg)
      → receive_keys p ik_b spk opk msg ≡ ok r
  unfolding send_keys
  keys_agree ik_a ik_b spk opk ek_priv ek_pub r msg pa pb ps po pe h =
      let (dh1, e1, h1) = bind-eq-ok (dh_x25519 p ik_a.private_key spk.public_key) _ h in
      let (dh2, e2, h2) = bind-eq-ok (dh_x25519 p ek_priv ik_b.public_key) _ h1 in
      let (dh3, e3, h3) = bind-eq-ok (dh_x25519 p ek_priv spk.public_key) _ h2 in
      let (d, e4, h4) =
        bind-eq-ok (send_dh4 p ek_priv (bundle_of ik_b spk opk) (public_of opk)) _ h3 in
      let (sk, e5, h5) = bind-eq-ok (derive_x3dh_sk p dh1 dh2 dh3 d.0) _ h4 in
      let to_r : r ≡ record { ad = build_ad ik_a.public_key ik_b.public_key; shared_secret = sk } =
        ground (arith, h5) in
      let to_msg : msg
          ≡ record { opk_id = d.1; identity_key = ik_a.public_key; ephemeral_key = ek_pub } =
        ground (arith, h5) in
      let got : receive_dh4 p d.1 opk ek_pub ≡ ok d.0 =
        dh4_agrees ik_b spk opk ek_priv ek_pub d.0 d.1 pe po e4 in
      ap (receive_keys p ik_b spk opk) to_msg
      ∙ receive_keys_lem ik_b spk opk
          (record { opk_id = d.1; identity_key = ik_a.public_key; ephemeral_key = ek_pub }) dh1 dh2
          dh3 sk d.0
          (dh_commutes spk.private_key ik_a.private_key spk.public_key ik_a.public_key ps pa ∙ e1)
          (dh_commutes ik_b.private_key ek_priv ik_b.public_key ek_pub pb pe ∙ e2)
          (dh_commutes spk.private_key ek_priv spk.public_key ek_pub ps pe ∙ e3) got e5
      ∙ ap ok (sym to_r)

abbrev clamped : Bytes → Bytes
clamped k =
    let k0 = set k 0 (bit_and (get_or k 0 0) 248) in
    let k1 = set k0 31 (bit_and (get_or k0 31 0) 127) in set k1 31 (bit_or (get_or k1 31 0) 64)

length-clamped : (k : Bytes) → length (clamped k) ≡ length k
length-clamped k =
    length-set (set (set k 0 _) 31 _) 31 _ ∙ length-set (set k 0 _) 31 _ ∙ length-set k 0 _

-- A generated pair is a pair, for 32 bytes from the random source.
pub generate_x25519_key_pair-IsPair :
    (p : Primitives)
    → X25519Length p
    → (entropy : Result Bytes) (priv pub_key : Bytes)
    → ((bytes : Bytes) → entropy ≡ ok bytes → length bytes ≡ 32)
    → generate_x25519_key_pair p entropy ≡ ok (priv, pub_key)
    → IsPair p priv pub_key
unfolding generate_x25519_key_pair
generate_x25519_key_pair-IsPair p xl entropy priv pub_key filled h =
    let (bytes, drawn, h1) = bind-eq-ok entropy _ h in
    let (pub_bytes, made, h2) = bind-eq-ok (p.x25519 (clamped bytes) p.basepoint) _ h1 in
    let whole : take 32 (clamped bytes) ≡ clamped bytes =
      take-all 32 (clamped bytes) (length-clamped bytes ∙ filled bytes drawn) in
    let whole_pub : take 32 pub_bytes ≡ pub_bytes = take-all 32 pub_bytes (xl _ _ pub_bytes made) in
    let e1 : priv ≡ clamped bytes = ground (arith, h2, whole) in
    let e2 : pub_key ≡ pub_bytes = ground (arith, h2, whole_pub) in
    ap (λ k. p.x25519 k p.basepoint) e1 ∙ made ∙ ap ok (sym e2)

-- If the sender's handshake with a bundle succeeds, then the receiver, who owns the bundle's keys,
-- gets the same shared secret and associated data from its message, with or without a one-time
-- prekey. Every key pair is one of X25519, whose multiplications commute; the random source fills its
-- buffer; and the receiver's check accepts the sender's two public keys.
pub handshake_agrees :
    {F P S : Type 0} (c : Edwards F P S) (p : Primitives)
    → X25519Length p
    → X25519Commutes p
    → (entropy : Result Bytes) (ik_a ik_b : IdentityKey) (spk : SignedPreKey)
    → (opk : Option OneTimePreKey) (r : HandshakeResult) (msg : InitialMessage)
    → ((bytes : Bytes) → entropy ≡ ok bytes → length bytes ≡ 32)
    → IsPair p ik_a.private_key ik_a.public_key
    → IsPair p ik_b.private_key ik_b.public_key
    → IsPair p spk.private_key spk.public_key
    → IsOptionalPair p opk
    → validate_public_key c msg.identity_key ≡ ok tt
    → validate_public_key c msg.ephemeral_key ≡ ok tt
    → send_handshake c p entropy ik_a (bundle_of ik_b spk opk) ≡ ok (r, msg)
    → receive_handshake c p ik_b spk opk msg ≡ ok r
unfolding send_handshake receive_handshake
handshake_agrees c p xl commutes entropy ik_a ik_b spk opk r msg filled pa pb ps po v1 v2 h =
    let bundle = bundle_of ik_b spk opk in
    let (_, _, h1) = bind-eq-ok (validate_public_key c bundle.identity_key) _ h in
    let (_, _, h2) = bind-eq-ok (validate_public_key c bundle.signed_pre_key) _ h1 in
    let (_, _, h3) = bind-eq-ok (validate_optional c p bundle.one_time_pre_key) _ h2 in
    elim (Bool-cases
      (xeddsa_verify c bundle.identity_key bundle.signed_pre_key bundle.spk_signature)) [
        | inr bad ↦ absurd (ground (arith, h3, bad))
        | inl good ↦
            let (ek, made, sent) =
              bind-eq-ok (generate_x25519_key_pair p entropy) (send_keys p ik_a bundle)
                (rw good at h3) in
            let pe = generate_x25519_key_pair-IsPair p xl entropy ek.0 ek.1 filled made in
            rw (v1, v2)
              (keys_agree p commutes ik_a ik_b spk opk ek.0 ek.1 r msg pa pb ps po pe sent)
      ]
