-- ===== src/Pqxdh/Agreement.antt =====
-- Both sides of a PQXDH handshake come to the same keys and the same associated data.
use go_doubleratchet.Base.{
  ℕ, ◌≡◌, refl, sym, ap, ◌∙◌, Option, none, some, Bytes, Result, ok, bind-eq-ok, ok-injective,
  arith, length, nat_eq,
}
use go_doubleratchet.Primitives.{Primitives, IsPair, X25519Length, X25519Commutes}
use go_doubleratchet.EcUtil.{Edwards, generate_x25519_key_pair, dh_x25519, validate_public_key}
use go_doubleratchet.X3dh.Agreement.{dh_commutes, generate_x25519_key_pair-IsPair}
use go_doubleratchet.Pqxdh.Kem.{
  IdentityKey, KemParams, MlKem, Decapsulates, KemPreKey, KemSignedPreKey, signed_decaps_key,
  kem_encapsulate, kem_decapsulate, generate_kem_spk,
}
use go_doubleratchet.Pqxdh.{
  SignedPreKey, OneTimePreKey, PrekeyBundle, InitialMessage, HandshakeResult, build_ad,
  derive_pqxdh_sk, send_dh4, send_keys, receive_dh4, receive_keys, check_bundle, send_handshake,
  receive_handshake,
}
use go_doubleratchet.Pqxdh.Kem.RoundTrip.{kem_params_eqb_refl, kem_agrees, generate_kem_spk-key}

abbrev public_of : Option OneTimePreKey → Option Bytes
public_of none = none
public_of (some opk) = some opk.public_key

abbrev id_of : Option OneTimePreKey → Option ℕ
id_of none = none
id_of (some opk) = some opk.key_id

-- The bundle that the owner of the keys publishes.
abbrev pub bundle_of :
    IdentityKey → SignedPreKey → Option OneTimePreKey → KemSignedPreKey → PrekeyBundle
bundle_of ik spk opk kem_spk = record {
  one_time_pre_key = public_of opk;
  opk_id = id_of opk;
  pq_pre_key = kem_spk.encapsulation_key;
  pq_params = kem_spk.params;
  spk_id = spk.key_id;
  pq_pre_key_id = kem_spk.key_id;
  spk_signature = spk.signature;
  pq_pre_key_signature = kem_spk.signature;
  identity_key = ik.public_key;
  signed_pre_key = spk.public_key;
}

abbrev pub IsOptionalPair : Primitives → Option OneTimePreKey → Type 0
IsOptionalPair p none = Unit
IsOptionalPair p (some opk) = IsPair p opk.private_key opk.public_key

module _ (p : Primitives) (commutes : X25519Commutes p) where
  -- The receiver's fourth secret is the sender's, and is used by both or by neither.
  dh4_agrees :
      (bundle : PrekeyBundle) (opk : Option OneTimePreKey) (ek_priv ek_pub : Bytes)
      (dh4 : Option Bytes) (id : Option ℕ)
      → bundle.opk_id ≡ id_of opk
      → IsPair p ek_priv ek_pub
      → IsOptionalPair p opk
      → send_dh4 p ek_priv bundle (public_of opk) ≡ ok (dh4, id)
      → receive_dh4 p id opk ek_pub ≡ ok dh4
  unfolding send_dh4 receive_dh4
  dh4_agrees bundle none ek_priv ek_pub dh4 id named pe po h = ground (arith, h)
  dh4_agrees bundle (some opk) ek_priv ek_pub dh4 id named pe po h =
      let (x, dh, e) = bind-eq-ok (dh_x25519 p ek_priv opk.public_key) _ h in
      let e1 : dh4 ≡ some x = ground (arith, e) in
      let e2 : id ≡ some opk.key_id = ground (arith, e, named) in
      rw (e1, e2, dh_commutes p commutes opk.private_key ek_priv opk.public_key ek_pub po pe, dh)
        refl

  -- The receiver's steps, one after the other.
  receive_keys_lem :
      (ik : IdentityKey) (spk : SignedPreKey) (opk : Option OneTimePreKey) (pqpk : KemPreKey)
      (msg : InitialMessage) (dh1 dh2 dh3 ss : Bytes) (dh4 : Option Bytes) (r : HandshakeResult)
      → dh_x25519 p spk.private_key msg.identity_key ≡ ok dh1
      → dh_x25519 p ik.private_key msg.ephemeral_key ≡ ok dh2
      → dh_x25519 p spk.private_key msg.ephemeral_key ≡ ok dh3
      → receive_dh4 p msg.opk_id opk msg.ephemeral_key ≡ ok dh4
      → derive_pqxdh_sk p dh1 dh2 dh3 dh4 ss ≡ ok r
      → receive_keys p ik spk opk pqpk msg ss
        ≡ ok (record r { ad = build_ad msg.identity_key ik.public_key pqpk.encapsulation_key })
  unfolding receive_keys
  receive_keys_lem ik spk opk pqpk msg dh1 dh2 dh3 ss dh4 r e1 e2 e3 e4 e5 =
      simp (e1, e2, e3, e4, e5)

  -- The message of a sender that used this ephemeral key and this ciphertext.
  abbrev message_of : IdentityKey → PrekeyBundle → Bytes → Bytes → Option ℕ → InitialMessage
  message_of ik bundle ek_pub ct id = record {
    opk_id = id;
    kem_ciphertext = ct;
    pq_params = bundle.pq_params;
    pq_pre_key_id = bundle.pq_pre_key_id;
    identity_key = ik.public_key;
    ephemeral_key = ek_pub;
  }

  keys_agree :
      (ik_a ik_b : IdentityKey) (spk : SignedPreKey) (opk : Option OneTimePreKey)
      (kem_spk : KemSignedPreKey) (ek_priv ek_pub ct ss : Bytes) (r : HandshakeResult)
      (msg : InitialMessage)
      → IsPair p ik_a.private_key ik_a.public_key
      → IsPair p ik_b.private_key ik_b.public_key
      → IsPair p spk.private_key spk.public_key
      → IsOptionalPair p opk
      → IsPair p ek_priv ek_pub
      → send_keys p ik_a (bundle_of ik_b spk opk kem_spk) (ek_priv, ek_pub) (ct, ss) ≡ ok (r, msg)
      → (receive_keys p ik_b spk opk (signed_decaps_key kem_spk) msg ss ≡ ok r)
        × (msg.kem_ciphertext ≡ ct)
        × (msg.pq_params ≡ kem_spk.params)
  unfolding send_keys signed_decaps_key
  keys_agree ik_a ik_b spk opk kem_spk ek_priv ek_pub ct ss r msg pa pb ps po pe h =
      let bundle = bundle_of ik_b spk opk kem_spk in
      let (dh1, e1, h1) = bind-eq-ok (dh_x25519 p ik_a.private_key spk.public_key) _ h in
      let (dh2, e2, h2) = bind-eq-ok (dh_x25519 p ek_priv ik_b.public_key) _ h1 in
      let (dh3, e3, h3) = bind-eq-ok (dh_x25519 p ek_priv spk.public_key) _ h2 in
      let (d, e4, h4) = bind-eq-ok (send_dh4 p ek_priv bundle (public_of opk)) _ h3 in
      let (r0, e5, h5) = bind-eq-ok (derive_pqxdh_sk p dh1 dh2 dh3 d.0 ss) _ h4 in
      let made = ok-injective _ (r, msg) h5 in
      let to_msg : message_of ik_a bundle ek_pub ct d.1 ≡ msg =
        ap (λ (x : HandshakeResult × InitialMessage). x.1) made in
      let received =
        receive_keys_lem ik_b spk opk (signed_decaps_key kem_spk)
          (message_of ik_a bundle ek_pub ct d.1) dh1 dh2 dh3 ss d.0 r0
          (dh_commutes p commutes spk.private_key ik_a.private_key spk.public_key ik_a.public_key ps
              pa
            ∙ e1)
          (dh_commutes p commutes ik_b.private_key ek_priv ik_b.public_key ek_pub pb pe ∙ e2)
          (dh_commutes p commutes spk.private_key ek_priv spk.public_key ek_pub ps pe ∙ e3)
          (dh4_agrees bundle opk ek_priv ek_pub d.0 d.1 refl pe po e4) e5 in
      (
        ap (λ m. receive_keys p ik_b spk opk (signed_decaps_key kem_spk) m ss) (sym to_msg)
            ∙ received
            ∙ ap (λ (x : HandshakeResult × InitialMessage). ok x.0) made,
        ap (λ (m : InitialMessage). m.kem_ciphertext) (sym to_msg),
        ap (λ (m : InitialMessage). m.pq_params) (sym to_msg),
      )

-- If the sender's handshake with a bundle succeeds, then the receiver, who owns the bundle's keys,
-- gets the same root key, chain key and PQR key and the same associated data from its message, with
-- or without a one-time prekey. The post-quantum prekey is one that GenerateKEMSPK returned, and
-- decapsulation inverts encapsulation for both parameter sets. Every key pair is one of X25519, which
-- gives 32 bytes and whose multiplications commute; the random source fills its buffer; and the
-- receiver's check accepts the sender's two public keys.
pub handshake_agrees_pq :
    {F P S : Type 0} (c : Edwards F P S) (p : Primitives) (kem : MlKem)
    → X25519Length p
    → X25519Commutes p
    → Decapsulates kem.ops768
    → Decapsulates kem.ops1024
    → (entropy kem_entropy sign_entropy : Result Bytes) (drawn : Bytes) (ik_a ik_b : IdentityKey)
      (spk : SignedPreKey) (opk : Option OneTimePreKey) (kem_spk : KemSignedPreKey) (key_id : ℕ)
      (params : KemParams) (r : HandshakeResult) (msg : InitialMessage)
    → ((bytes : Bytes) → entropy ≡ ok bytes → length bytes ≡ 32)
    → IsPair p ik_a.private_key ik_a.public_key
    → IsPair p ik_b.private_key ik_b.public_key
    → IsPair p spk.private_key spk.public_key
    → IsOptionalPair p opk
    → generate_kem_spk c kem kem_entropy sign_entropy ik_b key_id params ≡ ok kem_spk
    → validate_public_key c msg.identity_key ≡ ok tt
    → validate_public_key c msg.ephemeral_key ≡ ok tt
    → send_handshake c p kem entropy drawn ik_a (bundle_of ik_b spk opk kem_spk) ≡ ok (r, msg)
    → receive_handshake c p kem ik_b spk opk (signed_decaps_key kem_spk) msg ≡ ok r
unfolding send_handshake receive_handshake signed_decaps_key
handshake_agrees_pq c p kem xl commutes d768 d1024 entropy kem_entropy sign_entropy drawn ik_a ik_b
      spk opk kem_spk key_id params r msg filled pa pb ps po made v1 v2 h =
    let bundle = bundle_of ik_b spk opk kem_spk in
    let (_, _, h1) = bind-eq-ok (check_bundle c bundle) _ h in
    let (ek, drawn_pair, h2) = bind-eq-ok (generate_x25519_key_pair p entropy) _ h1 in
    let (sealed, encapsulated, sent) =
      bind-eq-ok (kem_encapsulate kem drawn bundle.pq_pre_key bundle.pq_params) _ h2 in
    let pe = generate_x25519_key_pair-IsPair p xl entropy ek.0 ek.1 filled drawn_pair in
    let (got, ct, pq) =
      keys_agree p commutes ik_a ik_b spk opk kem_spk ek.0 ek.1 sealed.0 sealed.1 r msg pa pb ps po
        pe sent in
    let opened : kem_decapsulate kem (signed_decaps_key kem_spk) sealed.0 ≡ ok sealed.1 =
      kem_agrees kem d768 d1024 kem_entropy drawn kem_spk.seed kem_spk.encapsulation_key sealed.0
        sealed.1 kem_spk.params
        (generate_kem_spk-key c kem kem_entropy sign_entropy ik_b key_id params kem_spk made)
        encapsulated in
    simp (pq, kem_params_eqb_refl kem_spk.params, v1, v2, ct, opened) got
