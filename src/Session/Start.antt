-- ===== src/Session/Start.antt =====
-- The two sessions before the first message, as InitInitiator and InitResponder return them.
use go_doubleratchet.Base.{
  ℕ, [], ◌≡◌, refl, ap, ◌∙◌, true, false, Option, none, some, Bytes, length, take, set, length-set,
  take-all, Result, ok, subst, bind-eq-ok, ok-injective, Bool-cases, arith, inl, inr, ltb,
  bytes_eqb_refl,
}
use go_doubleratchet.Primitives.{Primitives, IsPair, X25519Length}
use go_doubleratchet.Config.{Config, validate, effective_max_skip, effective_kdf_info}
use go_doubleratchet.Crypto.{
  KeyPair, clamp, generate_key_pair, shared_secret, public_key_from_private, verify_public_key,
}
use go_doubleratchet.Message.{Header}
use go_doubleratchet.Base.GoMap
use go_doubleratchet.State.Skipped.{Storage, new_storage}
use go_doubleratchet.State.Skipped.Access.{stored}
use go_doubleratchet.State.Skipped.Laws.{new_storage-IsValid}
use go_doubleratchet.State.ReceiverChains.{
  ReceiverChains, new_receiver_chains, push, add_chain, find, get_from, has, chain_at,
}
use go_doubleratchet.Session.{
  Session, config_or_default, derive_root_and_chain, init_initiator, init_responder,
}
use go_doubleratchet.Session.Methods.{is_current_chain, is_new_epoch}
use go_doubleratchet.State.ReceiverChains.Window
use go_doubleratchet.State.ReceiverChains.Window.{push-IsValid, new_receiver_chains-IsValid}
use go_doubleratchet.Session.Deliver.{chain}

length-clamp : (k : Bytes) → length (clamp k) ≡ length k
unfolding clamp
length-clamp k =
    length-set (set (set k 0 _) 31 _) 31 _ ∙ length-set (set k 0 _) 31 _ ∙ length-set k 0 _

module _ (p : Primitives) where
  -- What a generated private key comes with.
  pub generate_key_pair_lem :
      X25519Length p
      → (entropy : Result Bytes) (k : Bytes × Bytes)
      → ((bytes : Bytes) → entropy ≡ ok bytes → length bytes ≡ 32)
      → generate_key_pair p entropy ≡ ok k
      → (pk : Bytes) × IsPair p k.0 pk
  unfolding generate_key_pair
  generate_key_pair_lem xl entropy k filled h =
      let (bytes, drawn, h1) = bind-eq-ok entropy _ h in
      let (pk, made, h2) = bind-eq-ok (p.x25519 (clamp bytes) p.basepoint) _ h1 in
      let whole : take 32 (clamp bytes) ≡ clamp bytes =
        take-all 32 (clamp bytes) (length-clamp bytes ∙ filled bytes drawn) in
      let e : k.0 ≡ clamp bytes = ground (arith, h2, whole) in
      (pk, ap (λ x. p.x25519 x p.basepoint) e ∙ made)

  pub own_key_lem :
      X25519Length p → (priv pk : Bytes) → IsPair p priv pk → public_key_from_private p priv ≡ ok pk
  unfolding public_key_from_private
  own_key_lem xl priv pk pair = rw (pair) (ap ok (take-all 32 pk (xl priv p.basepoint pk pair)))

  -- The initiator's session, as far as its first message depends on it.
  pub record Starts (secret bob_pk : Bytes) (a : Session) : Type 0 where
    pub pk : Bytes
    pub dh_out : Bytes
    pub ck : Bytes
    pub pair : IsPair p a.dhs pk
    pub agreed : shared_secret p a.dhs bob_pk ≡ ok dh_out
    pub derived :
        derive_root_and_chain p dh_out (take 32 secret) (effective_kdf_info a.config)
        ≡ ok (a.rk, ck)
    pub sending : a.cks ≡ some ck
    pub number : a.ns ≡ 0
    pub no_turn : a.dh_ratchet_performed ≡ false

  pub init_initiator-Starts :
      X25519Length p
      → (entropy : Result Bytes) (secret bob_pk : Bytes) (cfg : Option Config) (a : Session)
      → ((bytes : Bytes) → entropy ≡ ok bytes → length bytes ≡ 32)
      → init_initiator p entropy secret bob_pk cfg ≡ ok a
      → Starts secret bob_pk a
  unfolding init_initiator
  init_initiator-Starts xl entropy secret bob_pk cfg a filled h =
      elim (Bool-cases (ltb (length secret) 32)) [
        | inl short ↦ absurd (ground (arith, h, short))
        | inr long ↦
            let config = config_or_default cfg in
            let (_, _, h1) = bind-eq-ok (validate (some config)) _ (rw long at h) in
            let (k, made, h2) = bind-eq-ok (generate_key_pair p entropy) _ h1 in
            let (dh_out, agreed, h3) = bind-eq-ok (shared_secret p k.0 bob_pk) _ h2 in
            let (keys, derived, h4) =
              bind-eq-ok
                (derive_root_and_chain p dh_out (take 32 secret) (effective_kdf_info config)) _
                h3 in
            let (sk, _, h5) = bind-eq-ok (new_storage (effective_max_skip (some config))) _ h4 in
            let (pk, pair) = generate_key_pair_lem xl entropy k filled made in
            subst (Starts secret bob_pk) (ok-injective _ a h5) (record {
              pk = pk;
              dh_out = dh_out;
              ck = keys.1;
              pair = pair;
              agreed = agreed;
              derived = derived;
              sending = refl;
              number = refl;
              no_turn = refl;
            })
      ]

-- The responder's session before the first message.
pub record Waits (secret : Bytes) (pair : KeyPair) (b : Session) : Type 0 where
  pub chains : b.recv_chains ≡ new_receiver_chains
  pub not_set : b.dh_r_set ≡ false
  pub root : b.rk ≡ take 32 secret
  pub own_private : b.dhs ≡ pair.private_key
  pub nothing : (pk : Bytes) (n : ℕ) → stored b.mk_skipped pk n ≡ none

nothing_stored : (s : Storage) → s.entries ≡ [] → (pk : Bytes) (n : ℕ) → stored s pk n ≡ none
unfolding stored GoMap.lookup
nothing_stored s e pk n = rw e refl

pub init_responder-Waits :
    (secret : Bytes) (pair : KeyPair) (cfg : Option Config) (b : Session)
    → init_responder secret pair cfg ≡ ok b
    → Waits secret pair b
unfolding init_responder
init_responder-Waits secret pair cfg b h = elim (Bool-cases (ltb (length secret) 32)) [
  | inl short ↦ absurd (ground (arith, h, short))
  | inr long ↦ elim (Bool-cases (verify_public_key pair.public_key)) [
    | inr bad ↦
        let (_, _, h1) = bind-eq-ok (validate (some (config_or_default cfg))) _ (rw long at h) in
        absurd (ground (arith, h1, bad))
    | inl good ↦
        let (_, _, h1) = bind-eq-ok (validate (some (config_or_default cfg))) _ (rw long at h) in
        let (sk, made, h2) =
          bind-eq-ok (new_storage (effective_max_skip (some (config_or_default cfg)))) _
            (rw good at h1) in
        let (v, same, empty) =
          new_storage-IsValid (effective_max_skip (some (config_or_default cfg))) made in
        subst (Waits secret pair) (ok-injective _ b h2) (record {
          chains = refl;
          not_set = refl;
          root = refl;
          own_private = refl;
          nothing = nothing_stored sk empty;
        })
  ]
]

abbrev pub one_chain : Bytes → Bytes → ReceiverChains
one_chain pk ck = push new_receiver_chains pk (some ck)

pub find-one_chain : (pk ck : Bytes) → find (one_chain pk ck) pk ≡ some 0
unfolding find push add_chain new_receiver_chains get_from
find-one_chain pk ck = rw (bytes_eqb_refl pk) refl

pub chain_at-one_chain : (pk ck : Bytes) → chain_at (one_chain pk ck) 0 ≡ chain ck 0 pk
unfolding chain_at push add_chain new_receiver_chains
chain_at-one_chain pk ck = refl

pub one_chain-IsValid : (pk ck : Bytes) → Window.IsValid (one_chain pk ck)
one_chain-IsValid pk ck =
    push-IsValid new_receiver_chains pk (some ck) new_receiver_chains-IsValid.0

pub nothing_known :
    (s : Session) (header : Header)
    → s.recv_chains ≡ new_receiver_chains
    → s.dh_r_set ≡ false
    → is_new_epoch s header ≡ true
unfolding is_new_epoch is_current_chain has find get_from new_receiver_chains
nothing_known s header c d = rw (d, c) refl
