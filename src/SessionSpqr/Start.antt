-- ===== src/SessionSpqr/Start.antt =====
-- The two sessions of the post-quantum ratchet before the first message.
use go_doubleratchet.Base.{
  ◌≡◌, refl, sym, ap, ◌∙◌, [], ◌∷◌, Option, none, some, Bytes, length, ok, bind-eq-ok, ok-injective,
  subst, Bool-cases, inl, inr, ltb, arith, nat_eqb, nat_eq,
}
use go_doubleratchet.Base.GoMap
use go_doubleratchet.Primitives.{Primitives}
use go_doubleratchet.Config.{Config}
use go_doubleratchet.Kdf.{derive_initial_chains_spqr}
use go_doubleratchet.Scka.{Provider}
use go_doubleratchet.State.Epoch.{Direction, direction_a2b, direction_b2a}
use go_doubleratchet.Session.{config_or_default}
use go_doubleratchet.SessionSpqr.{
  SpqrSession, new_pair, new_session, init_initiator_scka, init_responder_scka, send_chain,
  receive_chain,
}
use go_doubleratchet.SessionSpqr.Chains.{opposite, FollowsAll}
use go_doubleratchet.SessionSpqr.Adopt.{Paired}

-- A new session at the chains of a shared secret.
record Derived {P : Type 0} (direction : Direction) (keys : Bytes × Bytes × Bytes)
    (s : SpqrSession P) : Type 0 where
  pub root : s.rk ≡ keys.0
  pub at_zero : s.epoch ≡ 0
  pub side : s.direction ≡ direction
  pub chains : s.kdf_chains ≡ (0, new_pair keys.1 keys.2) ∷ []
  pub nothing : s.mk_skipped ≡ []

new_session-Derived :
    {P : Type 0} (scka : P) (direction : Direction) (config : Config) (rk cks ckr : Bytes)
    → Derived direction (rk, cks, ckr) (new_session scka direction config rk cks ckr)
unfolding new_session
new_session-Derived scka direction config rk cks ckr = record {
  root = refl;
  at_zero = refl;
  side = refl;
  chains = refl;
  nothing = refl;
}

-- The chains of the two directions follow each other.
new_chains :
    (cks ckr : Bytes) → FollowsAll ((0, new_pair cks ckr) ∷ []) ((0, new_pair ckr cks) ∷ [])
unfolding send_chain receive_chain new_pair GoMap.lookup
new_chains cks ckr epoch = elim (Bool-cases (nat_eqb 0 epoch)) [
  | inl zero ↦ rw zero refl
  | inr other ↦ rw other tt
]

Derived-Paired :
    {P : Type 0} (d : Direction) (rk cks ckr : Bytes) (a b : SpqrSession P)
    → Derived d (rk, cks, ckr) a
    → Derived (opposite d) (rk, ckr, cks) b
    → Paired a b
Derived-Paired d rk cks ckr a b x y = record {
  root = y.root ∙ sym x.root;
  epochs = y.at_zero ∙ sym x.at_zero;
  directions = y.side ∙ ap opposite (sym x.side);
  chains = rw (x.chains, y.chains) (new_chains cks ckr);
  nothing = y.nothing;
}

module _ {P S : Type 0} (p : Primitives) (scka : Provider P S) where
  init_initiator_scka-Derived :
      (sk : Bytes) (provider : Option P) (cfg : Option Config) (a : SpqrSession P)
      → init_initiator_scka p scka sk provider cfg ≡ ok a
      → (rk : Bytes) × (cks : Bytes) × (ckr : Bytes) × (derive_initial_chains_spqr p sk
          ≡ ok (rk, cks, ckr))
        × Derived direction_a2b (rk, cks, ckr) a
  unfolding init_initiator_scka
  init_initiator_scka-Derived sk none cfg a h = absurd (ground (arith, h))
  init_initiator_scka-Derived sk (some provider) cfg a h = elim (Bool-cases (ltb (length sk) 32)) [
    | inl short ↦ absurd (ground (arith, h, short))
    | inr long ↦
        let (_, _, h1) = bind-eq-ok (scka.init_initiator sk provider).0 _ (rw long at h) in
        let (keys, derived, h2) = bind-eq-ok (derive_initial_chains_spqr p sk) _ h1 in
        (
          keys.0,
          keys.1,
          keys.2,
          derived,
          subst (Derived direction_a2b keys) (ok-injective _ a h2)
              (new_session-Derived _ direction_a2b (config_or_default cfg) keys.0 keys.1 keys.2),
        )
  ]

  init_responder_scka-Derived :
      (sk : Bytes) (provider : Option P) (cfg : Option Config) (b : SpqrSession P)
      (keys : Bytes × Bytes × Bytes)
      → init_responder_scka p scka sk provider cfg ≡ ok b
      → derive_initial_chains_spqr p sk ≡ ok keys
      → Derived direction_b2a (keys.0, keys.2, keys.1) b
  unfolding init_responder_scka
  init_responder_scka-Derived sk none cfg b keys h derived = absurd (ground (arith, h))
  init_responder_scka-Derived sk (some provider) cfg b keys h derived =
      elim (Bool-cases (ltb (length sk) 32)) [
        | inl short ↦ absurd (ground (arith, h, short))
        | inr long ↦
            let (_, _, h1) = bind-eq-ok (scka.init_responder sk provider).0 _ (rw long at h) in
            subst (Derived direction_b2a (keys.0, keys.2, keys.1))
              (ok-injective _ b (rw derived at h1))
              (new_session-Derived _ direction_b2a (config_or_default cfg) keys.0 keys.2 keys.1)
      ]

  -- The sessions that InitInitiatorSCKA and InitResponderSCKA return for the same secret are ready for
  -- messages both ways: each side has got all that the other has sent.
  pub init_scka-Paired :
      (sk : Bytes) (provider_a provider_b : Option P) (cfg_a cfg_b : Option Config)
      (a b : SpqrSession P)
      → init_initiator_scka p scka sk provider_a cfg_a ≡ ok a
      → init_responder_scka p scka sk provider_b cfg_b ≡ ok b
      → Paired a b × Paired b a
  unfolding opposite
  init_scka-Paired sk provider_a provider_b cfg_a cfg_b a b started waiting =
      let (rk, cks, ckr, derived, x) = init_initiator_scka-Derived sk provider_a cfg_a a started in
      let y = init_responder_scka-Derived sk provider_b cfg_b b (rk, cks, ckr) waiting derived in
      (
        Derived-Paired direction_a2b rk cks ckr a b x y,
        Derived-Paired direction_b2a rk ckr cks b a y x,
      )
