-- ===== src/SessionSpqr/Adopt.antt =====
-- Two sides of the post-quantum ratchet that are in step adopt the same key of their providers.
use go_doubleratchet.Base.{
  ℕ, ◌≡◌, refl, sym, ap, ◌∙◌, Bool, true, false, [], Option, none, some, Bytes, ok, continue-eq-ok,
  leb, nat_eqb, if◌then◌else◌, arith, Bool-cases, inl, inr, nat_eq, subst,
}
use go_doubleratchet.Base.Words.{u32_succ}
use go_doubleratchet.Base.GoMap
use go_doubleratchet.Primitives.{Primitives}
use go_doubleratchet.Kdf.{ratchet_root_key_spqr}
use go_doubleratchet.State.Epoch.{KdfChain, KdfChainPair}
use go_doubleratchet.SessionSpqr.{
  SpqrSession, ChainMap, send_chain, receive_chain, keep_from, clear_old_epochs, send_of,
  receive_of,
}
use go_doubleratchet.SessionSpqr.Methods.{adopt_key, directed_pair}
use go_doubleratchet.SessionSpqr.Epochs.{
  is_old, clear_old_epochs_lem, clear_old_epochs-rest, adopted, adopt_key-ok,
}
use go_doubleratchet.SessionSpqr.Chains.{Follows, FollowsAll, opposite, directed_pair-opposite}

-- The receiver `b` has got all that the sender `a` has sent: the same root key and epoch, the sending
-- chains as receiving chains, and nothing skipped.
pub record Paired {P : Type 0} (a b : SpqrSession P) : Type 0 where
  pub root : b.rk ≡ a.rk
  pub epochs : b.epoch ≡ a.epoch
  pub directions : b.direction ≡ opposite a.direction
  pub chains : FollowsAll a.kdf_chains b.kdf_chains
  pub nothing : b.mk_skipped ≡ []

-- A pair of chains of an epoch, as each side has it.
abbrev Match : Option KdfChainPair → Option KdfChainPair → Type 0
Match x y = Follows (send_of x) (receive_of y)

Match-if :
    (c : Bool) (x y u v : Option KdfChainPair)
    → Match x y
    → Match u v
    → Match (if c then x else u) (if c then y else v)
Match-if true x y u v m n = m
Match-if false x y u v m n = n

clear-FollowsAll :
    {P : Type 0} (e : ℕ) (a b : SpqrSession P)
    → FollowsAll a.kdf_chains b.kdf_chains
    → FollowsAll (clear_old_epochs e a).kdf_chains (clear_old_epochs e b).kdf_chains
unfolding send_chain receive_chain
clear-FollowsAll e a b f = λ j.
    subst (λ x. Match x (GoMap.lookup j (clear_old_epochs e b).kdf_chains))
      (sym (clear_old_epochs_lem e j a).0)
      (subst (λ y. Match (if is_old e j then none else GoMap.lookup j a.kdf_chains) y)
        (sym (clear_old_epochs_lem e j b).0) (Match-if (is_old e j) none none _ _ tt (f j)))

Follows-same : (o r : Option KdfChain) → o ≡ r → Follows o r
Follows-same none r e = tt
Follows-same (some c) r e = sym e

insert-FollowsAll :
    (k : ℕ) (x y : KdfChainPair) (a b : ChainMap)
    → x.send ≡ y.receive
    → FollowsAll a b
    → FollowsAll (GoMap.insert k x a) (GoMap.insert k y b)
unfolding send_chain receive_chain
insert-FollowsAll k x y a b h f = λ j.
    subst (λ u. Match u (GoMap.lookup j (GoMap.insert k y b))) (sym (GoMap.lookup-insert j k x a))
      (subst (λ v. Match (if nat_eqb k j then some x else GoMap.lookup j a) v)
        (sym (GoMap.lookup-insert j k y b))
        (Match-if (nat_eqb k j) (some x) (some y) _ _ (Follows-same x.send y.receive h) (f j)))

module _ {P : Type 0} (p : Primitives) where
  clear-nothing :
      (e : ℕ) (s : SpqrSession P) → s.mk_skipped ≡ [] → (clear_old_epochs e s).mk_skipped ≡ []
  unfolding clear_old_epochs keep_from
  clear-nothing e s h = elim (Bool-cases (leb e 1)) [
    | inl young ↦ rw young h
    | inr old ↦ rw old (rw h refl)
  ]

  clear-direction : (e : ℕ) (s : SpqrSession P) → (clear_old_epochs e s).direction ≡ s.direction
  unfolding clear_old_epochs
  clear-direction e s = ground arith

  -- What the one side adopts, the other adopts too.
  pub adopt_key-Paired :
      (e : ℕ) (key : Option Bytes) (key_epoch : ℕ) (a b : SpqrSession P) (u : Unit {0})
      → Paired a b
      → (adopt_key p e key key_epoch a).0 ≡ ok u
      → ((adopt_key p e key key_epoch b).0 ≡ ok tt)
        × Paired (adopt_key p e key key_epoch a).1 (adopt_key p e key key_epoch b).1
  unfolding adopt_key
  adopt_key-Paired e none key_epoch a b u y h = (refl, y)
  adopt_key-Paired e (some key) key_epoch a b u y h =
      elim (Bool-cases (nat_eqb (u32_succ a.epoch) key_epoch)) [
        | inr other ↦ absurd (ground (arith, h, other))
        | inl next ↦
            let (keys, derived, _, _) =
              continue-eq-ok {B = Unit {0}} (ratchet_root_key_spqr p a.rk key) a _ (rw next at h) in
            let a_ok = adopt_key-ok p e key_epoch key keys a next derived in
            let b_ok =
              adopt_key-ok p e key_epoch key keys b (rw y.epochs next) (rw y.root derived) in
            let (ra, ea) = clear_old_epochs-rest e (adopted a key_epoch keys) in
            let (rb, eb) = clear_old_epochs-rest e (adopted b key_epoch keys) in
            (
              ap (λ r. r.0) b_ok,
              rw (ap (λ r. r.1) a_ok, ap (λ r. r.1) b_ok)
                  (record {
                    root = rb ∙ sym ra;
                    epochs = eb ∙ sym ea;
                    directions =
                        clear-direction e (adopted b key_epoch keys)
                        ∙ y.directions
                        ∙ ap opposite (sym (clear-direction e (adopted a key_epoch keys)));
                    chains =
                        clear-FollowsAll e (adopted a key_epoch keys) (adopted b key_epoch keys) (
                          insert-FollowsAll key_epoch _ _ a.kdf_chains b.kdf_chains
                            (directed_pair-opposite a.direction keys.1 keys.2
                              ∙ ap (λ d. (directed_pair d keys.1 keys.2).receive)
                                  (sym y.directions))
                            y.chains);
                    nothing = clear-nothing e (adopted b key_epoch keys) y.nothing;
                  }),
            )
      ]
