-- ===== src/SessionSpqr/Epochs.antt =====
-- Which epochs a session of the post-quantum ratchet holds after it has adopted a key.
use go_doubleratchet.Base.{
  ℕ, ◌-◌, ◌≡◌, ap, Bool, true, false, [], ◌∷◌, none, some, Bytes, ok, continue-eq-ok, ltb, leb,
  nat_eqb, if◌then◌else◌, arith, Bool-cases, inl, inr, nat_eq, nat_eqb_iff,
}
use go_doubleratchet.Base.Words.{u32_succ}
use go_doubleratchet.Base.GoMap
use go_doubleratchet.Base.GoMap.{GoMap}
use go_doubleratchet.Primitives.{Primitives}
use go_doubleratchet.Kdf.{ratchet_root_key_spqr}
use go_doubleratchet.SessionSpqr.{SpqrSession, keep_from, clear_old_epochs}
use go_doubleratchet.SessionSpqr.Methods.{adopt_key, directed_pair}

pub lookup-keep_from :
    {V : Type 0} (bound epoch : ℕ) (m : GoMap ℕ V)
    → GoMap.lookup epoch (keep_from bound m)
      ≡ (if ltb epoch bound then none else GoMap.lookup epoch m)
unfolding keep_from GoMap.lookup
lookup-keep_from bound epoch [] = ground arith
lookup-keep_from bound epoch ((e, v) ∷ m) =
    ground (arith, lookup-keep_from bound epoch m, nat_eqb_iff e epoch)

-- Is the epoch older than the one before the message's?
unfoldable pub is_old : ℕ → ℕ → Bool
is_old message_epoch epoch = if leb message_epoch 1 then false else ltb epoch (message_epoch - 1)

module _ {P : Type 0} where
  pub clear_old_epochs_lem :
      (message_epoch epoch : ℕ) (s : SpqrSession P)
      → (GoMap.lookup epoch (clear_old_epochs message_epoch s).kdf_chains
          ≡ (if is_old message_epoch epoch then none else GoMap.lookup epoch s.kdf_chains))
        × (GoMap.lookup epoch (clear_old_epochs message_epoch s).mk_skipped
            ≡ (if is_old message_epoch epoch then none else GoMap.lookup epoch s.mk_skipped))
  unfolding clear_old_epochs is_old
  clear_old_epochs_lem message_epoch epoch s = (
    ground (arith, lookup-keep_from (message_epoch - 1) epoch s.kdf_chains),
    ground (arith, lookup-keep_from (message_epoch - 1) epoch s.mk_skipped),
  )

  -- A session at the epoch of a key.
  abbrev pub adopted : SpqrSession P → ℕ → Bytes × Bytes × Bytes → SpqrSession P
  adopted s key_epoch (rk, cks, ckr) = record s {
    rk = rk;
    kdf_chains = GoMap.insert key_epoch (directed_pair s.direction cks ckr) s.kdf_chains;
    epoch = key_epoch;
  }

  pub clear_old_epochs-rest :
      (message_epoch : ℕ) (s : SpqrSession P)
      → ((clear_old_epochs message_epoch s).rk ≡ s.rk)
        × ((clear_old_epochs message_epoch s).epoch ≡ s.epoch)
  unfolding clear_old_epochs
  clear_old_epochs-rest message_epoch s = (ground arith, ground arith)

  module _ (p : Primitives) where
    pub adopt_key-ok :
        (message_epoch key_epoch : ℕ) (key : Bytes) (keys : Bytes × Bytes × Bytes)
        (s : SpqrSession P)
        → nat_eqb (u32_succ s.epoch) key_epoch ≡ true
        → ratchet_root_key_spqr p s.rk key ≡ ok keys
        → adopt_key p message_epoch (some key) key_epoch s
          ≡ (ok tt, clear_old_epochs message_epoch (adopted s key_epoch keys))
    unfolding adopt_key
    adopt_key-ok message_epoch key_epoch key keys s next derived = simp (next, derived)

    -- If a key is adopted, the session moves on by one epoch, the epoch of the key, to the root key
    -- and the chains that the derivation gives, directed, and no chain and no skipped key of an epoch
    -- before that of the message's predecessor is left, while every other epoch is as it was.
    pub adopt_key_lem :
        (message_epoch key_epoch epoch : ℕ) (key : Bytes) (s : SpqrSession P) (u : Unit {0})
        → (adopt_key p message_epoch (some key) key_epoch s).0 ≡ ok u
        → let s' = (adopt_key p message_epoch (some key) key_epoch s).1 in
          (cks : Bytes) × (ckr : Bytes) × (ratchet_root_key_spqr p s.rk key ≡ ok (s'.rk, cks, ckr))
          × (s'.epoch ≡ u32_succ s.epoch)
          × (key_epoch ≡ s'.epoch)
          × (GoMap.lookup epoch s'.kdf_chains ≡ (
              if is_old message_epoch epoch
              then none
              else (if nat_eqb key_epoch epoch
                  then some (directed_pair s.direction cks ckr)
                  else GoMap.lookup epoch s.kdf_chains)))
          × (GoMap.lookup epoch s'.mk_skipped
              ≡ (if is_old message_epoch epoch then none else GoMap.lookup epoch s.mk_skipped))
    unfolding adopt_key
    adopt_key_lem message_epoch key_epoch epoch key s u h =
        elim (Bool-cases (nat_eqb (u32_succ s.epoch) key_epoch)) [
          | inr other ↦ absurd (ground (arith, h, other))
          | inl next ↦
              let (keys, derived, _, e) =
                continue-eq-ok {B = Unit {0}} (ratchet_root_key_spqr p s.rk key) s _
                  (rw next at h) in
              let same = adopt_key-ok message_epoch key_epoch key keys s next derived in
              let (rk, ep) = clear_old_epochs-rest message_epoch (adopted s key_epoch keys) in
              let (chains, skipped) =
                clear_old_epochs_lem message_epoch epoch (adopted s key_epoch keys) in
              rw same (
                keys.1,
                keys.2,
                rw rk derived,
                ground (arith, ep, next),
                ground (arith, ep, next),
                rw chains (
                    ap (λ m. if is_old message_epoch epoch then none else m)
                      (GoMap.lookup-insert epoch key_epoch _ s.kdf_chains)),
                skipped,
              )
        ]
