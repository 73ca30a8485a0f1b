-- ===== src/SessionSpqr/Atomic.antt =====
-- What Decrypt of a session of the post-quantum ratchet undoes.
use go_doubleratchet.Base.{
  ℕ, ◌≡◌, refl, ap, Option, none, some, Bytes, ok, err, Error, Method, Preserves, bind-Preserves,
  if-Preserves, continue-Preserves, map-id_of, nat_eqb, not, auth_failure, fail, epoch_mismatch,
  arith, nat_eq,
}
use go_doubleratchet.Base.Words.{u32_succ}
use go_doubleratchet.Primitives.{Primitives}
use go_doubleratchet.Config.{Config}
use go_doubleratchet.Kdf.{ratchet_root_key_spqr}
use go_doubleratchet.Message.{SckaHeader}
use go_doubleratchet.Scka.{Provider, Restores}
use go_doubleratchet.State.Epoch.{Direction, KdfChain}
use go_doubleratchet.SessionSpqr.{
  SpqrSession, ChainMap, SkippedMap, receive_chain, send_chain, clear_old_epochs, clone_chains,
  clone_skipped, copy_pair, copy_keys,
}
use go_doubleratchet.SessionSpqr.Methods.{
  adopt_key, send_on_epoch, send_key, drop_send_chain, on_scka, try_skipped_message_keys,
  receive_on_epoch, skip_on_epoch, skip_message_keys_spqr, receive_with_spqr, receive_key,
  restore_spqr, decrypt_message_spqr, decrypt_spqr,
}

pub clone_chains_lem : (chains : ChainMap) → clone_chains chains ≡ chains
unfolding clone_chains copy_pair
clone_chains_lem chains = map-id_of copy_pair (λ x. refl) chains

pub clone_skipped_lem : (skipped : SkippedMap) → clone_skipped skipped ≡ skipped
unfolding clone_skipped copy_keys
clone_skipped_lem skipped =
    map-id_of copy_keys (λ (epoch, keys). ap (λ m. (epoch, m)) (map-id_of _ (λ x. refl) keys))
      skipped

-- What no method of a session changes.
pub record KeptSpqr {P : Type 0} (s0 s : SpqrSession P) : Type 0 where
  pub config : s.config ≡ s0.config
  pub max_skip : s.max_skip ≡ s0.max_skip
  pub direction : s.direction ≡ s0.direction

abbrev pub with_kept : {P : Type 0} → SpqrSession P → Config → ℕ → Direction → SpqrSession P
with_kept s config max_skip direction = record s {
  config = config;
  max_skip = max_skip;
  direction = direction;
}

module _ {P S : Type 0} (p : Primitives) (scka : Provider P S) where
  -- A session takes back the fields of an earlier one.
  pub restore_spqr_lem :
      Restores scka → (s0 s : SpqrSession P) → KeptSpqr s0 s → restore_spqr p scka s0 s ≡ s0
  unfolding restore_spqr
  restore_spqr_lem restores s0 s k = simp (
    k.config,
    k.max_skip,
    k.direction,
    clone_chains_lem s0.kdf_chains,
    clone_skipped_lem s0.mk_skipped,
    restores s.scka s0.scka,
  )

  module _ (s0 : SpqrSession P) where
    abbrev K : SpqrSession P → Type 0
    K = KeptSpqr s0

    on_scka-Preserves : {A : Type 0} (m : Method P A) → Preserves K (on_scka m)
    on_scka-Preserves m s k = record {
      config = k.config;
      max_skip = k.max_skip;
      direction = k.direction;
    }

    cleared : (e : ℕ) (s : SpqrSession P) → K s → K (clear_old_epochs e s)
    unfolding clear_old_epochs
    cleared e s k = ground (arith, k.config, k.max_skip, k.direction)

    adopt_key-Preserves :
        (e : ℕ) (key : Option Bytes) (key_epoch : ℕ) → Preserves K (adopt_key p e key key_epoch)
    unfolding adopt_key
    adopt_key-Preserves e none key_epoch s k = k
    adopt_key-Preserves e (some key) key_epoch s k =
        if-Preserves K (not (nat_eqb (u32_succ s.epoch) key_epoch)) (fail epoch_mismatch) _
          (λ s k. k)
          (λ s1 k1.
            continue-Preserves K (ratchet_root_key_spqr p s.rk key) s1 _
              (λ keys s k.
                cleared e _
                  (record { config = k.config; max_skip = k.max_skip; direction = k.direction }))
              k1)
          s k

    send_on_epoch-Preserves : (e : ℕ) (c : Option KdfChain) → Preserves K (send_on_epoch p e c)
    unfolding send_on_epoch
    send_on_epoch-Preserves e none s k = k
    send_on_epoch-Preserves e (some c) s k = record {
      config = k.config;
      max_skip = k.max_skip;
      direction = k.direction;
    }

    pub send_key-Preserves : Preserves K (send_key p scka)
    unfolding send_key
    send_key-Preserves =
        bind-Preserves K (on_scka scka.send) _ (on_scka-Preserves scka.send)
          (λ (msg, e, key, key_epoch).
            bind-Preserves K (adopt_key p e key key_epoch) _ (adopt_key-Preserves e key key_epoch)
              (λ _ s k.
                let chains = drop_send_chain e s.kdf_chains in
                bind-Preserves K (send_on_epoch p e (send_chain e chains)) _
                  (send_on_epoch-Preserves e (send_chain e chains)) (λ sent s k. k)
                  (record s { kdf_chains = chains })
                  (record { config = k.config; max_skip = k.max_skip; direction = k.direction })))

    try_skipped-Preserves : (e n : ℕ) → Preserves K (try_skipped_message_keys e n)
    unfolding try_skipped_message_keys
    try_skipped-Preserves e n s k = record {
      config = k.config;
      max_skip = k.max_skip;
      direction = k.direction;
    }

    skip_on_epoch-Preserves :
        (e until : ℕ) (c : Option KdfChain) → Preserves K (skip_on_epoch p e until c)
    unfolding skip_on_epoch
    skip_on_epoch-Preserves e until none s k = k
    skip_on_epoch-Preserves e until (some c) s k = ground (arith, k.config, k.max_skip, k.direction)

    receive_on_epoch-Preserves :
        (e n : ℕ) (c : Option KdfChain) → Preserves K (receive_on_epoch p e n c)
    unfolding receive_on_epoch
    receive_on_epoch-Preserves e n none s k = k
    receive_on_epoch-Preserves e n (some c) s k = ground (arith, k.config, k.max_skip, k.direction)

    receive_with_spqr-Preserves :
        (e n : ℕ) (found : Option Bytes) → Preserves K (receive_with_spqr p scka e n found)
    unfolding receive_with_spqr skip_message_keys_spqr
    receive_with_spqr-Preserves e n (some mk) = λ s k. k
    receive_with_spqr-Preserves e n none =
        bind-Preserves K (skip_message_keys_spqr p e n) _
          (λ s. skip_on_epoch-Preserves e n (receive_chain e s.kdf_chains) s)
          (λ _ s. receive_on_epoch-Preserves e n (receive_chain e s.kdf_chains) s)

    pub receive_key-Preserves : (header : SckaHeader) → Preserves K (receive_key p scka header)
    unfolding receive_key
    receive_key-Preserves header =
        bind-Preserves K (on_scka (scka.receive header.msg)) _
          (on_scka-Preserves (scka.receive header.msg))
          (λ (e, key, key_epoch).
            bind-Preserves K (adopt_key p e key key_epoch) _ (adopt_key-Preserves e key key_epoch)
              (λ _.
                bind-Preserves K (try_skipped_message_keys e header.n) _
                  (try_skipped-Preserves e header.n)
                  (λ found.
                    bind-Preserves K (receive_with_spqr p scka e header.n found) _
                      (receive_with_spqr-Preserves e header.n found) (λ mk s k. k))))

  -- For a provider whose Restore puts back what Snapshot took, if a message key is derived for the
  -- header and the ciphertext does not open under it, Decrypt fails as an authentication failure, and
  -- the whole session, its provider included, is as it was before the call.
  pub decrypt_spqr-auth_failure :
      Restores scka
      → (s : SpqrSession P) (header : SckaHeader) (ciphertext ad : Bytes) (key : ℕ × Bytes)
        (e : Error)
      → (receive_key p scka header s).0 ≡ ok key
      → decrypt_message_spqr p s.config key.1 ciphertext header ad ≡ err e
      → decrypt_spqr p scka header ciphertext ad s ≡ (err auth_failure, s)
  unfolding decrypt_spqr
  decrypt_spqr-auth_failure restores s header ciphertext ad key e derived closed =
      let after = (receive_key p scka header s).1 in
      let kept : KeptSpqr s after =
        receive_key-Preserves s header s
          (record { config = refl; max_skip = refl; direction = refl }) in
      let failed : decrypt_message_spqr p after.config key.1 ciphertext header ad ≡ err e =
        rw kept.config closed in
      simp (derived, failed)
        (ap (λ t. (err auth_failure, t)) (restore_spqr_lem restores s after kept))
