-- ===== src/SessionSpqr/Methods.antt =====
-- session_spqr.go: sendKey, receiveKey, Encrypt, Decrypt and Close.
use go_doubleratchet.Base.{
  ℕ, zero, suc, ◌-◌, true, false, [], ◌∷◌, Option, none, some, Bytes, Result, ok, err, diverges,
  bind, Method, pure, fail, lift, get, modify, ◌>>=◌, ◌>>◌, or_error, or_undo, epoch_mismatch,
  invalid_transition, max_skip_exceeded, skipped_key_not_found, auth_failure, ltb, nat_eqb, not,
  ◌&&◌, if◌then◌else◌, nat_eq,
}
use go_doubleratchet.Base.Words.{u32_succ}
use go_doubleratchet.Base.GoMap
use go_doubleratchet.Base.GoMap.{GoMap}
use go_doubleratchet.Primitives.{Primitives}
use go_doubleratchet.Config.{Config, effective_encrypt_info}
use go_doubleratchet.Crypto.{zero_bytes}
use go_doubleratchet.Kdf.{ratchet_root_key_spqr, ratchet_chain_key_spqr}
use go_doubleratchet.Message.{SckaHeader, encode_scka_header}
use go_doubleratchet.Scka.{Provider}
use go_doubleratchet.Session.{build_ad}
use go_doubleratchet.State.Epoch.{Direction, direction_a2b, direction_b2a, KdfChain, KdfChainPair}
use go_doubleratchet.Suite
use go_doubleratchet.SessionSpqr.{
  SpqrSession, ChainMap, SkippedMap, new_pair, send_chain, receive_chain, set_send, set_receive,
  clear_old_epochs, clone_chains, clone_skipped,
}

-- `if s.direction == DirectionB2A { cks, ckr = ckr, cks }`
unfoldable pub directed_pair : Direction → Bytes → Bytes → KdfChainPair
unfolding new_pair
directed_pair direction_a2b cks ckr = new_pair cks ckr
directed_pair direction_b2a cks ckr = new_pair ckr cks

-- `s.mkSkipped[epoch][n] = mk`, in a new map if the epoch has none.
unfoldable pub store_key : ℕ → ℕ → Bytes → SkippedMap → SkippedMap
store_key epoch n mk skipped = elim (GoMap.lookup epoch skipped) [
  | none ↦ GoMap.insert epoch ((n, mk) ∷ []) skipped
  | some keys ↦ GoMap.insert epoch (GoMap.insert n mk keys) skipped
]

-- An epoch without a key left is deleted.
unfoldable pub put_back : ℕ → GoMap ℕ Bytes → SkippedMap → SkippedMap
put_back epoch [] skipped = GoMap.delete epoch skipped
put_back epoch (x ∷ keys) skipped = GoMap.insert epoch (x ∷ keys) skipped

-- The skipped key of a message, and the map without it.
unfoldable pub take_key : ℕ → ℕ → SkippedMap → Option Bytes × SkippedMap
unfolding put_back
take_key epoch n skipped = elim (GoMap.lookup epoch skipped) [
  | none ↦ (none, skipped)
  | some keys ↦ elim (GoMap.lookup n keys) [
    | none ↦ (none, skipped)
    | some mk ↦ (some mk, put_back epoch (GoMap.delete n keys) skipped)
  ]
]

-- `if sendingEpoch > 0 { … pair.Send = nil }`
unfoldable pub drop_send_chain : ℕ → ChainMap → ChainMap
drop_send_chain zero chains = chains
drop_send_chain (suc before) chains = set_send before none chains

-- What a step leaves of a chain: on an error the chain key that was assigned is nil.
unfoldable pub after_step : KdfChain → Result (Bytes × Bytes) → Result Bytes × KdfChain
after_step c (ok (next_ck, mk)) = (ok mk, record { ck = next_ck; n = u32_succ c.n })
after_step c (err e) = (err e, record c { ck = [] })
after_step c diverges = (diverges, c)

module _ {P : Type 0} where
  unfoldable pub try_skipped_message_keys : ℕ → ℕ → Method (SpqrSession P) (Option Bytes)
  try_skipped_message_keys epoch n s =
      let taken = take_key epoch n s.mk_skipped in (ok taken.0, record s { mk_skipped = taken.1 })

module _ (p : Primitives) where
  -- `chain.CK, mk, err = RatchetChainKeySPQR(chain.CK, n)`, and the next number
  unfoldable pub step_chain : Method KdfChain Bytes
  unfolding after_step
  step_chain c = after_step c (ratchet_chain_key_spqr p c.ck c.n)

  -- The loop of skipMessageKeysSPQR: the number stays below `until`, so it cannot wrap.
  unfoldable pub skip_loop_spqr : ℕ → ℕ → Method (KdfChain × SkippedMap) (Unit {0})
  skip_loop_spqr epoch zero = pure tt
  skip_loop_spqr epoch (suc rounds) = do
    (c, skipped) ← get
    (next_ck, mk) ← lift (ratchet_chain_key_spqr p c.ck c.n)
    modify (λ _. (record { ck = next_ck; n = u32_succ c.n }, store_key epoch c.n mk skipped))
    skip_loop_spqr epoch rounds

  -- `encryptMessageSPQR` and `decryptMessageSPQR`
  unfoldable pub encrypt_message_spqr : Config → Bytes → Bytes → SckaHeader → Bytes → Result Bytes
  encrypt_message_spqr config key plaintext header ad =
      bind (encode_scka_header (some header)) λ header_bytes.
        Suite.encrypt p key plaintext (build_ad config header_bytes ad true)
          (effective_encrypt_info config)

  unfoldable pub decrypt_message_spqr : Config → Bytes → Bytes → SckaHeader → Bytes → Result Bytes
  decrypt_message_spqr config key ciphertext header ad =
      bind (encode_scka_header (some header)) λ header_bytes.
        Suite.decrypt p key ciphertext (build_ad config header_bytes ad false)
          (effective_encrypt_info config)

module _ {P : Type 0} (p : Primitives) where
  -- The new epoch of an output key of the provider; `message_epoch` is that of the message.
  unfoldable pub adopt_key : ℕ → Option Bytes → ℕ → Method (SpqrSession P) (Unit {0})
  adopt_key message_epoch none key_epoch = pure tt
  adopt_key message_epoch (some output_key) key_epoch = do
    s ← get
    if not (nat_eqb (u32_succ s.epoch) key_epoch) then fail epoch_mismatch else do
      (new_rk, cks, ckr) ← lift (ratchet_root_key_spqr p s.rk output_key)
      modify (λ s. clear_old_epochs message_epoch (record s {
        rk = new_rk;
        kdf_chains = GoMap.insert key_epoch (directed_pair s.direction cks ckr) s.kdf_chains;
        epoch = key_epoch;
      }))

  -- The number and the key of the next message on the sending chain of an epoch.
  unfoldable pub send_on_epoch : ℕ → Option KdfChain → Method (SpqrSession P) (ℕ × Bytes)
  send_on_epoch epoch none s = fail invalid_transition s
  send_on_epoch epoch (some c) s =
      let step = step_chain p c in
      (
        bind step.0 λ mk. ok (c.n, mk),
        record s { kdf_chains = set_send epoch (some step.1) s.kdf_chains },
      )

  -- The key of the next message on the receiving chain of an epoch, if it is the wanted one.
  unfoldable pub receive_on_epoch : ℕ → ℕ → Option KdfChain → Method (SpqrSession P) Bytes
  receive_on_epoch epoch n none s = fail invalid_transition s
  receive_on_epoch epoch n (some c) s =
      let step = step_chain p c in
      if not (nat_eqb c.n n)
      then fail skipped_key_not_found s
      else (step.0, record s { kdf_chains = set_receive epoch (some step.1) s.kdf_chains })

  unfoldable pub skip_on_epoch : ℕ → ℕ → Option KdfChain → Method (SpqrSession P) (Unit {0})
  skip_on_epoch epoch until none s = pure tt s
  skip_on_epoch epoch until (some c) s =
      let run = skip_loop_spqr p epoch (until - c.n) (c, s.mk_skipped) in
      if ltb c.n until && ltb s.max_skip (until - c.n) then fail max_skip_exceeded s else (
        run.0,
        record s {
          kdf_chains = set_receive epoch (some run.1.0) s.kdf_chains;
          mk_skipped = run.1.1;
        },
      )

  unfoldable pub skip_message_keys_spqr : ℕ → ℕ → Method (SpqrSession P) (Unit {0})
  skip_message_keys_spqr epoch until s =
      skip_on_epoch epoch until (receive_chain epoch s.kdf_chains) s

-- A call of the provider of a session.
abbrev pub on_scka : {P A : Type 0} → Method P A → Method (SpqrSession P) A
on_scka m s = ((m s.scka).0, record s { scka = (m s.scka).1 })

module _ {P S : Type 0} (p : Primitives) (scka : Provider P S) where
  -- the provider's message, the message number and the message key
  unfoldable pub send_key : Method (SpqrSession P) (Bytes × ℕ × Bytes)
  send_key = do
    (msg, sending_epoch, output_key, key_epoch) ← on_scka scka.send
    adopt_key p sending_epoch output_key key_epoch
    modify (λ s. record s { kdf_chains = drop_send_chain sending_epoch s.kdf_chains })
    s ← get
    (n, mk) ← send_on_epoch p sending_epoch (send_chain sending_epoch s.kdf_chains)
    pure (msg, n, mk)

  unfoldable pub encrypt_spqr : Bytes → Bytes → Method (SpqrSession P) (SckaHeader × Bytes)
  encrypt_spqr plaintext ad = do
    (msg, n, mk) ← send_key
    s ← get
    ct ← lift (encrypt_message_spqr p s.config mk plaintext (record { msg = msg; n = n }) ad)
    pure (record { msg = msg; n = n }, ct)

  -- receiveKey behind the look at the skipped keys
  unfoldable pub receive_with_spqr : ℕ → ℕ → Option Bytes → Method (SpqrSession P) Bytes
  receive_with_spqr receiving_epoch n (some mk) = pure mk
  receive_with_spqr receiving_epoch n none = do
    skip_message_keys_spqr p receiving_epoch n
    s ← get
    receive_on_epoch p receiving_epoch n (receive_chain receiving_epoch s.kdf_chains)

  -- the receiving epoch and the message key
  unfoldable pub receive_key : SckaHeader → Method (SpqrSession P) (ℕ × Bytes)
  receive_key header = do
    (receiving_epoch, output_key, key_epoch) ← on_scka (scka.receive header.msg)
    adopt_key p receiving_epoch output_key key_epoch
    found ← try_skipped_message_keys receiving_epoch header.n
    mk ← receive_with_spqr receiving_epoch header.n found
    pure (receiving_epoch, mk)

  -- The fields of the session before the call take the place of the present ones.
  unfoldable pub restore_spqr : SpqrSession P → SpqrSession P → SpqrSession P
  restore_spqr before s = record s {
    rk = before.rk;
    epoch = before.epoch;
    kdf_chains = clone_chains before.kdf_chains;
    mk_skipped = clone_skipped before.mk_skipped;
    scka = scka.restore (scka.snapshot before.scka) s.scka;
  }

  -- A nil header, on which the source panics, is not among the arguments.
  unfoldable pub decrypt_spqr : SckaHeader → Bytes → Bytes → Method (SpqrSession P) Bytes
  decrypt_spqr header ciphertext ad = do
    before ← get
    (_, mk) ← receive_key header
    or_undo (restore_spqr before)
        (λ s. (or_error auth_failure (decrypt_message_spqr p s.config mk ciphertext header ad), s))

  -- Close empties both maps and returns what the provider's Close returns.
  unfoldable pub close_spqr : Method (SpqrSession P) (Unit {0})
  close_spqr = do
    modify (λ s. record s { rk = zero_bytes s.rk; kdf_chains = []; mk_skipped = [] })
    on_scka scka.close
