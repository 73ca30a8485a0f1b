-- ===== src/Session/Methods.antt =====
-- session.go: Encrypt, Decrypt, ratchetSendKey, ratchetReceiveKey and Close.
use go_doubleratchet.Base.{
  ℕ, ◌-◌, Bool, true, false, Option, none, some, Bytes, Result, ok, Method, pure, fail, lift, get,
  modify, ◌>>=◌, ◌>>◌, or_error, session_not_initialized, invalid_transition, max_skip_exceeded,
  auth_failure, ltb, not, ◌&&◌, bytes_eqb, if◌then◌else◌, or_undo,
}
use go_doubleratchet.Base.Words.{u32_succ}
use go_doubleratchet.Primitives.{Primitives}
use go_doubleratchet.Config.{effective_max_skip, effective_encrypt_info, zero_key}
use go_doubleratchet.Crypto.{public_key_from_private, zero_bytes}
use go_doubleratchet.Kdf.{derive_message_key}
use go_doubleratchet.Message.{Header, Message, encode_header}
use go_doubleratchet.State.Skipped
use go_doubleratchet.State.ReceiverChains
use go_doubleratchet.State.ReceiverChains.{find, has, chain_at, set_chain}
use go_doubleratchet.State.Invariants.{clear_invariants}
use go_doubleratchet.Suite
use go_doubleratchet.Session.{Session, build_ad}
use go_doubleratchet.Session.Ratchet.{
  when, next_chain_key, perform_dh_ratchet_send, perform_dh_ratchet_recv, skip_message_keys,
  derive_recv_message_key, snapshot, rollback,
}

-- `if err != nil { s.rollback(); return err }` behind a step.
abbrev pub or_rollback : {A : Type 0} → Method Session A → Method Session A
or_rollback = or_undo rollback

-- `mkSkipped.Get`
unfoldable pub take_skipped : Header → Method Session (Option Bytes)
take_skipped header s =
    let got = Skipped.get_key s.mk_skipped header.ratchet_public_key header.n in
    (ok got.0, record s { mk_skipped = got.1 })

-- `s.dhRSet && bytesEqual(s.dhr[:], header.RatchetPublicKey[:])`
unfoldable pub is_current_chain : Session → Header → Bool
is_current_chain s header = s.dh_r_set && bytes_eqb s.dhr header.ratchet_public_key

-- `!isCurrentChain && !isOldChain`
unfoldable pub is_new_epoch : Session → Header → Bool
is_new_epoch s header =
    not (is_current_chain s header)
    && not (not (is_current_chain s header) && has s.recv_chains header.ratchet_public_key)

-- `header.N > chain.Nr && header.N-chain.Nr > MaxSkip`
unfoldable pub check_max_skip : ℕ → ℕ → Method Session (Unit {0})
check_max_skip idx n s =
    let nr = (chain_at s.recv_chains idx).nr in
    if ltb nr n && ltb (effective_max_skip (some s.config)) (n - nr)
    then fail max_skip_exceeded s
    else pure tt s

-- `chain.Nr++`
unfoldable pub advance_counter : ℕ → Session → Session
advance_counter idx s =
    let c = chain_at s.recv_chains idx in
    record s { recv_chains = set_chain s.recv_chains idx (record c { nr = u32_succ c.nr }) }

module _ (p : Primitives) where
  -- the header and the message key of the next message on the sending chain
  unfoldable pub send_on_chain : Option Bytes → Method Session (Header × Bytes)
  send_on_chain none = fail session_not_initialized
  send_on_chain (some cks) = do
    s ← get
    modify (λ s. record s { cks = some (next_chain_key p cks); ns = u32_succ s.ns })
    pub_key ← lift (public_key_from_private p s.dhs)
    pure (record { ratchet_public_key = pub_key; pn = s.pn; n = s.ns }, derive_message_key p cks)

  unfoldable pub ratchet_send_key : Result Bytes → Method Session (Header × Bytes)
  unfolding send_on_chain
  ratchet_send_key entropy = do
    s ← get
    when s.dh_ratchet_performed (perform_dh_ratchet_send p entropy)
    s' ← get
    send_on_chain s'.cks

  -- Encrypt takes the same steps as ratchetSendKey, and then encrypts.
  unfoldable pub encrypt : Result Bytes → Bytes → Bytes → Method Session Message
  unfolding ratchet_send_key
  encrypt entropy plaintext ad = do
    (header, msg_key) ← ratchet_send_key entropy
    s ← get
    ct ← lift (
        Suite.encrypt p msg_key plaintext (build_ad s.config (encode_header header) ad true)
          (effective_encrypt_info s.config))
    pure (record { ciphertext = ct; header = header })

  -- `suite.Decrypt`, whose error becomes ErrAuthFailure
  unfoldable pub open_message : Bytes → Message → Bytes → Method Session Bytes
  open_message msg_key msg ad s = (
    or_error auth_failure (
        Suite.decrypt p msg_key msg.ciphertext
          (build_ad s.config (encode_header msg.header) ad false)
          (effective_encrypt_info s.config)),
    s,
  )

  -- Decrypt from the point where the chain is known.
  unfoldable pub decrypt_on_chain : Message → Bytes → Option ℕ → Method Session Bytes
  decrypt_on_chain msg ad none = or_rollback (fail invalid_transition)
  decrypt_on_chain msg ad (some idx) = do
    or_rollback (check_max_skip idx msg.header.n)
    or_rollback (skip_message_keys p msg.header.ratchet_public_key idx msg.header.n)
    msg_key ← or_rollback (derive_recv_message_key p idx msg.header.n)
    pt ← or_rollback (open_message msg_key msg ad)
    modify (advance_counter idx)
    pure pt

  unfoldable pub decrypt_with : Message → Bytes → Option Bytes → Method Session Bytes
  decrypt_with msg ad (some msg_key) = or_rollback (open_message msg_key msg ad)
  decrypt_with msg ad none = do
    s ← get
    when (is_new_epoch s msg.header) (or_rollback (perform_dh_ratchet_recv p msg.header))
    s' ← get
    decrypt_on_chain msg ad (find s'.recv_chains msg.header.ratchet_public_key)

  unfoldable pub decrypt : Message → Bytes → Method Session Bytes
  decrypt msg ad = do
    modify (λ s. record s { invariants = snapshot s })
    found ← take_skipped msg.header
    decrypt_with msg ad found

  unfoldable pub receive_on_chain : Header → Option ℕ → Method Session Bytes
  receive_on_chain header none = fail invalid_transition
  receive_on_chain header (some idx) = do
    check_max_skip idx header.n
    skip_message_keys p header.ratchet_public_key idx header.n
    msg_key ← derive_recv_message_key p idx header.n
    modify (advance_counter idx)
    pure msg_key

  unfoldable pub receive_with : Header → Option Bytes → Method Session Bytes
  receive_with header (some msg_key) = pure msg_key
  receive_with header none = do
    s ← get
    when (is_new_epoch s header) (perform_dh_ratchet_recv p header)
    s' ← get
    receive_on_chain header (find s'.recv_chains header.ratchet_public_key)

  unfoldable pub ratchet_receive_key : Header → Method Session Bytes
  ratchet_receive_key header = do found ← take_skipped header; receive_with header found

-- Close zeroes what it can reach.
unfoldable pub close : Session → Session
close s = record s {
  rk = zero_bytes s.rk;
  cks = elim s.cks [ none ↦ none | some ck ↦ some (zero_bytes ck) ];
  dhs = zero_key;
  dhr = zero_key;
  dh_r_set = false;
  recv_chains = ReceiverChains.clear s.recv_chains;
  mk_skipped = Skipped.clear s.mk_skipped;
  invariants = clear_invariants s.invariants;
}
