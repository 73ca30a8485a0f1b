-- ===== src/SessionHe/Methods.antt =====
-- session_he.go: EncryptHE, DecryptHE and Close.
use go_doubleratchet.Base.{
  ℕ, Bool, true, false, List, Option, none, some, Bytes, Result, Method, pure, fail, lift, get,
  modify, ◌>>=◌, ◌>>◌, or_error, or_undo, invalid_transition, auth_failure, not, ◌&&◌, ◌||◌,
  bytes_eqb, if◌then◌else◌,
}
use go_doubleratchet.Base.Words.{u32_succ}
use go_doubleratchet.Base.GoMap.{GoMap}
use go_doubleratchet.Primitives.{Primitives}
use go_doubleratchet.Config.{effective_encrypt_info}
use go_doubleratchet.Crypto.{public_key_from_private, zero_bytes}
use go_doubleratchet.Crypto.HeaderEncrypt.{HeaderKey, encrypt_header, decrypt_header}
use go_doubleratchet.Kdf.{derive_message_key}
use go_doubleratchet.Message.{Header, encode_header}
use go_doubleratchet.State.Skipped.{SkippedKeyEntry, Storage, try_all_header_keys}
use go_doubleratchet.State.ReceiverChains.{find}
use go_doubleratchet.Suite
use go_doubleratchet.Session.{Session, build_ad}
use go_doubleratchet.Session.Ratchet.{
  when, next_chain_key, derive_recv_message_key, snapshot, rollback,
}
use go_doubleratchet.Session.Methods.{check_max_skip, advance_counter, close}
use go_doubleratchet.SessionHe.{HeSession, on_dr, on_hks}
use go_doubleratchet.SessionHe.Ratchet.{
  skip_message_keys_he, decrypt_header_he, perform_dh_ratchet_recv_he, perform_dh_ratchet_send_he,
}

-- The order in which a loop visits the entries of the store.
abbrev pub Visit : Type 0
Visit = GoMap Bytes SkippedKeyEntry → List (Bytes × SkippedKeyEntry)

-- `rollbackAll`: the base session takes its snapshot back, the header keys are those before the call.
unfoldable pub rollback_all : HeSession → HeSession → HeSession
rollback_all before s = record {
  dr = rollback s.dr;
  hks = before.hks;
  hkr = before.hkr;
  nhks = before.nhks;
  nhkr = before.nhkr;
}

abbrev pub or_rollback_all : {A : Type 0} → HeSession → Method HeSession A → Method HeSession A
or_rollback_all before = or_undo (rollback_all before)

-- `s.mkSkipped.TryAllHeaderKeys`, of the base session
abbrev pub on_storage : {A : Type 0} → Method Storage A → Method Session A
on_storage m s = ((m s.mk_skipped).0, record s { mk_skipped = (m s.mk_skipped).1 })

abbrev pub is_nil : Option Bytes → Bool
is_nil none = true
is_nil (some b) = false

-- `!s.dr.hasRemoteRatchetKey() || !bytesEqual(s.dr.dhr[:], header.RatchetPublicKey[:])`
unfoldable pub is_new_remote_pk : HeSession → Header → Bool
is_new_remote_pk s header = not s.dr.dh_r_set || not (bytes_eqb s.dr.dhr header.ratchet_public_key)

module _ (p : Primitives) where
  -- The encrypted header and the ciphertext of the next message on the sending chain.
  unfoldable pub send_on_chain_he : Bytes → Bytes → Option Bytes → Method HeSession (Bytes × Bytes)
  send_on_chain_he plaintext ad none = fail invalid_transition
  send_on_chain_he plaintext ad (some cks) = do
    s ← get
    on_dr (modify (λ dr. record dr { cks = some (next_chain_key p cks); ns = u32_succ dr.ns }))
    pub_key ← lift (public_key_from_private p s.dr.dhs)
    enc_header ← on_hks (
        encrypt_header p
          (encode_header (record { ratchet_public_key = pub_key; pn = s.dr.pn; n = s.dr.ns })))
    ct ← lift (
        Suite.encrypt p (derive_message_key p cks) plaintext
          (build_ad s.dr.config enc_header ad true) (effective_encrypt_info s.dr.config))
    pure (enc_header, ct)

  unfoldable pub encrypt_he : Result Bytes → Bytes → Bytes → Method HeSession (Bytes × Bytes)
  unfolding send_on_chain_he
  encrypt_he entropy plaintext ad = do
    s ← get
    when (s.dr.dh_ratchet_performed || is_nil s.dr.cks) (perform_dh_ratchet_send_he p entropy)
    s' ← get
    send_on_chain_he plaintext ad s'.dr.cks

  -- `trySkippedMessageKeysHE`
  unfoldable pub try_skipped_message_keys_he : Visit → Bytes → Method HeSession (Option Bytes)
  try_skipped_message_keys_he visit enc_header =
      on_dr (on_storage (try_all_header_keys visit (decrypt_header p) enc_header))

  -- `suite.Decrypt` with the encrypted header as associated data; its error becomes ErrAuthFailure.
  unfoldable pub open_message_he : Bytes → Bytes → Bytes → Bytes → Method HeSession Bytes
  open_message_he msg_key enc_header ciphertext ad s = (
    or_error auth_failure (
        Suite.decrypt p msg_key ciphertext (build_ad s.dr.config enc_header ad false)
          (effective_encrypt_info s.dr.config)),
    s,
  )

  -- The ratchet step of a message with a new ratchet key, or with the next header key.
  unfoldable pub follow_header : HeSession → Header → Bool → Method HeSession (Unit {0})
  follow_header before header dh_ratchet s =
      let new_remote_pk = is_new_remote_pk s header in
      if new_remote_pk || dh_ratchet
      then (if new_remote_pk && (not dh_ratchet && s.dr.dh_r_set)
          then or_rollback_all before (fail invalid_transition) s
          else or_rollback_all before (perform_dh_ratchet_recv_he p header dh_ratchet) s)
      else pure tt s

  -- DecryptHE from the point where the receiving chain is known.
  unfoldable pub decrypt_on_chain_he :
      HeSession → Header → Bytes → Bytes → Bytes → Option ℕ → Method HeSession Bytes
  decrypt_on_chain_he before header enc_header ciphertext ad none =
      or_rollback_all before (fail invalid_transition)
  decrypt_on_chain_he before header enc_header ciphertext ad (some idx) = do
    or_rollback_all before (on_dr (check_max_skip idx header.n))
    or_rollback_all before (skip_message_keys_he p header.n)
    msg_key ← or_rollback_all before (on_dr (derive_recv_message_key p idx header.n))
    pt ← or_rollback_all before (open_message_he msg_key enc_header ciphertext ad)
    on_dr (modify (advance_counter idx))
    pure pt

  -- DecryptHE behind the look at the skipped keys.
  unfoldable pub decrypt_with_he :
      HeSession → Bytes → Bytes → Bytes → Option Bytes → Method HeSession Bytes
  decrypt_with_he before enc_header ciphertext ad (some msg_key) =
      or_rollback_all before (open_message_he msg_key enc_header ciphertext ad)
  decrypt_with_he before enc_header ciphertext ad none = do
    (header, dh_ratchet) ← or_rollback_all before (λ s. (decrypt_header_he p s enc_header, s))
    follow_header before header dh_ratchet
    s ← get
    decrypt_on_chain_he before header enc_header ciphertext ad (find s.dr.recv_chains s.dr.dhr)

  unfoldable pub decrypt_he : Visit → Bytes → Bytes → Bytes → Method HeSession Bytes
  decrypt_he visit enc_header ciphertext ad = do
    on_dr (modify (λ dr. record dr { invariants = snapshot dr }))
    before ← get
    found ← try_skipped_message_keys_he visit enc_header
    decrypt_with_he before enc_header ciphertext ad found

-- The key of a header key, zeroed.
unfoldable pub zero_header_key : HeaderKey → HeaderKey
zero_header_key hk = record hk { key = zero_bytes hk.key }

-- Close of the base session never fails.
unfoldable pub close_he : HeSession → HeSession
unfolding zero_header_key
close_he s = record {
  dr = close s.dr;
  hks = zero_header_key s.hks;
  hkr = zero_header_key s.hkr;
  nhks = zero_header_key s.nhks;
  nhkr = zero_header_key s.nhkr;
}
