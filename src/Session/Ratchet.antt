-- ===== src/Session/Ratchet.antt =====
-- session.go: the ratchet steps, the skipping of message keys, and the rollback. A slice that is
-- zeroed when it is replaced is no longer reachable; the zeroing has no counterpart here.
use go_doubleratchet.Base.{
  ℕ, zero, suc, ◌+◌, ◌-◌, Bool, true, false, [], ◌∷◌, Option, none, some, Bytes, take, Result,
  diverges, Method, pure, fail, lift, get, modify, ◌>>=◌, ◌>>◌, invalid_input, invalid_transition,
  max_skip_exceeded, ltb, leb, nat_eqb, not, if◌then◌else◌,
}
use go_doubleratchet.Base.Words.{u32_succ}
use go_doubleratchet.Primitives.{Primitives}
use go_doubleratchet.Config.{effective_max_skip, effective_kdf_info}
use go_doubleratchet.Crypto.{generate_key_pair, shared_secret, verify_public_key}
use go_doubleratchet.Kdf.{derive_message_key, derive_next_chain_key}
use go_doubleratchet.Message.{Header}
use go_doubleratchet.State.Skipped.{Storage, store}
use go_doubleratchet.State.ReceiverChains.{ReceiverChain, push, find, chain_at, set_chain, clear}
use go_doubleratchet.State.Invariants.{Invariants, record_state}
use go_doubleratchet.Session.{Session, derive_root_and_chain}

abbrev pub when : {S : Type 0} → Bool → Method S (Unit {0}) → Method S (Unit {0})
when true m = m
when false m = pure tt

abbrev pub or_else : {A : Type 0} → Option A → A → A
or_else none d = d
or_else (some a) d = a

-- A nil slice as the argument of a hash.
abbrev pub bytes_of : Option Bytes → Bytes
bytes_of none = []
bytes_of (some b) = b

-- `append([]byte(nil), b...)`: nil for a slice with no bytes.
abbrev pub copy_slice : Option Bytes → Option Bytes
copy_slice none = none
copy_slice (some []) = none
copy_slice (some (x ∷ xs)) = some (x ∷ xs)

-- The receiving chain of the current remote key, if there is one.
abbrev pub current_chain : Session → Option ReceiverChain
current_chain s =
    if s.dh_r_set
    then elim (find s.recv_chains s.dhr) [
      | none ↦ none
      | some idx ↦ some (chain_at s.recv_chains idx)
    ]
    else none

-- The copy of its chain key, and its counter.
abbrev pub previous : Option ReceiverChain → Option Bytes × ℕ
previous none = (none, 0)
previous (some c) = (copy_slice c.ck, c.nr)

module _ (p : Primitives) where
  -- `copy(mk[:], msgKey)` into 32 bytes
  unfoldable pub message_key_32 : Bytes → Bytes
  message_key_32 chain_key = take 32 (derive_message_key p chain_key)

  unfoldable pub next_chain_key : Bytes → Bytes
  next_chain_key chain_key = (derive_next_chain_key p chain_key).0

  unfoldable pub perform_dh_ratchet_send : Result Bytes → Method Session (Unit {0})
  perform_dh_ratchet_send entropy = do
    modify (λ s. record s { pn = s.ns })
    (new_priv, _) ← lift (generate_key_pair p entropy)
    s ← get
    dh_out ← lift (shared_secret p new_priv s.dhr)
    (rk, cks) ← lift (derive_root_and_chain p dh_out s.rk (effective_kdf_info s.config))
    modify (λ s. record s {
      rk = rk;
      cks = some cks;
      dhs = new_priv;
      ns = 0;
      dh_ratchet_performed = false;
    })

  -- The loop over the message numbers `n`, `n + 1`, … of a chain: `rounds` keys are stored.
  unfoldable pub store_range : Bytes → ℕ → Bytes → ℕ → Storage → Storage
  store_range pk zero ck n st = st
  store_range pk (suc rounds) ck n st =
      store_range pk rounds (next_chain_key ck) (n + 1) (store st pk n (message_key_32 ck))

  -- `for n := prevNr; n < header.PN; n++`, behind the check against MaxSkip
  unfoldable pub store_previous : Bytes → Option Bytes → ℕ → ℕ → Method Session (Unit {0})
  store_previous prev_dhr none prev_nr pn = pure tt
  store_previous prev_dhr (some prev_ckr) prev_nr pn =
      if ltb prev_nr pn
      then (λ s.
          if ltb (effective_max_skip (some s.config)) (pn - prev_nr)
          then fail max_skip_exceeded s
          else pure tt (record s {
            mk_skipped = store_range prev_dhr (pn - prev_nr) prev_ckr prev_nr s.mk_skipped;
          }))
      else pure tt

  -- The part of performDHRatchetRecv behind its derivations. The first argument is the remote key of
  -- the epoch that ends, the second the copy of its chain key with its counter.
  unfoldable pub enter_epoch :
      Bytes → Option Bytes × ℕ → Header → Bytes × Bytes → Method Session (Unit {0})
  enter_epoch prev_dhr (prev_ckr, prev_nr) header (new_rk, ckr) = do
    modify (λ s. record s { rk = new_rk })
    store_previous prev_dhr prev_ckr prev_nr header.pn
    modify (λ s. record s {
      recv_chains = push s.recv_chains header.ratchet_public_key (some ckr);
      dhr = header.ratchet_public_key;
      dh_r_set = true;
      dh_ratchet_performed = true;
    })

  unfoldable pub perform_dh_ratchet_recv : Header → Method Session (Unit {0})
  perform_dh_ratchet_recv header =
      if not (verify_public_key header.ratchet_public_key) then fail invalid_input else do
        s ← get
        dh_out ← lift (shared_secret p s.dhs header.ratchet_public_key)
        keys ← lift (derive_root_and_chain p dh_out s.rk (effective_kdf_info s.config))
        enter_epoch s.dhr (previous (current_chain s)) header keys

  -- The loop of skipMessageKeys, `rounds` times; the counter stays below `until`, so it cannot wrap.
  unfoldable pub skip_loop : Bytes → ℕ → ReceiverChain → Storage → ReceiverChain × Storage
  skip_loop pk zero c st = (c, st)
  skip_loop pk (suc rounds) c st =
      skip_loop pk rounds (record c { ck = some (next_chain_key (bytes_of c.ck)); nr = c.nr + 1 })
        (store st pk c.nr (message_key_32 (bytes_of c.ck)))

  -- `for chain.Nr < until`; it never fails.
  unfoldable pub skip_message_keys : Bytes → ℕ → ℕ → Method Session (Unit {0})
  skip_message_keys recv_pk idx until = modify (λ s.
      let c = chain_at s.recv_chains idx in
      let after = skip_loop recv_pk (until - c.nr) c s.mk_skipped in
      record s { recv_chains = set_chain s.recv_chains idx after.0; mk_skipped = after.1 })

  -- `for i := chain.Nr; i <= n; i++`, with the wrap of `i`: the chain key that is reached and the
  -- message key. `none`: the loop has not ended within the fuel.
  unfoldable pub derive_from : ℕ → ℕ → ℕ → Bytes → Option Bytes → Option (Bytes × Option Bytes)
  derive_from zero n i ckr msg_key = none
  derive_from (suc fuel) n i ckr msg_key =
      let rest =
        derive_from fuel n (u32_succ i) (if nat_eqb i n then ckr else next_chain_key ckr)
          (if nat_eqb i n then some (derive_message_key p ckr) else msg_key) in
      if leb i n then rest else some (ckr, msg_key)

  -- What deriveRecvMessageKey does with the outcome of its loop.
  unfoldable pub finish_derive : ℕ → Option (Bytes × Option Bytes) → Method Session Bytes
  finish_derive idx none = lift diverges
  finish_derive idx (some (ckr, none)) = fail invalid_transition
  finish_derive idx (some (ckr, some msg_key)) = do
    modify (λ s. record s {
      recv_chains =
          set_chain s.recv_chains idx
            (record (chain_at s.recv_chains idx) { ck = some (next_chain_key ckr) });
    })
    pure msg_key

  unfoldable pub derive_on_chain : ℕ → ℕ → ℕ → Option Bytes → Method Session Bytes
  derive_on_chain idx n nr none = fail invalid_transition
  derive_on_chain idx n nr (some ck) =
      finish_derive idx (derive_from (suc (n + 1 - nr)) n nr ck none)

  unfoldable pub derive_recv_message_key : ℕ → ℕ → Method Session Bytes
  unfolding finish_derive derive_on_chain
  derive_recv_message_key idx n = do
    s ← get
    let c = chain_at s.recv_chains idx
    derive_on_chain idx n c.nr c.ck

-- `invariants.Record` of the session's own fields
unfoldable pub snapshot : Session → Invariants
snapshot s =
    record_state s.ns s.pn s.rk s.dhs s.dhr s.cks s.recv_chains s.mk_skipped s.dh_r_set
      s.dh_ratchet_performed

-- Every rollback follows a Record, so that neither pointer of the snapshot is nil; for a nil pointer
-- the field would become nil.
unfoldable pub rollback : Session → Session
rollback s = record s {
  ns = s.invariants.prev_ns;
  pn = s.invariants.prev_pn;
  rk = s.invariants.prev_rk;
  dhs = s.invariants.prev_dhs;
  dhr = s.invariants.prev_dhr;
  cks = s.invariants.prev_cks;
  recv_chains = or_else s.invariants.prev_recv_chains (clear s.recv_chains);
  mk_skipped = or_else s.invariants.prev_mk_skipped s.mk_skipped;
  dh_r_set = s.invariants.prev_dh_r_set;
  dh_ratchet_performed = s.invariants.prev_dh_ratchet_performed;
}
