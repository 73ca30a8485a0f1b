-- ===== src/Session/Deliver.antt =====
-- What Decrypt computes on a known chain: each step of it as an equation.
use native.Mathlib.Nat.{mod-eq_of_lt}
use go_doubleratchet.Base.{
  ℕ, suc, ◌+◌, ◌-◌, ◌≤◌, ◌<◌, ◌≡◌, refl, ◌∙◌, true, false, none, some, Bytes, ok, arith,
}
use go_doubleratchet.Base.Words.{u32_mod, u32_succ}
use go_doubleratchet.Primitives.{Primitives}
use go_doubleratchet.Config.{effective_max_skip, effective_encrypt_info}
use go_doubleratchet.Kdf.{derive_message_key}
use go_doubleratchet.Message.{Header, Message, encode_header}
use go_doubleratchet.State.ReceiverChains.{
  find, has, ReceiverChain, chain_at, set_chain, receiver_chains_max,
}
use go_doubleratchet.State.ReceiverChains.Window
use go_doubleratchet.State.ReceiverChains.Window.{
  set_chain-IsValid, chain_at-set_chain, set_chain-set_chain, find_bounds, find-set_chain,
}
use go_doubleratchet.Suite
use go_doubleratchet.Session.{Session, build_ad}
use go_doubleratchet.Session.Ratchet.{
  next_chain_key, store_range, skip_message_keys, derive_from, finish_derive, derive_on_chain,
  derive_recv_message_key,
}
use go_doubleratchet.State.Skipped.Access.{stored, get_key_missing}
use go_doubleratchet.Session.Atomic.{recorded}
use go_doubleratchet.Session.Methods.{
  is_new_epoch, take_skipped, decrypt_with, decrypt, check_max_skip, advance_counter, open_message,
  decrypt_on_chain,
}
use go_doubleratchet.Session.Chain.{chain_key, message_key, skip_loop_lem, derive_from_lem}

abbrev pub chain : Bytes → ℕ → Bytes → ReceiverChain
chain ck nr pk = record { ck = some ck; nr = nr; ratchet_pk = pk }

module _ (p : Primitives) where
  pub check_max_skip_lem :
      (s : Session) (idx nr gap n : ℕ) (ck pk : Bytes)
      → chain_at s.recv_chains idx ≡ chain ck nr pk
      → n ≡ nr + gap
      → gap ≤ effective_max_skip (some s.config)
      → check_max_skip idx n s ≡ (ok tt, s)
  unfolding check_max_skip
  check_max_skip_lem s idx nr gap n ck pk c e le = rw (c) (ground arith)

  -- Skipping the messages of a chain up to `until`: none if it is there already.
  pub skip_message_keys-eq :
      (s : Session) (idx nr until : ℕ) (ck pk rpk : Bytes)
      → chain_at s.recv_chains idx ≡ chain ck nr rpk
      → let gap = until - nr in
        skip_message_keys p pk idx until s ≡ (
          ok tt,
          record s {
            recv_chains = set_chain s.recv_chains idx (chain (chain_key p gap ck) (nr + gap) rpk);
            mk_skipped = store_range p pk gap ck nr s.mk_skipped;
          },
        )
  unfolding skip_message_keys
  skip_message_keys-eq s idx nr until ck pk rpk c =
      simp (c, skip_loop_lem p pk (until - nr) nr ck rpk s.mk_skipped)

  -- Skipping `gap` messages of a chain.
  pub skip_message_keys_lem :
      (s : Session) (idx nr gap n : ℕ) (ck pk rpk : Bytes)
      → chain_at s.recv_chains idx ≡ chain ck nr rpk
      → n ≡ nr + gap
      → skip_message_keys p pk idx n s ≡ (
        ok tt,
        record s {
          recv_chains = set_chain s.recv_chains idx (chain (chain_key p gap ck) n rpk);
          mk_skipped = store_range p pk gap ck nr s.mk_skipped;
        },
      )
  skip_message_keys_lem s idx nr gap n ck pk rpk c e =
      let rounds : n - nr ≡ gap = omega arith in
      rw (rounds, ← e) at (skip_message_keys-eq s idx nr n ck pk rpk c)

  -- The key of the next message of a chain, and the chain behind it.
  pub derive_recv_message_key_lem :
      (s : Session) (idx n : ℕ) (ck rpk : Bytes)
      → chain_at s.recv_chains idx ≡ chain ck n rpk
      → n + 1 < u32_mod
      → derive_recv_message_key p idx n s ≡ (
        ok (derive_message_key p ck),
        record s { recv_chains = set_chain s.recv_chains idx (chain (next_chain_key p ck) n rpk) },
      )
  unfolding derive_recv_message_key derive_on_chain finish_derive derive_message_key chain_key
      message_key
  derive_recv_message_key_lem s idx n ck rpk c fits =
      let fuel : suc (n + 1 - n) ≡ 2 = omega arith in
      let loop : derive_from p 2 n n ck none ≡ some (ck, some (derive_message_key p ck)) =
        derive_from_lem p 0 2 n n ck none (omega arith) fits (omega arith) in
      simp (c, fuel, loop)

  -- The session behind the delivery of message `nr + gap` of a chain that stands at `nr`.
  abbrev pub after_delivery : Session → Bytes → ℕ → ℕ → ℕ → Bytes → Session
  after_delivery s pk idx nr gap ck = record s {
    recv_chains =
        set_chain s.recv_chains idx
          (chain (next_chain_key p (chain_key p gap ck)) (nr + gap + 1) pk);
    mk_skipped = store_range p pk gap ck nr s.mk_skipped;
  }

  pub open_message_lem :
      (s : Session) (mk : Bytes) (msg : Message) (ad pt : Bytes)
      → Suite.decrypt p mk msg.ciphertext
          (build_ad s.config (encode_header msg.header) ad false)
          (effective_encrypt_info s.config)
        ≡ ok pt
      → open_message p mk msg ad s ≡ (ok pt, s)
  unfolding open_message
  open_message_lem s mk msg ad pt h = rw h refl

  pub advance_counter_lem :
      (s : Session) (idx n : ℕ) (ck pk : Bytes)
      → chain_at s.recv_chains idx ≡ chain ck n pk
      → advance_counter idx s
        ≡ record s { recv_chains = set_chain s.recv_chains idx (chain ck (u32_succ n) pk) }
  unfolding advance_counter
  advance_counter_lem s idx n ck pk c = simp c

  -- The steps of Decrypt on a chain, one after the other.
  pub decrypt_on_chain_lem :
      (s : Session) (msg : Message) (ad : Bytes) (idx nr gap : ℕ) (ck pt : Bytes)
      → chain_at s.recv_chains idx ≡ chain ck nr msg.header.ratchet_public_key
      → idx < receiver_chains_max
      → Window.IsValid s.recv_chains
      → msg.header.n ≡ nr + gap
      → gap ≤ effective_max_skip (some s.config)
      → msg.header.n + 1 < u32_mod
      → Suite.decrypt p
          (message_key p gap ck)
          msg.ciphertext
          (build_ad s.config (encode_header msg.header) ad false)
          (effective_encrypt_info s.config)
        ≡ ok pt
      → decrypt_on_chain p msg ad (some idx) s
        ≡ (ok pt, after_delivery s msg.header.ratchet_public_key idx nr gap ck)
  unfolding decrypt_on_chain message_key
  decrypt_on_chain_lem s msg ad idx nr gap ck pt c lt v e le fits opened =
      let n = msg.header.n in
      let pk = msg.header.ratchet_public_key in
      let top = chain_key p gap ck in
      let s1 : Session = record s {
        recv_chains = set_chain s.recv_chains idx (chain top n pk);
        mk_skipped = store_range p pk gap ck nr s.mk_skipped;
      } in
      let c1 : chain_at s1.recv_chains idx ≡ chain top n pk =
        chain_at-set_chain s.recv_chains idx (chain top n pk) v lt in
      let s2 : Session = record s1 {
        recv_chains = set_chain s1.recv_chains idx (chain (next_chain_key p top) n pk);
      } in
      let c2 : chain_at s2.recv_chains idx ≡ chain (next_chain_key p top) n pk =
        chain_at-set_chain s1.recv_chains idx (chain (next_chain_key p top) n pk)
          (set_chain-IsValid s.recv_chains idx (chain top n pk) v) lt in
      let wrap : u32_succ n ≡ nr + gap + 1 = mod-eq_of_lt fits ∙ omega arith in
      simp
        (
          check_max_skip_lem s idx nr gap n ck pk c e le,
          skip_message_keys_lem s idx nr gap n ck pk pk c e,
          derive_recv_message_key_lem s1 idx n top pk c1 fits,
          open_message_lem s2 (derive_message_key p top) msg ad pt opened,
          advance_counter_lem s2 idx n (next_chain_key p top) pk c2,
        )
        (simp (wrap, set_chain-set_chain))

  has_found :
      (s : Session) (pk : Bytes) (idx : ℕ)
      → find s.recv_chains pk ≡ some idx
      → has s.recv_chains pk ≡ true
  unfolding has
  has_found s pk idx h = rw (has, h) refl

  pub known_epoch :
      (s : Session) (header : Header) (idx : ℕ)
      → find s.recv_chains header.ratchet_public_key ≡ some idx
      → is_new_epoch s header ≡ false
  unfolding is_new_epoch
  known_epoch s header idx h = ground (arith, has_found s header.ratchet_public_key idx h)

  -- Decrypt of a message of a chain that the receiver holds, and whose key it has not stored.
  pub decrypt_lem :
      (b : Session) (msg : Message) (ad : Bytes) (idx nr gap : ℕ) (ck pt : Bytes)
      → stored b.mk_skipped msg.header.ratchet_public_key msg.header.n ≡ none
      → find b.recv_chains msg.header.ratchet_public_key ≡ some idx
      → chain_at b.recv_chains idx ≡ chain ck nr msg.header.ratchet_public_key
      → Window.IsValid b.recv_chains
      → msg.header.n ≡ nr + gap
      → gap ≤ effective_max_skip (some b.config)
      → msg.header.n + 1 < u32_mod
      → Suite.decrypt p
          (message_key p gap ck)
          msg.ciphertext
          (build_ad b.config (encode_header msg.header) ad false)
          (effective_encrypt_info b.config)
        ≡ ok pt
      → decrypt p msg ad b
        ≡ (ok pt, after_delivery (recorded b) msg.header.ratchet_public_key idx nr gap ck)
  unfolding decrypt take_skipped decrypt_with
  decrypt_lem b msg ad idx nr gap ck pt free held c v e le fits opened =
      simp
        (
          get_key_missing b.mk_skipped msg.header.ratchet_public_key msg.header.n free,
          known_epoch (recorded b) msg.header idx held,
        )
        (simp (held) (
          decrypt_on_chain_lem (recorded b) msg ad idx nr gap ck pt c
            (find_bounds b.recv_chains msg.header.ratchet_public_key idx held).0 v e le fits
            opened))
