-- ===== src/Session/KeyAgreement.antt =====
-- The message keys that ratchetSendKey and ratchetReceiveKey derive in a pair of sessions in sync.
use native.Mathlib.Nat.{mod-eq_of_lt}
use go_doubleratchet.Base.{ℕ, ◌+◌, ◌≤◌, ◌<◌, ◌≡◌, ◌∙◌, false, none, some, Bytes, Result, ok, arith}
use go_doubleratchet.Base.Words.{u32_mod, u32_succ}
use go_doubleratchet.Primitives.{Primitives}
use go_doubleratchet.Config.{effective_max_skip}
use go_doubleratchet.Crypto.{public_key_from_private}
use go_doubleratchet.Kdf.{derive_message_key}
use go_doubleratchet.Message.{Header}
use go_doubleratchet.State.Skipped.Access.{stored, get_key_missing}
use go_doubleratchet.State.ReceiverChains.{find, chain_at, set_chain, receiver_chains_max}
use go_doubleratchet.State.ReceiverChains.Window
use go_doubleratchet.State.ReceiverChains.Window.{
  set_chain-IsValid, chain_at-set_chain, set_chain-set_chain, find_bounds, find-set_chain,
}
use go_doubleratchet.Session.{Session}
use go_doubleratchet.Session.Ratchet.{next_chain_key, store_range}
use go_doubleratchet.Session.Methods.{
  take_skipped, send_on_chain, ratchet_send_key, receive_on_chain, receive_with,
  ratchet_receive_key,
}
use go_doubleratchet.Session.Chain.{chain_key, message_key}
use go_doubleratchet.Session.Deliver.{
  chain, check_max_skip_lem, skip_message_keys_lem, derive_recv_message_key_lem, after_delivery,
  advance_counter_lem,
}
use go_doubleratchet.Session.RoundTrip.{InSync, after_send}
use go_doubleratchet.Session.Deliver.{known_epoch}

module _ (p : Primitives) where
  -- The header and the key of the next message of a sending chain.
  pub ratchet_send_key_lem :
      (a : Session) (entropy : Result Bytes) (ck pk : Bytes)
      → a.cks ≡ some ck
      → a.dh_ratchet_performed ≡ false
      → public_key_from_private p a.dhs ≡ ok pk
      → ratchet_send_key p entropy a ≡ (
        ok (record { ratchet_public_key = pk; pn = a.pn; n = a.ns }, derive_message_key p ck),
        after_send p a ck,
      )
  unfolding ratchet_send_key send_on_chain
  ratchet_send_key_lem a entropy ck pk sending no_turn own = simp (no_turn, sending, own)

  -- The steps of ratchetReceiveKey on a chain, one after the other.
  receive_on_chain_lem :
      (s : Session) (header : Header) (idx nr gap : ℕ) (ck : Bytes)
      → chain_at s.recv_chains idx ≡ chain ck nr header.ratchet_public_key
      → idx < receiver_chains_max
      → Window.IsValid s.recv_chains
      → header.n ≡ nr + gap
      → gap ≤ effective_max_skip (some s.config)
      → header.n + 1 < u32_mod
      → receive_on_chain p header (some idx) s
        ≡ (ok (message_key p gap ck), after_delivery p s header.ratchet_public_key idx nr gap ck)
  unfolding receive_on_chain message_key
  receive_on_chain_lem s header idx nr gap ck c lt v e le fits =
      let n = header.n in
      let pk = header.ratchet_public_key in
      let top = chain_key p gap ck in
      let s1 : Session = record s {
        recv_chains = set_chain s.recv_chains idx (chain top n pk);
        mk_skipped = store_range p pk gap ck nr s.mk_skipped;
      } in
      let c1 : chain_at s1.recv_chains idx ≡ chain top n pk =
        chain_at-set_chain s.recv_chains idx (chain top n pk) v lt in
      let s2 : Session = record s1 {
        recv_chains = set_chain s1.recv_chains idx (chain (next_chain_key p top) n pk);
      } in
      let c2 : chain_at s2.recv_chains idx ≡ chain (next_chain_key p top) n pk =
        chain_at-set_chain s1.recv_chains idx (chain (next_chain_key p top) n pk)
          (set_chain-IsValid s.recv_chains idx (chain top n pk) v) lt in
      let wrap : u32_succ n ≡ nr + gap + 1 = mod-eq_of_lt fits ∙ omega arith in
      simp
        (
          check_max_skip_lem p s idx nr gap n ck pk c e le,
          skip_message_keys_lem p s idx nr gap n ck pk pk c e,
          derive_recv_message_key_lem p s1 idx n top pk c1 fits,
          advance_counter_lem p s2 idx n (next_chain_key p top) pk c2,
        )
        (simp (wrap, set_chain-set_chain))

  receive_with_lem :
      (b : Session) (header : Header) (idx nr gap : ℕ) (ck : Bytes)
      → find b.recv_chains header.ratchet_public_key ≡ some idx
      → chain_at b.recv_chains idx ≡ chain ck nr header.ratchet_public_key
      → Window.IsValid b.recv_chains
      → header.n ≡ nr + gap
      → gap ≤ effective_max_skip (some b.config)
      → header.n + 1 < u32_mod
      → receive_with p header none b
        ≡ (ok (message_key p gap ck), after_delivery p b header.ratchet_public_key idx nr gap ck)
  unfolding receive_with
  receive_with_lem b header idx nr gap ck held c v e le fits =
      simp (known_epoch p b header idx held) (
        simp held (
          receive_on_chain_lem b header idx nr gap ck c
            (find_bounds b.recv_chains header.ratchet_public_key idx held).0 v e le fits))

  -- The key of a message of a chain that the receiver holds, and whose key it has not stored.
  pub ratchet_receive_key_lem :
      (b : Session) (header : Header) (idx nr gap : ℕ) (ck : Bytes)
      → stored b.mk_skipped header.ratchet_public_key header.n ≡ none
      → find b.recv_chains header.ratchet_public_key ≡ some idx
      → chain_at b.recv_chains idx ≡ chain ck nr header.ratchet_public_key
      → Window.IsValid b.recv_chains
      → header.n ≡ nr + gap
      → gap ≤ effective_max_skip (some b.config)
      → header.n + 1 < u32_mod
      → ratchet_receive_key p header b
        ≡ (ok (message_key p gap ck), after_delivery p b header.ratchet_public_key idx nr gap ck)
  unfolding ratchet_receive_key take_skipped
  ratchet_receive_key_lem b header idx nr gap ck free held c v e le fits =
      simp (get_key_missing b.mk_skipped header.ratchet_public_key header.n free)
        (receive_with_lem b header idx nr gap ck held c v e le fits)

  -- In a pair of sessions in sync, the receiver derives for the sender's header the message key that
  -- the sender derived.
  pub ratchet_receive_key-ratchet_send_key :
      (a b : Session) (gap : ℕ) (entropy : Result Bytes)
      → (y : InSync p a b gap) → gap ≤ effective_max_skip (some b.config)
      → stored b.mk_skipped y.pk a.ns ≡ none
      → a.ns + 1 < u32_mod
      → (header : Header) × (mk : Bytes) × (ratchet_send_key p entropy a
          ≡ (ok (header, mk), after_send p a (chain_key p gap y.ck)))
        × (ratchet_receive_key p header b ≡ (ok mk, after_delivery p b y.pk y.idx y.nr gap y.ck))
  unfolding message_key
  ratchet_receive_key-ratchet_send_key a b gap entropy y le free fits =
      let header : Header = record { ratchet_public_key = y.pk; pn = a.pn; n = a.ns } in
      (
        header,
        message_key p gap y.ck,
        ratchet_send_key_lem a entropy (chain_key p gap y.ck) y.pk y.sending y.no_turn y.own_key,
        ratchet_receive_key_lem b header y.idx y.nr gap y.ck free y.held y.at_chain y.valid y.number
            le fits,
      )
