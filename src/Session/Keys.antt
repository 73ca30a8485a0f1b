-- ===== src/Session/Keys.antt =====
-- The methods that derive a message key leave the snapshot and the options of a session alone.
use go_doubleratchet.Base.{
  ℕ, Bool, true, false, Option, none, some, Bytes, Result, Method, Preserves, bind-Preserves, arith,
}
use go_doubleratchet.Primitives.{Primitives}
use go_doubleratchet.Message.{Header}
use go_doubleratchet.State.ReceiverChains.{find}
use go_doubleratchet.Session.{Session}
use go_doubleratchet.Session.Ratchet.{
  when, perform_dh_ratchet_send, perform_dh_ratchet_recv, skip_message_keys,
  derive_recv_message_key,
}
use go_doubleratchet.Session.Methods.{
  take_skipped, is_new_epoch, check_max_skip, send_on_chain, ratchet_send_key, receive_on_chain,
  receive_with, ratchet_receive_key,
}
use go_doubleratchet.Session.Frame
use go_doubleratchet.Session.Atomic.{Kept, Kept-IsReceiving}

module _ (p : Primitives) (s0 : Session) where
  when-Kept :
      (b : Bool) (m : Method Session (Unit {0}))
      → Preserves (Kept s0) m
      → Preserves (Kept s0) (when b m)
  when-Kept true m h s k = h s k
  when-Kept false m h s k = k

  perform_dh_ratchet_send-Kept :
      (entropy : Result Bytes) → Preserves (Kept s0) (perform_dh_ratchet_send p entropy)
  unfolding perform_dh_ratchet_send
  perform_dh_ratchet_send-Kept entropy s k = ground (arith, k.invariants, k.config)

  send_on_chain-Kept : (cks : Option Bytes) → Preserves (Kept s0) (send_on_chain p cks)
  unfolding send_on_chain
  send_on_chain-Kept none s k = k
  send_on_chain-Kept (some cks) s k = ground (arith, k.invariants, k.config)

  pub ratchet_send_key-Kept :
      (entropy : Result Bytes) → Preserves (Kept s0) (ratchet_send_key p entropy)
  unfolding ratchet_send_key
  ratchet_send_key-Kept entropy s =
      bind-Preserves (Kept s0) (when s.dh_ratchet_performed (perform_dh_ratchet_send p entropy)) _
        (when-Kept s.dh_ratchet_performed _ (perform_dh_ratchet_send-Kept entropy))
        (λ _ s. send_on_chain-Kept s.cks s) s

  take_skipped-Kept : (h : Header) → Preserves (Kept s0) (take_skipped h)
  unfolding take_skipped
  take_skipped-Kept h s k = record { invariants = k.invariants; config = k.config }

  receive_on_chain-Kept : (h : Header) (o : Option ℕ) → Preserves (Kept s0) (receive_on_chain p h o)
  unfolding receive_on_chain
  receive_on_chain-Kept h none = λ s k. k
  receive_on_chain-Kept h (some idx) =
      let K = Kept s0 in
      let r = Kept-IsReceiving s0 in
      bind-Preserves K (check_max_skip idx h.n) _ (Frame.check_max_skip-Preserves p K r idx h.n)
        (λ _.
          bind-Preserves K (skip_message_keys p h.ratchet_public_key idx h.n) _
            (Frame.skip_message_keys-Preserves p K r h.ratchet_public_key idx h.n)
            (λ _.
              bind-Preserves K (derive_recv_message_key p idx h.n) _
                (Frame.derive_recv_message_key-Preserves p K r idx h.n)
                (λ mk s k. Frame.advance_counter-keeps p K r idx s k)))

  receive_with-Kept :
      (h : Header) (found : Option Bytes) → Preserves (Kept s0) (receive_with p h found)
  unfolding receive_with
  receive_with-Kept h (some mk) = λ s k. k
  receive_with-Kept h none = λ s.
      bind-Preserves (Kept s0) (when (is_new_epoch s h) (perform_dh_ratchet_recv p h)) _
        (when-Kept (is_new_epoch s h) _
          (Frame.perform_dh_ratchet_recv-Preserves p (Kept s0) (Kept-IsReceiving s0) h))
        (λ _ s. receive_on_chain-Kept h (find s.recv_chains h.ratchet_public_key) s) s

  pub ratchet_receive_key-Kept : (h : Header) → Preserves (Kept s0) (ratchet_receive_key p h)
  unfolding ratchet_receive_key
  ratchet_receive_key-Kept h =
      bind-Preserves (Kept s0) (take_skipped h) _ (take_skipped-Kept h)
        (λ found. receive_with-Kept h found)
