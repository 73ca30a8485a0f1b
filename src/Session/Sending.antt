-- ===== src/Session/Sending.antt =====
-- The sending methods, ratchetReceiveKey, the constructors and Close keep or establish the invariant
-- of a session.
use go_doubleratchet.Base.{
  ℕ, ◌≡◌, Bool, true, false, Option, none, some, Bytes, Result, ok, Method, arith, Preserves,
  bind-Preserves, continue-Preserves,
}
use go_doubleratchet.Primitives.{Primitives}
use go_doubleratchet.Config.{Config, effective_max_skip}
use go_doubleratchet.Crypto.{KeyPair}
use go_doubleratchet.Message.{Header}
use go_doubleratchet.State.Skipped.Laws
use go_doubleratchet.State.ReceiverChains.Window
use go_doubleratchet.State.ReceiverChains.{find}
use go_doubleratchet.Session.{Session, config_or_default, init_initiator, init_responder}
use go_doubleratchet.Session.Ratchet.{
  when, perform_dh_ratchet_send, perform_dh_ratchet_recv, skip_message_keys,
  derive_recv_message_key,
}
use go_doubleratchet.Session.Methods.{
  take_skipped, is_new_epoch, check_max_skip, send_on_chain, ratchet_send_key, encrypt,
  receive_on_chain, receive_with, ratchet_receive_key,
}
use go_doubleratchet.Session.Frame
use go_doubleratchet.Session.WellFormed.{IsValid, IsValid-IsReceiving, take_skipped-IsValid}

when-Preserves :
    (b : Bool) (m : Method Session (Unit {0})) → Preserves IsValid m → Preserves IsValid (when b m)
when-Preserves true m h s v = h s v
when-Preserves false m h s v = v

module _ (p : Primitives) where
  perform_dh_ratchet_send-IsValid :
      (entropy : Result Bytes) → Preserves IsValid (perform_dh_ratchet_send p entropy)
  unfolding perform_dh_ratchet_send
  perform_dh_ratchet_send-IsValid entropy s v = ground (arith, v.storage, v.chains)

  send_on_chain-IsValid : (cks : Option Bytes) → Preserves IsValid (send_on_chain p cks)
  unfolding send_on_chain
  send_on_chain-IsValid none s v = v
  send_on_chain-IsValid (some cks) s v = ground (arith, v.storage, v.chains)

  -- ratchetSendKey keeps the invariant, whatever its outcome.
  pub ratchet_send_key-IsValid :
      (entropy : Result Bytes) (s : Session) → IsValid s → IsValid (ratchet_send_key p entropy s).1
  unfolding ratchet_send_key
  ratchet_send_key-IsValid entropy s v =
      bind-Preserves IsValid (when s.dh_ratchet_performed (perform_dh_ratchet_send p entropy)) _
        (when-Preserves s.dh_ratchet_performed _ (perform_dh_ratchet_send-IsValid entropy))
        (λ _ s v. send_on_chain-IsValid s.cks s v) s v

  -- Encrypt keeps the invariant, whatever its outcome.
  pub encrypt-IsValid :
      (entropy : Result Bytes) (plaintext ad : Bytes) (s : Session)
      → IsValid s
      → IsValid (encrypt p entropy plaintext ad s).1
  unfolding encrypt
  encrypt-IsValid entropy plaintext ad s v =
      bind-Preserves IsValid (ratchet_send_key p entropy) _ (ratchet_send_key-IsValid entropy)
        (λ sent s v. continue-Preserves IsValid _ s _ (λ ct s v. v) v) s v

  receive_on_chain-IsValid :
      (h : Header) (o : Option ℕ) → Preserves IsValid (receive_on_chain p h o)
  unfolding receive_on_chain
  receive_on_chain-IsValid h none = λ s v. v
  receive_on_chain-IsValid h (some idx) =
      let r = IsValid-IsReceiving in
      bind-Preserves IsValid (check_max_skip idx h.n) _
        (Frame.check_max_skip-Preserves p IsValid r idx h.n)
        (λ _.
          bind-Preserves IsValid (skip_message_keys p h.ratchet_public_key idx h.n) _
            (Frame.skip_message_keys-Preserves p IsValid r h.ratchet_public_key idx h.n)
            (λ _.
              bind-Preserves IsValid (derive_recv_message_key p idx h.n) _
                (Frame.derive_recv_message_key-Preserves p IsValid r idx h.n)
                (λ mk s v. Frame.advance_counter-keeps p IsValid r idx s v)))

  receive_with-IsValid :
      (h : Header) (found : Option Bytes) → Preserves IsValid (receive_with p h found)
  unfolding receive_with
  receive_with-IsValid h (some mk) = λ s v. v
  receive_with-IsValid h none = λ s v.
      bind-Preserves IsValid (when (is_new_epoch s h) (perform_dh_ratchet_recv p h)) _
        (when-Preserves (is_new_epoch s h) _
          (Frame.perform_dh_ratchet_recv-Preserves p IsValid IsValid-IsReceiving h))
        (λ _ s v. receive_on_chain-IsValid h (find s.recv_chains h.ratchet_public_key) s v) s v

  -- ratchetReceiveKey keeps the invariant, whatever its outcome.
  pub ratchet_receive_key-IsValid :
      (h : Header) (s : Session) → IsValid s → IsValid (ratchet_receive_key p h s).1
  unfolding ratchet_receive_key
  ratchet_receive_key-IsValid h s v =
      bind-Preserves IsValid (take_skipped h) _ (take_skipped-IsValid h)
        (λ found. receive_with-IsValid h found) s v

  -- What InitInitiator returns satisfies the invariant.
  pub init_initiator-IsValid :
      (entropy : Result Bytes) (secret pk : Bytes) (cfg : Option Config) {s : Session}
      → init_initiator p entropy secret pk cfg ≡ ok s
      → IsValid s
  unfolding init_initiator
  init_initiator-IsValid entropy secret pk cfg {s} h =
      let c = config_or_default cfg in
      ground (
        arith,
        Laws.new_storage-IsValid (effective_max_skip (some c)) {s = s.mk_skipped},
        Window.new_receiver_chains-IsValid,
      )

-- What InitResponder returns satisfies the invariant.
pub init_responder-IsValid :
    (secret : Bytes) (pair : KeyPair) (cfg : Option Config) {s : Session}
    → init_responder secret pair cfg ≡ ok s
    → IsValid s
unfolding init_responder
init_responder-IsValid secret pair cfg {s} h =
    let c = config_or_default cfg in
    ground (
      arith,
      Laws.new_storage-IsValid (effective_max_skip (some c)) {s = s.mk_skipped},
      Window.new_receiver_chains-IsValid,
    )
