-- ===== src/Session/WellFormed.antt =====
-- The invariant of a session, and that every method keeps it.
use go_doubleratchet.Base.{
  ℕ, ◌<◌, ◌≡◌, refl, Option, none, some, Bytes, Result, ok, err, diverges, Method, Preserves,
  bind-Preserves, Bool-cases, inl, inr, ◌∙◌, invalid_transition, undo_on_error,
}
use go_doubleratchet.Base.Words.{u32_mod}
use go_doubleratchet.Primitives.{Primitives}
use go_doubleratchet.Config.{effective_max_skip}
use go_doubleratchet.Message.{Header, Message}
use go_doubleratchet.State.Skipped.Laws
use go_doubleratchet.State.ReceiverChains.Window
use go_doubleratchet.State.ReceiverChains.{find}
use go_doubleratchet.Session.{Session}
use go_doubleratchet.Session.Ratchet.{
  perform_dh_ratchet_recv, skip_message_keys, derive_recv_message_key, rollback,
}
use go_doubleratchet.Session.Methods.{
  or_rollback, take_skipped, is_new_epoch, check_max_skip, open_message, decrypt_on_chain,
  decrypt_with, decrypt,
}
use go_doubleratchet.Session.Frame
use go_doubleratchet.Session.Atomic.{Kept, recorded, rollback_lem, Kept-IsReceiving}

-- The store and the buffer of chains are well formed, the store has the configured capacity, and the
-- counters are uint32 values.
pub record IsValid (s : Session) : Type 0 where
  pub storage : Laws.IsValid s.mk_skipped
  pub capacity : s.mk_skipped.max_skip ≡ effective_max_skip (some s.config)
  pub chains : Window.IsValid s.recv_chains
  pub ns_fits : s.ns < u32_mod
  pub pn_fits : s.pn < u32_mod

pub IsValid-IsReceiving : Frame.IsReceiving IsValid
IsValid-IsReceiving = record {
  to_rk = λ s rk v. record {
    storage = v.storage;
    capacity = v.capacity;
    chains = v.chains;
    ns_fits = v.ns_fits;
    pn_fits = v.pn_fits;
  };
  to_store = λ s pk n mk v.
      let (stored, same) = Laws.store-IsValid s.mk_skipped pk n mk v.storage in
      record {
        storage = stored;
        capacity = same ∙ v.capacity;
        chains = v.chains;
        ns_fits = v.ns_fits;
        pn_fits = v.pn_fits;
      };
  to_push = λ s pk ck v. record {
    storage = v.storage;
    capacity = v.capacity;
    chains = Window.push-IsValid s.recv_chains pk (some ck) v.chains;
    ns_fits = v.ns_fits;
    pn_fits = v.pn_fits;
  };
  to_chain = λ s idx c v. record {
    storage = v.storage;
    capacity = v.capacity;
    chains = Window.set_chain-IsValid s.recv_chains idx c v.chains;
    ns_fits = v.ns_fits;
    pn_fits = v.pn_fits;
  };
}

-- In the middle of a decryption: valid, and ready to be rolled back to `s0`.
abbrev Ready : Session → Session → Type 0
Ready s0 s = IsValid s × Kept s0 s

Ready-IsReceiving : (s0 : Session) → Frame.IsReceiving (Ready s0)
Ready-IsReceiving s0 =
    let v = IsValid-IsReceiving in
    let k = Kept-IsReceiving s0 in
    record {
      to_rk = λ s rk h. (v.to_rk s rk h.0, k.to_rk s rk h.1);
      to_store = λ s pk n mk h. (v.to_store s pk n mk h.0, k.to_store s pk n mk h.1);
      to_push = λ s pk ck h. (v.to_push s pk ck h.0, k.to_push s pk ck h.1);
      to_chain = λ s idx c h. (v.to_chain s idx c h.0, k.to_chain s idx c h.1);
    }

recorded-Ready : (s0 : Session) → IsValid s0 → Ready s0 (recorded s0)
recorded-Ready s0 v = (
  record {
    storage = v.storage;
    capacity = v.capacity;
    chains = v.chains;
    ns_fits = v.ns_fits;
    pn_fits = v.pn_fits;
  },
  record { invariants = refl; config = refl },
)

roll_back-Ready :
    {A : Type 0} (s0 : Session) (r : Result A × Session)
    → IsValid s0
    → Ready s0 r.1
    → Ready s0 (undo_on_error rollback r).1
roll_back-Ready s0 (ok a, s) v h = h
roll_back-Ready s0 (err e, s) v h = rw (rollback_lem s0 s h.1) (recorded-Ready s0 v)
roll_back-Ready s0 (diverges, s) v h = h

pub take_skipped-IsValid : (h : Header) → Preserves IsValid (take_skipped h)
unfolding take_skipped
take_skipped-IsValid h s v =
    let (kept, same) = Laws.get_key-IsValid s.mk_skipped h.ratchet_public_key h.n v.storage in
    record {
      storage = kept;
      capacity = same ∙ v.capacity;
      chains = v.chains;
      ns_fits = v.ns_fits;
      pn_fits = v.pn_fits;
    }

module _ (p : Primitives) (s0 : Session) (v0 : IsValid s0) where
  or_rollback-Ready :
      {A : Type 0} (m : Method Session A)
      → Preserves (Ready s0) m
      → Preserves (Ready s0) (or_rollback m)
  or_rollback-Ready m hm s h = roll_back-Ready s0 (m s) v0 (hm s h)

  decrypt_on_chain-Ready :
      (msg : Message) (ad : Bytes) (o : Option ℕ)
      → Preserves (Ready s0) (decrypt_on_chain p msg ad o)
  unfolding decrypt_on_chain
  decrypt_on_chain-Ready msg ad none s h =
      roll_back-Ready {A = Bytes} s0 (err invalid_transition, s) v0 h
  decrypt_on_chain-Ready msg ad (some idx) s h =
      let P = Ready s0 in
      let r = Ready-IsReceiving s0 in
      let n = msg.header.n in
      let pk = msg.header.ratchet_public_key in
      bind-Preserves P (or_rollback (check_max_skip idx n)) _
        (or_rollback-Ready _ (Frame.check_max_skip-Preserves p P r idx n))
        (λ _.
          bind-Preserves P (or_rollback (skip_message_keys p pk idx n)) _
            (or_rollback-Ready _ (Frame.skip_message_keys-Preserves p P r pk idx n))
            (λ _.
              bind-Preserves P (or_rollback (derive_recv_message_key p idx n)) _
                (or_rollback-Ready _ (Frame.derive_recv_message_key-Preserves p P r idx n))
                (λ mk.
                  bind-Preserves P (or_rollback (open_message p mk msg ad)) _
                    (or_rollback-Ready _ (Frame.open_message-Preserves p P r mk msg ad))
                    (λ pt s h. Frame.advance_counter-keeps p P r idx s h))))
        s h

  decrypt_with-Ready :
      (msg : Message) (ad : Bytes) (found : Option Bytes)
      → Preserves (Ready s0) (decrypt_with p msg ad found)
  unfolding decrypt_with
  decrypt_with-Ready msg ad (some mk) =
      or_rollback-Ready (open_message p mk msg ad)
        (Frame.open_message-Preserves p (Ready s0) (Ready-IsReceiving s0) mk msg ad)
  decrypt_with-Ready msg ad none = λ s h. elim (Bool-cases (is_new_epoch s msg.header)) [
    | inl new ↦ rw new (
        bind-Preserves (Ready s0) (or_rollback (perform_dh_ratchet_recv p msg.header)) _
          (or_rollback-Ready _ (
            Frame.perform_dh_ratchet_recv-Preserves p (Ready s0) (Ready-IsReceiving s0) msg.header))
          (λ _ s h.
            decrypt_on_chain-Ready msg ad (find s.recv_chains msg.header.ratchet_public_key) s h)
          s h)
    | inr old ↦
        rw old
          (decrypt_on_chain-Ready msg ad (find s.recv_chains msg.header.ratchet_public_key) s h)
  ]

-- Decrypt keeps the invariant, whatever its outcome.
pub decrypt-IsValid :
    (p : Primitives) (msg : Message) (ad : Bytes) (s : Session)
    → IsValid s
    → IsValid (decrypt p msg ad s).1
unfolding decrypt take_skipped
decrypt-IsValid p msg ad s v =
    let (valid, kept) = recorded-Ready s v in
    let taken = take_skipped-IsValid msg.header (recorded s) valid in
    (decrypt_with-Ready p s v msg ad _ _ (taken, record { invariants = refl; config = refl })).0
