-- ===== src/Session/Atomic.antt =====
-- A failed Decrypt leaves no trace: the session is the one before the call.
use go_doubleratchet.Base.{
  ℕ, ◌≡◌, refl, ap₂, ◌∙◌, Option, none, some, Bytes, Result, err, Method, Preserves, Error, ◌>>=◌,
  Bool-cases, inl, inr, Undone, undo_on_error-Undone, step-Undone, error-Undone,
}
use go_doubleratchet.Primitives.{Primitives}
use go_doubleratchet.Config.{Config}
use go_doubleratchet.Message.{Message}
use go_doubleratchet.State.Skipped.Laws.{clone_lem as storage_clone_lem}
use go_doubleratchet.State.ReceiverChains.Window.{clone_lem as chains_clone_lem}
use go_doubleratchet.State.ReceiverChains.{find}
use go_doubleratchet.State.Invariants.{Invariants, record_state}
use go_doubleratchet.Session.{Session}
use go_doubleratchet.Session.Ratchet.{
  perform_dh_ratchet_recv, skip_message_keys, derive_recv_message_key, snapshot, rollback,
}
use go_doubleratchet.Session.Methods.{
  or_rollback, take_skipped, is_new_epoch, check_max_skip, open_message, decrypt_on_chain,
  decrypt_with, decrypt,
}
use go_doubleratchet.Session.Frame

-- The session with its own snapshot recorded, and nothing else changed.
abbrev pub recorded : Session → Session
recorded s = record s { invariants = snapshot s }

pub record Kept (s0 s : Session) : Type 0 where
  pub invariants : s.invariants ≡ snapshot s0
  pub config : s.config ≡ s0.config

pub Kept-IsReceiving : (s0 : Session) → Frame.IsReceiving (Kept s0)
Kept-IsReceiving s0 = record {
  to_rk = λ s rk k. record { invariants = k.invariants; config = k.config };
  to_store = λ s pk n mk k. record { invariants = k.invariants; config = k.config };
  to_push = λ s pk ck k. record { invariants = k.invariants; config = k.config };
  to_chain = λ s idx c k. record { invariants = k.invariants; config = k.config };
}

-- Rolled back on an error; on the way to be rolled back otherwise.
abbrev After : {A : Type 0} → Session → Result A × Session → Type 0
After s0 = Undone (Kept s0) (recorded s0)

-- The fields that a rollback takes from a snapshot.
restored : Session → Invariants → Config → Session
unfolding rollback
restored s inv config = rollback (record s { invariants = inv; config = config })

-- A rollback ends at the session of the snapshot, wherever it starts.
pub rollback_lem : (s0 s : Session) → Kept s0 s → rollback s ≡ recorded s0
unfolding restored rollback snapshot record_state
rollback_lem s0 s k =
    ap₂ (restored s) k.invariants k.config
    ∙ simp (storage_clone_lem s0.mk_skipped, chains_clone_lem s0.recv_chains)

-- A step that is rolled back on an error, and the rest of the method behind it.
step-After :
    {A B : Type 0} (s0 : Session) (m : Method Session A) (f : A → Method Session B)
    → Preserves (Kept s0) m
    → ((a : A) (s : Session) → Kept s0 s → After s0 (f a s))
    → (s : Session) → Kept s0 s
    → After s0 ((or_rollback m >>= f) s)
step-After s0 = step-Undone rollback (Kept s0) (recorded s0) (rollback_lem s0)

module _ (p : Primitives) (s0 : Session) where
  decrypt_on_chain-After :
      (msg : Message) (ad : Bytes) (o : Option ℕ) (s : Session)
      → Kept s0 s
      → After s0 (decrypt_on_chain p msg ad o s)
  unfolding decrypt_on_chain
  decrypt_on_chain-After msg ad none s k = rollback_lem s0 s k
  decrypt_on_chain-After msg ad (some idx) s k =
      let r = Kept-IsReceiving s0 in
      let n = msg.header.n in
      let pk = msg.header.ratchet_public_key in
      step-After s0 (check_max_skip idx n) _ (Frame.check_max_skip-Preserves p (Kept s0) r idx n)
        (λ _.
          step-After s0 (skip_message_keys p pk idx n) _
            (Frame.skip_message_keys-Preserves p (Kept s0) r pk idx n)
            (λ _.
              step-After s0 (derive_recv_message_key p idx n) _
                (Frame.derive_recv_message_key-Preserves p (Kept s0) r idx n)
                (λ mk.
                  step-After s0 (open_message p mk msg ad) _
                    (Frame.open_message-Preserves p (Kept s0) r mk msg ad)
                    (λ pt s k. Frame.advance_counter-keeps p (Kept s0) r idx s k))))
        s k

  decrypt_with-After :
      (msg : Message) (ad : Bytes) (found : Option Bytes) (s : Session)
      → Kept s0 s
      → After s0 (decrypt_with p msg ad found s)
  unfolding decrypt_with
  decrypt_with-After msg ad (some mk) s k =
      undo_on_error-Undone rollback (Kept s0) (recorded s0) (rollback_lem s0)
        (open_message p mk msg ad s)
        (Frame.open_message-Preserves p (Kept s0) (Kept-IsReceiving s0) mk msg ad s k)
  decrypt_with-After msg ad none s k = elim (Bool-cases (is_new_epoch s msg.header)) [
    | inl new ↦ rw new (
        step-After s0 (perform_dh_ratchet_recv p msg.header) _
          (Frame.perform_dh_ratchet_recv-Preserves p (Kept s0) (Kept-IsReceiving s0) msg.header)
          (λ _ s k.
            decrypt_on_chain-After msg ad (find s.recv_chains msg.header.ratchet_public_key) s k)
          s k)
    | inr old ↦
        rw old
          (decrypt_on_chain-After msg ad (find s.recv_chains msg.header.ratchet_public_key) s k)
  ]

decrypt-After :
    (p : Primitives) (s : Session) (msg : Message) (ad : Bytes) → After s (decrypt p msg ad s)
unfolding decrypt take_skipped
decrypt-After p s msg ad =
    decrypt_with-After p s msg ad _ _ (record { invariants = refl; config = refl })

-- If Decrypt returns an error, every field of the session is as it was before the call, the snapshot
-- excepted, which holds those fields.
pub decrypt_atomic :
    (p : Primitives) (s : Session) (msg : Message) (ad : Bytes) (e : Error)
    → (decrypt p msg ad s).0 ≡ err e
    → (decrypt p msg ad s).1 ≡ recorded s
decrypt_atomic p s msg ad e =
    error-Undone (Kept s) (recorded s) (decrypt p msg ad s) e (decrypt-After p s msg ad)
