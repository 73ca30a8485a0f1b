-- ===== src/SessionHe/Atomic.antt =====
-- A failed DecryptHE leaves no trace, header keys included.
use go_doubleratchet.Base.{
  ℕ, ◌≡◌, refl, Bool, Option, none, some, Bytes, Result, ok, err, diverges, Method, Preserves,
  Error, ◌>>=◌, Bool-cases, inl, inr, Undone, undo_on_error-Undone, step-Undone, error-Undone,
  continue-Undone, ◌&&◌, ◌||◌, not,
}
use go_doubleratchet.Primitives.{Primitives}
use go_doubleratchet.Message.{Header}
use go_doubleratchet.State.ReceiverChains.{find}
use go_doubleratchet.State.Skipped.{SkippedKeyEntry, try_all_header_keys, consume_entry}
use go_doubleratchet.Session.Ratchet.{derive_recv_message_key}
use go_doubleratchet.Session.Methods.{check_max_skip}
use go_doubleratchet.Session.Frame as BaseFrame
use go_doubleratchet.Session.Atomic.{Kept, recorded, rollback_lem, Kept-IsReceiving}
use go_doubleratchet.SessionHe.{HeSession, on_dr}
use go_doubleratchet.SessionHe.Ratchet.{
  skip_message_keys_he, decrypt_header_he, perform_dh_ratchet_recv_he,
}
use go_doubleratchet.SessionHe.Methods.{
  Visit, on_storage, rollback_all, or_rollback_all, try_skipped_message_keys_he, open_message_he,
  is_new_remote_pk, follow_header, decrypt_on_chain_he, decrypt_with_he, decrypt_he,
}
use go_doubleratchet.SessionHe.Frame
use go_doubleratchet.SessionHe.Frame.{IsReceivingHe, on_dr-Preserves}

-- The session with the snapshot of its base session recorded, and nothing else changed.
abbrev pub recorded_he : HeSession → HeSession
recorded_he s = record s { dr = recorded s.dr }

-- The snapshot and the options of the base session, and the header keys of the sending side.
pub record KeptHe (s0 s : HeSession) : Type 0 where
  pub base : Kept s0.dr s.dr
  pub hks : s.hks ≡ s0.hks
  pub nhks : s.nhks ≡ s0.nhks

pub KeptHe-IsReceivingHe : (s0 : HeSession) → IsReceivingHe (KeptHe s0)
KeptHe-IsReceivingHe s0 =
    let r = Kept-IsReceiving s0.dr in
    record {
      in_dr = λ s. record {
        to_rk = λ dr rk k. record { base = r.to_rk dr rk k.base; hks = k.hks; nhks = k.nhks };
        to_store = λ dr pk n mk k. record {
          base = r.to_store dr pk n mk k.base;
          hks = k.hks;
          nhks = k.nhks;
        };
        to_push =
            λ dr pk ck k. record { base = r.to_push dr pk ck k.base; hks = k.hks; nhks = k.nhks };
        to_chain =
            λ dr idx c k. record { base = r.to_chain dr idx c k.base; hks = k.hks; nhks = k.nhks };
      };
      no_cks = λ s k. record {
        base = record { invariants = k.base.invariants; config = k.base.config };
        hks = k.hks;
        nhks = k.nhks;
      };
      to_hkr = λ s hkr k. record { base = k.base; hks = k.hks; nhks = k.nhks };
      to_nhkr = λ s nhkr k. record { base = k.base; hks = k.hks; nhks = k.nhks };
    }

pub recorded-KeptHe : (s0 : HeSession) → KeptHe s0 (recorded_he s0)
recorded-KeptHe s0 = record {
  base = record { invariants = refl; config = refl };
  hks = refl;
  nhks = refl;
}

pub rollback_all_lem :
    (s0 s : HeSession) → KeptHe s0 s → rollback_all (recorded_he s0) s ≡ recorded_he s0
unfolding rollback_all
rollback_all_lem s0 s k = rw (rollback_lem s0.dr s.dr k.base) refl

module _ (p : Primitives) (s0 : HeSession) where
  -- Rolled back on an error; on the way to be rolled back otherwise.
  abbrev After : {A : Type 0} → Result A × HeSession → Type 0
  After = Undone (KeptHe s0) (recorded_he s0)

  step-After :
      {A B : Type 0} (m : Method HeSession A) (f : A → Method HeSession B)
      → Preserves (KeptHe s0) m
      → ((a : A) (s : HeSession) → KeptHe s0 s → After (f a s))
      → (s : HeSession) → KeptHe s0 s
      → After ((or_rollback_all (recorded_he s0) m >>= f) s)
  step-After =
      step-Undone (rollback_all (recorded_he s0)) (KeptHe s0) (recorded_he s0) (rollback_all_lem s0)

  end-After :
      {A : Type 0} (m : Method HeSession A)
      → Preserves (KeptHe s0) m
      → (s : HeSession) → KeptHe s0 s
      → After (or_rollback_all (recorded_he s0) m s)
  end-After m hm s k =
      undo_on_error-Undone (rollback_all (recorded_he s0)) (KeptHe s0) (recorded_he s0)
        (rollback_all_lem s0) (m s) (hm s k)

  decrypt_on_chain_he-After :
      (h : Header) (enc ct ad : Bytes) (o : Option ℕ) (s : HeSession)
      → KeptHe s0 s
      → After (decrypt_on_chain_he p (recorded_he s0) h enc ct ad o s)
  unfolding decrypt_on_chain_he open_message_he
  decrypt_on_chain_he-After h enc ct ad none = λ s k. rollback_all_lem s0 s k
  decrypt_on_chain_he-After h enc ct ad (some idx) =
      let K = KeptHe s0 in
      let r = KeptHe-IsReceivingHe s0 in
      step-After (on_dr (check_max_skip idx h.n)) _
        (on_dr-Preserves K r (check_max_skip idx h.n)
          (λ Q q. BaseFrame.check_max_skip-Preserves p Q q idx h.n))
        (λ _.
          step-After (skip_message_keys_he p h.n) _ (Frame.skip_message_keys_he-Preserves p K r h.n)
            (λ _.
              step-After (on_dr (derive_recv_message_key p idx h.n)) _
                (on_dr-Preserves K r (derive_recv_message_key p idx h.n)
                  (λ Q q. BaseFrame.derive_recv_message_key-Preserves p Q q idx h.n))
                (λ mk.
                  step-After (open_message_he p mk enc ct ad) _ (λ s k. k)
                    (λ pt s k.
                      BaseFrame.advance_counter-keeps p (λ dr. K (record s { dr = dr })) (r.in_dr s)
                        idx s.dr k))))

  follow_header-After :
      (h : Header) (dh_ratchet : Bool) (s : HeSession)
      → KeptHe s0 s
      → After (follow_header p (recorded_he s0) h dh_ratchet s)
  unfolding follow_header
  follow_header-After h dh_ratchet s k =
      let new = is_new_remote_pk s h in
      elim (Bool-cases (new || dh_ratchet)) [
        | inr known ↦ rw known k
        | inl turn ↦ elim (Bool-cases (new && (not dh_ratchet && s.dr.dh_r_set))) [
          | inl anomalous ↦ rw (turn, anomalous) (rollback_all_lem s0 s k)
          | inr good ↦
              rw (turn, good)
                (end-After (perform_dh_ratchet_recv_he p h dh_ratchet)
                  (Frame.perform_dh_ratchet_recv_he-Preserves p (KeptHe s0)
                    (KeptHe-IsReceivingHe s0) h dh_ratchet)
                  s k)
        ]
      ]

  decrypt_with_he-After :
      (enc ct ad : Bytes) (found : Option Bytes) (s : HeSession)
      → KeptHe s0 s
      → After (decrypt_with_he p (recorded_he s0) enc ct ad found s)
  unfolding decrypt_with_he open_message_he
  decrypt_with_he-After enc ct ad (some mk) = end-After (open_message_he p mk enc ct ad) (λ s k. k)
  decrypt_with_he-After enc ct ad none =
      step-After (λ s. (decrypt_header_he p s enc, s)) _ (λ s k. k)
        (λ (h, dh_ratchet) s k.
          continue-Undone (KeptHe s0) (recorded_he s0)
            (follow_header p (recorded_he s0) h dh_ratchet s) _
            (follow_header-After h dh_ratchet s k)
            (λ _ s k. decrypt_on_chain_he-After h enc ct ad (find s.dr.recv_chains s.dr.dhr) s k))

  try_skipped-After :
      (r : Result (Option (Bytes × SkippedKeyEntry)))
      → After (on_dr (on_storage (consume_entry r)) (recorded_he s0))
  unfolding consume_entry
  try_skipped-After (ok none) = recorded-KeptHe s0
  try_skipped-After (ok (some x)) = record {
    base = record { invariants = refl; config = refl };
    hks = refl;
    nhks = refl;
  }
  try_skipped-After (err e) = refl
  try_skipped-After diverges = tt

  decrypt_he-After : (visit : Visit) (enc ct ad : Bytes) → After (decrypt_he p visit enc ct ad s0)
  unfolding decrypt_he try_skipped_message_keys_he try_all_header_keys
  decrypt_he-After visit enc ct ad =
      continue-Undone (KeptHe s0) (recorded_he s0) _ _ (try_skipped-After _)
        (λ found s k. decrypt_with_he-After enc ct ad found s k)

-- If DecryptHE returns an error, every field of the session is as it was before the call, its header
-- keys and its store of skipped keys included, and the snapshot excepted, which holds those fields.
pub decrypt_he_atomic :
    (p : Primitives) (visit : Visit) (s : HeSession) (enc_header ciphertext ad : Bytes) (e : Error)
    → (decrypt_he p visit enc_header ciphertext ad s).0 ≡ err e
    → (decrypt_he p visit enc_header ciphertext ad s).1 ≡ recorded_he s
decrypt_he_atomic p visit s enc_header ciphertext ad e =
    error-Undone (KeptHe s) (recorded_he s) (decrypt_he p visit enc_header ciphertext ad s) e
      (decrypt_he-After p s visit enc_header ciphertext ad)
