-- ===== src/SessionHe/WellFormed.antt =====
-- The invariant of a session with header encryption, and that every method keeps it.
use go_doubleratchet.Base.{
  ℕ, ◌≤◌, ◌≡◌, refl, Bool, Option, none, some, Bytes, Method, fail, Preserves, bind-Preserves,
  continue-Preserves, or_undo-Preserves, Bool-cases, inl, inr, invalid_transition, ◌&&◌, ◌||◌, not,
  ◌∙◌,
}
use go_doubleratchet.Base.GoMap.{IsRange}
use go_doubleratchet.Primitives.{Primitives}
use go_doubleratchet.Crypto.HeaderEncrypt.{max_uint64}
use go_doubleratchet.Message.{Header}
use go_doubleratchet.State.Skipped.HeaderKeys.{try_all_header_keys-IsValid}
use go_doubleratchet.State.ReceiverChains.{find}
use go_doubleratchet.Crypto.HeaderEncrypt.{decrypt_header}
use go_doubleratchet.Session.{Session}
use go_doubleratchet.Session.Ratchet.{derive_recv_message_key}
use go_doubleratchet.Session.Methods.{check_max_skip}
use go_doubleratchet.Session.WellFormed.{IsValid, IsValid-IsReceiving}
use go_doubleratchet.Session.Frame as BaseFrame
use go_doubleratchet.Session.Atomic.{recorded}
use go_doubleratchet.SessionHe.{HeSession, on_dr}
use go_doubleratchet.SessionHe.Ratchet.{
  skip_message_keys_he, decrypt_header_he, perform_dh_ratchet_recv_he,
}
use go_doubleratchet.SessionHe.Methods.{
  Visit, rollback_all, or_rollback_all, try_skipped_message_keys_he, open_message_he,
  is_new_remote_pk, follow_header, decrypt_on_chain_he, decrypt_with_he, decrypt_he,
}
use go_doubleratchet.SessionHe.Frame
use go_doubleratchet.SessionHe.Frame.{IsReceivingHe, on_dr-Preserves}
use go_doubleratchet.SessionHe.Atomic.{
  KeptHe, recorded_he, rollback_all_lem, KeptHe-IsReceivingHe, recorded-KeptHe,
}

-- The base session is valid, the nonce counter of the sending header key is a uint64, and no nonce
-- of the next sending header key is used.
pub record IsValidHe (s : HeSession) : Type 0 where
  pub base : IsValid s.dr
  pub hks_fits : s.hks.nonce_counter ≤ max_uint64
  pub next_unused : s.nhks.nonce_counter ≡ 0

no_cks-IsValid : (s : Session) → IsValid s → IsValid (record s { cks = none })
no_cks-IsValid s v = record {
  storage = v.storage;
  capacity = v.capacity;
  chains = v.chains;
  ns_fits = v.ns_fits;
  pn_fits = v.pn_fits;
}

recorded-IsValid : (s : Session) → IsValid s → IsValid (recorded s)
recorded-IsValid s v = record {
  storage = v.storage;
  capacity = v.capacity;
  chains = v.chains;
  ns_fits = v.ns_fits;
  pn_fits = v.pn_fits;
}

-- In the middle of a decryption: the base session is valid, and ready to be rolled back to `s0`.
abbrev Ready : HeSession → HeSession → Type 0
Ready s0 s = IsValid s.dr × KeptHe s0 s

Ready-IsReceivingHe : (s0 : HeSession) → IsReceivingHe (Ready s0)
Ready-IsReceivingHe s0 =
    let v = IsValid-IsReceiving in
    let k = KeptHe-IsReceivingHe s0 in
    record {
      in_dr = λ s. record {
        to_rk = λ dr rk h. (v.to_rk dr rk h.0, (k.in_dr s).to_rk dr rk h.1);
        to_store = λ dr pk n mk h. (v.to_store dr pk n mk h.0, (k.in_dr s).to_store dr pk n mk h.1);
        to_push = λ dr pk ck h. (v.to_push dr pk ck h.0, (k.in_dr s).to_push dr pk ck h.1);
        to_chain = λ dr idx c h. (v.to_chain dr idx c h.0, (k.in_dr s).to_chain dr idx c h.1);
      };
      no_cks = λ s h. (no_cks-IsValid s.dr h.0, k.no_cks s h.1);
      to_hkr = λ s hkr h. (h.0, k.to_hkr s hkr h.1);
      to_nhkr = λ s nhkr h. (h.0, k.to_nhkr s nhkr h.1);
    }

recorded-Ready : (s0 : HeSession) → IsValid s0.dr → Ready s0 (recorded_he s0)
recorded-Ready s0 v = (recorded-IsValid s0.dr v, recorded-KeptHe s0)

module _ (p : Primitives) (s0 : HeSession) (v0 : IsValid s0.dr) where
  or_rollback_all-Ready :
      {A : Type 0} (m : Method HeSession A)
      → Preserves (Ready s0) m
      → Preserves (Ready s0) (or_rollback_all (recorded_he s0) m)
  or_rollback_all-Ready m hm =
      or_undo-Preserves (rollback_all (recorded_he s0)) (Ready s0) m hm
        (λ s h. rw (rollback_all_lem s0 s h.1) (recorded-Ready s0 v0))

  decrypt_on_chain_he-Ready :
      (h : Header) (enc ct ad : Bytes) (o : Option ℕ)
      → Preserves (Ready s0) (decrypt_on_chain_he p (recorded_he s0) h enc ct ad o)
  unfolding decrypt_on_chain_he open_message_he
  decrypt_on_chain_he-Ready h enc ct ad none =
      or_rollback_all-Ready {A = Bytes} (fail invalid_transition) (λ s k. k)
  decrypt_on_chain_he-Ready h enc ct ad (some idx) =
      let P = Ready s0 in
      let r = Ready-IsReceivingHe s0 in
      bind-Preserves P (or_rollback_all (recorded_he s0) (on_dr (check_max_skip idx h.n))) _
        (or_rollback_all-Ready _ (
          on_dr-Preserves P r (check_max_skip idx h.n)
            (λ Q q. BaseFrame.check_max_skip-Preserves p Q q idx h.n)))
        (λ _.
          bind-Preserves P (or_rollback_all (recorded_he s0) (skip_message_keys_he p h.n)) _
            (or_rollback_all-Ready _ (Frame.skip_message_keys_he-Preserves p P r h.n))
            (λ _.
              bind-Preserves P
                (or_rollback_all (recorded_he s0) (on_dr (derive_recv_message_key p idx h.n))) _
                (or_rollback_all-Ready _ (
                  on_dr-Preserves P r (derive_recv_message_key p idx h.n)
                    (λ Q q. BaseFrame.derive_recv_message_key-Preserves p Q q idx h.n)))
                (λ mk.
                  bind-Preserves P
                    (or_rollback_all (recorded_he s0) (open_message_he p mk enc ct ad)) _
                    (or_rollback_all-Ready (open_message_he p mk enc ct ad) (λ s k. k))
                    (λ pt s k.
                      BaseFrame.advance_counter-keeps p (λ dr. P (record s { dr = dr })) (r.in_dr s)
                        idx s.dr k))))

  follow_header-Ready :
      (h : Header) (dh_ratchet : Bool)
      → Preserves (Ready s0) (follow_header p (recorded_he s0) h dh_ratchet)
  unfolding follow_header
  follow_header-Ready h dh_ratchet s k =
      let new = is_new_remote_pk s h in
      elim (Bool-cases (new || dh_ratchet)) [
        | inr known ↦ rw known k
        | inl turn ↦ elim (Bool-cases (new && (not dh_ratchet && s.dr.dh_r_set))) [
          | inl anomalous ↦
              rw (turn, anomalous)
                (or_rollback_all-Ready {A = Unit {0}} (fail invalid_transition) (λ s k. k) s k)
          | inr good ↦
              rw (turn, good)
                (or_rollback_all-Ready (perform_dh_ratchet_recv_he p h dh_ratchet)
                  (Frame.perform_dh_ratchet_recv_he-Preserves p (Ready s0) (Ready-IsReceivingHe s0)
                    h dh_ratchet)
                  s k)
        ]
      ]

  decrypt_with_he-Ready :
      (enc ct ad : Bytes) (found : Option Bytes)
      → Preserves (Ready s0) (decrypt_with_he p (recorded_he s0) enc ct ad found)
  unfolding decrypt_with_he open_message_he
  decrypt_with_he-Ready enc ct ad (some mk) =
      or_rollback_all-Ready (open_message_he p mk enc ct ad) (λ s k. k)
  decrypt_with_he-Ready enc ct ad none =
      bind-Preserves (Ready s0)
        (or_rollback_all (recorded_he s0) (λ s. (decrypt_header_he p s enc, s))) _
        (or_rollback_all-Ready _ (λ s k. k))
        (λ (h, dh_ratchet).
          bind-Preserves (Ready s0) (follow_header p (recorded_he s0) h dh_ratchet) _
            (follow_header-Ready h dh_ratchet)
            (λ _ s. decrypt_on_chain_he-Ready h enc ct ad (find s.dr.recv_chains s.dr.dhr) s))

  try_skipped-Ready :
      (visit : Visit) (enc : Bytes)
      → IsRange visit
      → Ready s0 (try_skipped_message_keys_he p visit enc (recorded_he s0)).1
  unfolding try_skipped_message_keys_he
  try_skipped-Ready visit enc range =
      let (stored, same) =
        try_all_header_keys-IsValid visit (decrypt_header p) enc s0.dr.mk_skipped range
          v0.storage in
      (
        record {
          storage = stored;
          capacity = same ∙ v0.capacity;
          chains = v0.chains;
          ns_fits = v0.ns_fits;
          pn_fits = v0.pn_fits;
        },
        record { base = record { invariants = refl; config = refl }; hks = refl; nhks = refl },
      )

-- DecryptHE keeps the invariant, whatever its outcome, for a map that is visited once through.
pub decrypt_he-IsValidHe :
    (p : Primitives) (visit : Visit) (enc_header ciphertext ad : Bytes) (s : HeSession)
    → IsRange visit
    → IsValidHe s
    → IsValidHe (decrypt_he p visit enc_header ciphertext ad s).1
unfolding decrypt_he
decrypt_he-IsValidHe p visit enc_header ciphertext ad s range v =
    let (base, kept) =
      continue-Preserves (Ready s)
        (try_skipped_message_keys_he p visit enc_header (recorded_he s)).0
        (try_skipped_message_keys_he p visit enc_header (recorded_he s)).1
        (decrypt_with_he p (recorded_he s) enc_header ciphertext ad)
        (decrypt_with_he-Ready p s v.base enc_header ciphertext ad)
        (try_skipped-Ready p s v.base visit enc_header range) in
    record {
      base = base;
      hks_fits = rw kept.hks v.hks_fits;
      next_unused = rw kept.nhks v.next_unused;
    }
