-- ===== src/SessionTr/Atomic.antt =====
-- A failed Encrypt or Decrypt of the Triple Ratchet leaves both components as they were.
use go_doubleratchet.Base.{
  ◌≡◌, refl, Bool, true, false, Option, none, some, Bytes, Result, err, Method, Error, Preserves,
  ◌>>=◌, lift, or_error, Undone, undo_on_error-Undone, step-Undone, error-Undone, auth_failure,
  if◌then◌else◌,
}
use go_doubleratchet.Primitives.{Primitives}
use go_doubleratchet.Config.{effective_hybrid_info, effective_encrypt_info}
use go_doubleratchet.Kdf.{hybrid}
use go_doubleratchet.Message.{SckaHeader, TripleRatchetMessage, encode_tr_header}
use go_doubleratchet.Scka.{Provider, Restores}
use go_doubleratchet.Suite
use go_doubleratchet.Session.{Session, build_ad}
use go_doubleratchet.Session.Methods.{ratchet_send_key, ratchet_receive_key}
use go_doubleratchet.Session.Atomic.{Kept, recorded, rollback_lem}
use go_doubleratchet.Session.Keys.{ratchet_send_key-Kept, ratchet_receive_key-Kept}
use go_doubleratchet.SessionSpqr.{SpqrSession}
use go_doubleratchet.SessionSpqr.Methods.{send_key, receive_key}
use go_doubleratchet.SessionSpqr.Atomic.{
  KeptSpqr, restore_spqr_lem, send_key-Preserves, receive_key-Preserves,
}
use go_doubleratchet.SessionTr.{
  TripleRatchetSession, on_ec, on_pq, rollback_tr, or_rollback_tr, record_snapshot, encrypt_tr,
  decrypt_both, decrypt_checked, decrypt_tr,
}

-- The session with the snapshot of its base session recorded, and nothing else changed.
abbrev pub recorded_tr : {P : Type 0} → TripleRatchetSession P → TripleRatchetSession P
recorded_tr s = record s { dr = recorded s.dr }

-- A message without an SCKA header is refused before anything is recorded.
abbrev pub has_scka : Option SckaHeader → Bool
has_scka none = false
has_scka (some h) = true

record KeptTr {P : Type 0} (s0 s : TripleRatchetSession P) : Type 0 where
  pub ec : Kept s0.dr s.dr
  pub pq : KeptSpqr s0.spqr s.spqr
  pub config : s.config ≡ s0.config

recorded-KeptTr : {P : Type 0} (s0 : TripleRatchetSession P) → KeptTr s0 (recorded_tr s0)
recorded-KeptTr s0 = record {
  ec = record { invariants = refl; config = refl };
  pq = record { config = refl; max_skip = refl; direction = refl };
  config = refl;
}

module _ {P S : Type 0} (p : Primitives) (scka : Provider P S) (restores : Restores scka)
    (s0 : TripleRatchetSession P) where
  -- Rolled back on an error; on the way to be rolled back otherwise.
  abbrev After : {A : Type 0} → Result A × TripleRatchetSession P → Type 0
  After = Undone (KeptTr s0) (recorded_tr s0)

  rollback_tr_lem :
      (s : TripleRatchetSession P)
      → KeptTr s0 s
      → rollback_tr p scka (recorded_tr s0) s ≡ recorded_tr s0
  unfolding rollback_tr
  rollback_tr_lem s k =
      simp (
        k.config,
        rollback_lem s0.dr s.dr k.ec,
        restore_spqr_lem p scka restores s0.spqr s.spqr k.pq,
      )

  step-After :
      {A B : Type 0} (m : Method (TripleRatchetSession P) A)
      (f : A → Method (TripleRatchetSession P) B)
      → Preserves (KeptTr s0) m
      → ((a : A) (s : TripleRatchetSession P) → KeptTr s0 s → After (f a s))
      → (s : TripleRatchetSession P) → KeptTr s0 s
      → After ((or_rollback_tr p scka (recorded_tr s0) m >>= f) s)
  step-After =
      step-Undone (rollback_tr p scka (recorded_tr s0)) (KeptTr s0) (recorded_tr s0) rollback_tr_lem

  on_ec-Preserves :
      {A : Type 0} (m : Method Session A)
      → Preserves (Kept s0.dr) m
      → Preserves (KeptTr s0) (on_ec m)
  on_ec-Preserves m h s k = record { ec = h s.dr k.ec; pq = k.pq; config = k.config }

  on_pq-Preserves :
      {A : Type 0} (m : Method (SpqrSession P) A)
      → Preserves (KeptSpqr s0.spqr) m
      → Preserves (KeptTr s0) (on_pq m)
  on_pq-Preserves m h s k = record { ec = k.ec; pq = h s.spqr k.pq; config = k.config }

  encrypt_tr-After :
      (entropy : Result Bytes) (plaintext ad : Bytes)
      → After (encrypt_tr p scka entropy plaintext ad s0)
  unfolding encrypt_tr record_snapshot
  encrypt_tr-After entropy plaintext ad =
      step-After (on_ec (ratchet_send_key p entropy)) _
        (on_ec-Preserves (ratchet_send_key p entropy) (ratchet_send_key-Kept p s0.dr entropy))
        (λ (ec_header, ec_mk).
          step-After (on_pq (send_key p scka)) _
            (on_pq-Preserves (send_key p scka) (send_key-Preserves p scka s0.spqr))
            (λ (msg, n, pq_mk).
              step-After (lift (hybrid p pq_mk ec_mk (effective_hybrid_info s0.config))) _
                (λ s k. k)
                (λ combined.
                  step-After (lift (encode_tr_header _)) _ (λ s k. k)
                    (λ header_bytes.
                      step-After (lift (Suite.encrypt p combined plaintext _ _)) _ (λ s k. k)
                        (λ ct s k. k)))))
        (recorded_tr s0) (recorded-KeptTr s0)

  decrypt_both-After :
      (msg : TripleRatchetMessage) (ad : Bytes) (h : SckaHeader)
      → After (decrypt_both p scka msg ad h s0)
  unfolding decrypt_both record_snapshot
  decrypt_both-After msg ad h =
      step-After (on_ec (ratchet_receive_key p msg.header.ec)) _
        (on_ec-Preserves (ratchet_receive_key p msg.header.ec)
          (ratchet_receive_key-Kept p s0.dr msg.header.ec))
        (λ ec_mk.
          step-After (on_pq (receive_key p scka h)) _
            (on_pq-Preserves (receive_key p scka h) (receive_key-Preserves p scka s0.spqr h))
            (λ (_, pq_mk).
              step-After (lift (hybrid p pq_mk ec_mk (effective_hybrid_info s0.config))) _
                (λ s k. k)
                (λ combined.
                  step-After (lift (encode_tr_header msg.header)) _ (λ s k. k)
                    (λ header_bytes s k.
                      undo_on_error-Undone (rollback_tr p scka (recorded_tr s0)) (KeptTr s0)
                        (recorded_tr s0) rollback_tr_lem
                        (lift
                          (or_error auth_failure (
                            Suite.decrypt p combined msg.ciphertext
                              (build_ad s0.config header_bytes ad false)
                              (effective_encrypt_info s0.config)))
                          s)
                        k))))
        (recorded_tr s0) (recorded-KeptTr s0)

module _ {P S : Type 0} (p : Primitives) (scka : Provider P S) where
  -- For a provider whose Restore puts back what Snapshot took, if Encrypt returns an error, both
  -- components, the provider included, are as they were before the call, the snapshot of the base
  -- session excepted, which holds its fields.
  pub encrypt_tr_atomic :
      Restores scka
      → (s : TripleRatchetSession P) (entropy : Result Bytes) (plaintext ad : Bytes) (e : Error)
      → (encrypt_tr p scka entropy plaintext ad s).0 ≡ err e
      → (encrypt_tr p scka entropy plaintext ad s).1 ≡ recorded_tr s
  encrypt_tr_atomic restores s entropy plaintext ad e =
      error-Undone (KeptTr s) (recorded_tr s) (encrypt_tr p scka entropy plaintext ad s) e
        (encrypt_tr-After p scka restores s entropy plaintext ad)

  decrypt_checked-After :
      Restores scka
      → (s : TripleRatchetSession P) (msg : TripleRatchetMessage) (ad : Bytes) (e : Error)
        (o : Option SckaHeader)
      → (decrypt_checked p scka msg ad o s).0 ≡ err e
      → (decrypt_checked p scka msg ad o s).1 ≡ (if has_scka o then recorded_tr s else s)
  unfolding decrypt_checked
  decrypt_checked-After restores s msg ad e none f = refl
  decrypt_checked-After restores s msg ad e (some header) f =
      error-Undone (KeptTr s) (recorded_tr s) (decrypt_both p scka msg ad header s) e
        (decrypt_both-After p scka restores s msg ad header) f

  -- For a provider whose Restore puts back what Snapshot took, if Decrypt returns an error, both
  -- components, the provider included, are as they were before the call, the snapshot of the base
  -- session excepted, which holds its fields unless the message has no SCKA header.
  pub decrypt_tr_atomic :
      Restores scka
      → (s : TripleRatchetSession P) (msg : TripleRatchetMessage) (ad : Bytes) (e : Error)
      → (decrypt_tr p scka msg ad s).0 ≡ err e
      → (decrypt_tr p scka msg ad s).1 ≡ (if has_scka msg.header.scka then recorded_tr s else s)
  unfolding decrypt_tr
  decrypt_tr_atomic restores s msg ad e h =
      decrypt_checked-After restores s msg ad e msg.header.scka h
