-- ===== src/SessionTr.antt =====
-- session_tr.go: a session of the Triple Ratchet, which runs a base session and a session of the
-- post-quantum ratchet side by side.
pub mod Atomic
pub mod RoundTrip
use go_doubleratchet.Base.{
  ℕ, Bool, true, false, [], ◌∷◌, Option, none, some, Bytes, length, take, Result, ok, err, diverges,
  bind, Method, pure, fail, lift, get, modify, ◌>>=◌, ◌>>◌, or_error, or_undo,
  shared_secret_too_short, nil_provider, nil_scka_header, auth_failure, ltb, if◌then◌else◌,
}
use go_doubleratchet.Primitives.{Primitives}
use go_doubleratchet.Config.{Config, validate, effective_hybrid_info, effective_encrypt_info}
use go_doubleratchet.Crypto.{KeyPair}
use go_doubleratchet.Kdf.{hybrid}
use go_doubleratchet.Message.{
  Header, SckaHeader, TripleRatchetHeader, TripleRatchetMessage, encode_tr_header,
}
use go_doubleratchet.Scka.{Provider}
use go_doubleratchet.Suite
use go_doubleratchet.Session.{Session, config_or_default, build_ad, init_initiator, init_responder}
use go_doubleratchet.Session.Ratchet.{snapshot, rollback}
use go_doubleratchet.Session.Methods.{ratchet_send_key, ratchet_receive_key, close}
use go_doubleratchet.SessionSpqr.{SpqrSession, init_initiator_scka, init_responder_scka}
use go_doubleratchet.SessionSpqr.Methods.{send_key, receive_key, restore_spqr, close_spqr}

pub record TripleRatchetSession (P : Type 0) : Type 0 where
  pub dr : Session
  pub spqr : SpqrSession P
  pub config : Config

abbrev ec_label : Bytes
ec_label =
    b'T' ∷ b'r' ∷ b'i' ∷ b'p' ∷ b'l' ∷ b'e' ∷ b'R' ∷ b'a' ∷ b't' ∷ b'c' ∷ b'h' ∷ b'e' ∷ b't' ∷ b'E'
    ∷ b'C' ∷ []

abbrev scka_label : Bytes
scka_label =
    b'T' ∷ b'r' ∷ b'i' ∷ b'p' ∷ b'l' ∷ b'e' ∷ b'R' ∷ b'a' ∷ b't' ∷ b'c' ∷ b'h' ∷ b'e' ∷ b't' ∷ b'S'
    ∷ b'C' ∷ b'K' ∷ b'A' ∷ []

-- A call of a method of the one component or of the other.
abbrev pub on_ec : {P A : Type 0} → Method Session A → Method (TripleRatchetSession P) A
on_ec m s = ((m s.dr).0, record s { dr = (m s.dr).1 })

abbrev pub on_pq : {P A : Type 0} → Method (SpqrSession P) A → Method (TripleRatchetSession P) A
on_pq m s = ((m s.spqr).0, record s { spqr = (m s.spqr).1 })

module _ (p : Primitives) where
  -- the EC key and the PQ key; a nil salt is the empty one
  unfoldable pub expand_sk : Bytes → Result (Bytes × Bytes)
  expand_sk sk =
      bind (p.hkdf_sha256 sk [] ec_label 32)
        λ skec. bind (p.hkdf_sha256 sk [] scka_label 32) λ skscka. ok (skec, skscka)

-- The guards of both constructors, and the expanded keys.
module _ {P S : Type 0} (p : Primitives) (scka : Provider P S) where
  unfoldable pub start_tr : Bytes → Option P → Config → Result (Bytes × Bytes)
  start_tr secret none config =
      if ltb (length secret) 32 then err shared_secret_too_short else err nil_provider
  start_tr secret (some provider) config =
      if ltb (length secret) 32
      then err shared_secret_too_short
      else bind (validate (some config)) λ _. expand_sk p (take 32 secret)

  -- The errors are wrapped with a prefix in the source; the error inside is what is returned here.
  unfoldable pub init_initiator_triple_ratchet :
      Result Bytes → Bytes → Bytes → Option P → Option Config → Result (TripleRatchetSession P)
  unfolding start_tr
  init_initiator_triple_ratchet entropy secret bob_drpk provider cfg =
      let config = config_or_default cfg in
      bind (start_tr secret provider config) λ (skec, skscka).
        bind (init_initiator p entropy skec bob_drpk (some config)) λ dr.
          bind (init_initiator_scka p scka skscka provider (some config))
            λ spqr. ok (record { dr = dr; spqr = spqr; config = config })

  unfoldable pub init_responder_triple_ratchet :
      Bytes → KeyPair → Option P → Option Config → Result (TripleRatchetSession P)
  unfolding start_tr
  init_responder_triple_ratchet secret bob_key_pair provider cfg =
      let config = config_or_default cfg in
      bind (start_tr secret provider config) λ (skec, skscka).
        bind (init_responder skec bob_key_pair (some config)) λ dr.
          bind (init_responder_scka p scka skscka provider (some config))
            λ spqr. ok (record { dr = dr; spqr = spqr; config = config })

  -- The closure `rollback` of Encrypt and of Decrypt, with the session before the call.
  unfoldable pub rollback_tr :
      TripleRatchetSession P → TripleRatchetSession P → TripleRatchetSession P
  rollback_tr before s = record s {
    dr = rollback s.dr;
    spqr = restore_spqr p scka before.spqr s.spqr;
  }

  abbrev pub or_rollback_tr :
      {A : Type 0}
      → TripleRatchetSession P
      → Method (TripleRatchetSession P) A
      → Method (TripleRatchetSession P) A
  or_rollback_tr before = or_undo (rollback_tr before)

  -- `s.dr.invariants.Record(…)`
  unfoldable pub record_snapshot : TripleRatchetSession P → TripleRatchetSession P
  record_snapshot s = record s { dr = record s.dr { invariants = snapshot s.dr } }

  unfoldable pub encrypt_tr :
      Result Bytes → Bytes → Bytes → Method (TripleRatchetSession P) TripleRatchetMessage
  encrypt_tr entropy plaintext ad = do
    modify record_snapshot
    before ← get
    let config = before.config
    (ec_header, ec_mk) ← or_rollback_tr before (on_ec (ratchet_send_key p entropy))
    (scka_msg, pq_n, pq_mk) ← or_rollback_tr before (on_pq (send_key p scka))
    combined_mk ← or_rollback_tr before (lift (hybrid p pq_mk ec_mk (effective_hybrid_info config)))
    let header : TripleRatchetHeader = record {
      scka = some (record { msg = scka_msg; n = pq_n });
      ec = ec_header;
    }
    header_bytes ← or_rollback_tr before (lift (encode_tr_header header))
    ct ← or_rollback_tr before (
        lift (
          Suite.encrypt p combined_mk plaintext (build_ad config header_bytes ad true)
            (effective_encrypt_info config)))
    pure (record { ciphertext = ct; header = header })

  -- Decrypt behind the check of its SCKA header.
  unfoldable pub decrypt_both :
      TripleRatchetMessage → Bytes → SckaHeader → Method (TripleRatchetSession P) Bytes
  decrypt_both msg ad scka_header = do
    modify record_snapshot
    before ← get
    let config = before.config
    ec_mk ← or_rollback_tr before (on_ec (ratchet_receive_key p msg.header.ec))
    (_, pq_mk) ← or_rollback_tr before (on_pq (receive_key p scka scka_header))
    combined_mk ← or_rollback_tr before (lift (hybrid p pq_mk ec_mk (effective_hybrid_info config)))
    header_bytes ← or_rollback_tr before (lift (encode_tr_header msg.header))
    or_rollback_tr before (
        lift (
          or_error auth_failure (
            Suite.decrypt p combined_mk msg.ciphertext (build_ad config header_bytes ad false)
              (effective_encrypt_info config))))

  -- `if msg.Header.SCKA == nil { return nil, ErrNilSCKAHeader }`
  unfoldable pub decrypt_checked :
      TripleRatchetMessage → Bytes → Option SckaHeader → Method (TripleRatchetSession P) Bytes
  decrypt_checked msg ad none = fail nil_scka_header
  decrypt_checked msg ad (some scka_header) = decrypt_both msg ad scka_header

  unfoldable pub decrypt_tr : TripleRatchetMessage → Bytes → Method (TripleRatchetSession P) Bytes
  unfolding decrypt_both decrypt_checked
  decrypt_tr msg ad = decrypt_checked msg ad msg.header.scka

  -- Close of the base session never fails.
  unfoldable pub close_tr : Method (TripleRatchetSession P) (Unit {0})
  close_tr = do on_ec (modify close); on_pq (close_spqr p scka)
