-- ===== src/SessionHe.antt =====
-- session_he.go: the state of a session with header encryption, and its constructors.
pub mod Ratchet
pub mod Methods
pub mod Frame
pub mod Atomic
pub mod WellFormed
pub mod Sending
pub mod Nonce
pub mod Deliver
pub mod RoundTrip
use go_doubleratchet.Base.{
  ℕ, Bool, true, false, Option, none, some, Bytes, length, take, Result, ok, err, bind, Method,
  shared_secret_too_short, invalid_input, ltb, not, if◌then◌else◌,
}
use go_doubleratchet.Primitives.{Primitives}
use go_doubleratchet.Config.{Config, zero_key, validate, effective_max_skip, effective_hekdf_info}
use go_doubleratchet.Crypto.{
  KeyPair, generate_key_pair, shared_secret, verify_public_key, zero_bytes,
}
use go_doubleratchet.Crypto.HeaderEncrypt.{HeaderKey}
use go_doubleratchet.Kdf.{derive_root_key_he}
use go_doubleratchet.State.Skipped.{new_storage}
use go_doubleratchet.State.ReceiverChains.{new_receiver_chains}
use go_doubleratchet.State.Invariants.{new_invariants}
use go_doubleratchet.Session.{Session, config_or_default}
use go_doubleratchet.Session.Methods as Base

pub record HeSession : Type 0 where
  pub dr : Session
  pub hks : HeaderKey
  pub hkr : HeaderKey
  pub nhks : HeaderKey
  pub nhkr : HeaderKey

-- `HeaderKey{Key: key, NonceCounter: 0}`
unfoldable pub fresh : Bytes → HeaderKey
fresh key = record { key = key; nonce_counter = 0 }

module _ (p : Primitives) where
  -- The errors are wrapped with a prefix in the source; the error inside is what is returned here.
  unfoldable pub init_initiator_he :
      Result Bytes → Bytes → Bytes → Bytes → Bytes → Option Config → Result HeSession
  unfolding fresh
  init_initiator_he entropy secret bob_ratchet_pk shared_hka shared_nhkb cfg =
      let config = config_or_default cfg in
      if ltb (length secret) 32
      then err shared_secret_too_short
      else bind (validate (some config)) λ _. bind (generate_key_pair p entropy) λ (dhs_priv, _).
        bind (shared_secret p dhs_priv bob_ratchet_pk) λ dh_out.
          bind (derive_root_key_he p (take 32 secret) dh_out (effective_hekdf_info config))
            λ (rk, cks, nhks). bind (new_storage (effective_max_skip (some config))) λ sk.
              ok (record {
                dr = record {
                  invariants = new_invariants;
                  config = config;
                  mk_skipped = sk;
                  recv_chains = new_receiver_chains;
                  rk = rk;
                  cks = some cks;
                  ns = 0;
                  pn = 0;
                  dhr = bob_ratchet_pk;
                  dhs = dhs_priv;
                  dh_ratchet_performed = false;
                  dh_r_set = true;
                };
                hks = fresh shared_hka;
                hkr = fresh zero_key;
                nhks = fresh nhks;
                nhkr = fresh shared_nhkb;
              })

unfoldable pub init_responder_he :
    Bytes → KeyPair → Bytes → Bytes → Option Config → Result HeSession
unfolding fresh
init_responder_he secret bob_key_pair shared_hka shared_nhkb cfg =
    let config = config_or_default cfg in
    if ltb (length secret) 32
    then err shared_secret_too_short
    else bind (validate (some config)) λ _.
      if not (verify_public_key bob_key_pair.public_key)
      then err invalid_input
      else bind (new_storage (effective_max_skip (some config))) λ sk. ok (record {
        dr = record {
          invariants = new_invariants;
          config = config;
          mk_skipped = sk;
          recv_chains = new_receiver_chains;
          rk = take 32 secret;
          cks = none;
          ns = 0;
          pn = 0;
          dhr = zero_key;
          dhs = bob_key_pair.private_key;
          dh_ratchet_performed = false;
          dh_r_set = false;
        };
        hks = fresh zero_key;
        hkr = fresh zero_key;
        nhks = fresh shared_nhkb;
        nhkr = fresh shared_hka;
      })

-- A call of a method of the base session, and one that may change the sending header key.
abbrev pub on_dr : {A : Type 0} → Method Session A → Method HeSession A
on_dr m s = ((m s.dr).0, record s { dr = (m s.dr).1 })

abbrev pub on_hks : {A : Type 0} → Method HeaderKey A → Method HeSession A
on_hks m s = ((m s.hks).0, record s { hks = (m s.hks).1 })
