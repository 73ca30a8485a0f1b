-- ===== src/Session.antt =====
-- session.go: the state of a Double Ratchet session, its constructors and its key derivations.
pub mod Ratchet
pub mod Methods
pub mod Frame
pub mod Atomic
pub mod WellFormed
pub mod Sending
pub mod NextMessage
pub mod Numbers
pub mod Chain
pub mod Skipping
pub mod Deliver
pub mod RoundTrip
pub mod Late
pub mod Replay
pub mod Start
pub mod First
pub mod Keys
pub mod KeyAgreement
use go_doubleratchet.Base.{
  ℕ, Bool, true, false, List, [], ◌∷◌, ◌++◌, Option, none, some, Bytes, length, take, drop, Result,
  ok, err, bind, shared_secret_too_short, invalid_input, ltb, not, if◌then◌else◌,
}
use go_doubleratchet.Primitives.{Primitives}
use go_doubleratchet.Config.{
  Config, default_config, zero_key, validate, effective_max_skip, effective_kdf_info,
  identity_ad_prefix,
}
use go_doubleratchet.Crypto.{KeyPair, generate_key_pair, shared_secret, verify_public_key}
use go_doubleratchet.State.Skipped.{Storage, new_storage}
use go_doubleratchet.State.ReceiverChains.{ReceiverChains, new_receiver_chains}
use go_doubleratchet.State.Invariants.{Invariants, new_invariants}

-- A nil sending chain key is `none`. The pointers `config`, `mkSkipped`, `recvChains` and
-- `invariants` of a session that a constructor returned are never nil.
pub record Session : Type 0 where
  pub invariants : Invariants
  pub config : Config
  pub mk_skipped : Storage
  pub recv_chains : ReceiverChains
  pub rk : Bytes
  pub cks : Option Bytes
  pub ns : ℕ
  pub pn : ℕ
  pub dhr : Bytes
  pub dhs : Bytes
  pub dh_ratchet_performed : Bool
  pub dh_r_set : Bool

-- `if cfg == nil { cfg = &Config{MaxSkip: DefaultMaxSkip} }`
unfoldable pub config_or_default : Option Config → Config
config_or_default none = default_config
config_or_default (some c) = c

-- `[identityPrefix] || ad || header`
unfoldable pub build_ad : Config → Bytes → Bytes → Bool → Bytes
build_ad config header ad sending = identity_ad_prefix (some config) sending ++ (ad ++ header)

module _ (p : Primitives) where
  open p use {hkdf_sha256}

  -- the new root key and the new chain key
  unfoldable pub derive_root_and_chain : Bytes → Bytes → Bytes → Result (Bytes × Bytes)
  derive_root_and_chain dh_output current_rk info =
      bind (hkdf_sha256 dh_output current_rk info 64) λ okm. ok (take 32 okm, drop 32 okm)

  -- The errors are wrapped with a prefix in the source; the error inside is what is returned here.
  unfoldable pub init_initiator : Result Bytes → Bytes → Bytes → Option Config → Result Session
  init_initiator entropy secret bob_ratchet_pk cfg =
      let config = config_or_default cfg in
      if ltb (length secret) 32
      then err shared_secret_too_short
      else bind (validate (some config)) λ _. bind (generate_key_pair p entropy) λ (dhs_priv, _).
        bind (shared_secret p dhs_priv bob_ratchet_pk) λ dh_out.
          bind (derive_root_and_chain dh_out (take 32 secret) (effective_kdf_info config))
            λ (rk, cks). bind (new_storage (effective_max_skip (some config))) λ sk. ok (record {
              invariants = new_invariants;
              config = config;
              mk_skipped = sk;
              recv_chains = new_receiver_chains;
              rk = rk;
              cks = some cks;
              ns = 0;
              pn = 0;
              dhr = bob_ratchet_pk;
              dhs = dhs_priv;
              dh_ratchet_performed = false;
              dh_r_set = true;
            })

unfoldable pub init_responder : Bytes → KeyPair → Option Config → Result Session
init_responder secret bob_key_pair cfg =
    let config = config_or_default cfg in
    if ltb (length secret) 32
    then err shared_secret_too_short
    else bind (validate (some config)) λ _.
      if not (verify_public_key bob_key_pair.public_key)
      then err invalid_input
      else bind (new_storage (effective_max_skip (some config))) λ sk. ok (record {
        invariants = new_invariants;
        config = config;
        mk_skipped = sk;
        recv_chains = new_receiver_chains;
        rk = take 32 secret;
        cks = none;
        ns = 0;
        pn = 0;
        dhr = zero_key;
        dhs = bob_key_pair.private_key;
        dh_ratchet_performed = false;
        dh_r_set = false;
      })
