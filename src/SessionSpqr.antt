-- ===== src/SessionSpqr.antt =====
-- session_spqr.go: the state of a session of the sparse post-quantum ratchet, its constructors, and
-- the maps from epochs to chains and to skipped keys.
pub mod Methods
pub mod Atomic
pub mod Epochs
pub mod Chains
pub mod Adopt
pub mod KeyAgreement
pub mod RoundTrip
pub mod Start
use go_doubleratchet.Base.{
  ℕ, ◌-◌, Bool, true, false, List, [], ◌∷◌, Option, none, some, Bytes, length, Result, ok, err,
  bind, Method, shared_secret_too_short, nil_provider, ltb, leb, nat_eqb, if◌then◌else◌, map,
  nat_eq,
}
use go_doubleratchet.Base.GoMap
use go_doubleratchet.Base.GoMap.{GoMap}
use go_doubleratchet.Primitives.{Primitives}
use go_doubleratchet.Config.{Config, effective_max_skip}
use go_doubleratchet.Kdf.{derive_initial_chains_spqr}
use go_doubleratchet.Scka.{Provider}
use go_doubleratchet.Session.{config_or_default}
use go_doubleratchet.State.Epoch.{Direction, direction_a2b, direction_b2a, KdfChain, KdfChainPair}

abbrev pub ChainMap : Type 0
ChainMap = GoMap ℕ KdfChainPair

abbrev pub SkippedMap : Type 0
SkippedMap = GoMap ℕ (GoMap ℕ Bytes)

-- The pointers in the map of chains are never nil.
pub record SpqrSession (P : Type 0) : Type 0 where
  pub scka : P
  pub kdf_chains : ChainMap
  pub mk_skipped : SkippedMap
  pub config : Config
  pub rk : Bytes
  pub epoch : ℕ
  pub max_skip : ℕ
  pub direction : Direction

-- The pair of chains at the start of an epoch.
unfoldable pub new_pair : Bytes → Bytes → KdfChainPair
new_pair cks ckr = record {
  send = some (record { ck = cks; n = 0 });
  receive = some (record { ck = ckr; n = 0 });
}

-- The session of a constructor.
unfoldable pub new_session :
    {P : Type 0} → P → Direction → Config → Bytes → Bytes → Bytes → SpqrSession P
unfolding new_pair
new_session scka direction config rk cks ckr = record {
  scka = scka;
  kdf_chains = (0, new_pair cks ckr) ∷ [];
  mk_skipped = [];
  config = config;
  rk = rk;
  epoch = 0;
  max_skip = effective_max_skip (some config);
  direction = direction;
}

module _ {P S : Type 0} (p : Primitives) (scka : Provider P S) where
  -- The errors are wrapped with a prefix in the source; the error inside is what is returned here.
  unfoldable pub init_initiator_scka : Bytes → Option P → Option Config → Result (SpqrSession P)
  init_initiator_scka sk none cfg =
      if ltb (length sk) 32 then err shared_secret_too_short else err nil_provider
  init_initiator_scka sk (some provider) cfg =
      let started = scka.init_initiator sk provider in
      if ltb (length sk) 32
      then err shared_secret_too_short
      else bind started.0 λ _. bind (derive_initial_chains_spqr p sk) λ (rk, cks, ckr).
        ok (new_session started.1 direction_a2b (config_or_default cfg) rk cks ckr)

  -- The responder takes the initiator's sending chain as its receiving chain.
  unfoldable pub init_responder_scka : Bytes → Option P → Option Config → Result (SpqrSession P)
  init_responder_scka sk none cfg =
      if ltb (length sk) 32 then err shared_secret_too_short else err nil_provider
  init_responder_scka sk (some provider) cfg =
      let started = scka.init_responder sk provider in
      if ltb (length sk) 32
      then err shared_secret_too_short
      else bind started.0 λ _. bind (derive_initial_chains_spqr p sk) λ (rk, ckr, cks).
        ok (new_session started.1 direction_b2a (config_or_default cfg) rk cks ckr)

-- The sending and the receiving chain of an epoch; a missing epoch has neither.
abbrev pub send_of : Option KdfChainPair → Option KdfChain
send_of none = none
send_of (some pair) = pair.send

abbrev pub receive_of : Option KdfChainPair → Option KdfChain
receive_of none = none
receive_of (some pair) = pair.receive

unfoldable pub send_chain : ℕ → ChainMap → Option KdfChain
send_chain epoch chains = send_of (GoMap.lookup epoch chains)

unfoldable pub receive_chain : ℕ → ChainMap → Option KdfChain
receive_chain epoch chains = receive_of (GoMap.lookup epoch chains)

-- An assignment through the pointer to the pair of an epoch.
unfoldable pub set_send : ℕ → Option KdfChain → ChainMap → ChainMap
set_send epoch c chains = elim (GoMap.lookup epoch chains) [
  | none ↦ chains
  | some pair ↦ GoMap.insert epoch (record pair { send = c }) chains
]

unfoldable pub set_receive : ℕ → Option KdfChain → ChainMap → ChainMap
set_receive epoch c chains = elim (GoMap.lookup epoch chains) [
  | none ↦ chains
  | some pair ↦ GoMap.insert epoch (record pair { receive = c }) chains
]

-- The loops that delete the epochs below a bound.
unfoldable pub keep_from : {V : Type 0} → ℕ → GoMap ℕ V → GoMap ℕ V
keep_from bound [] = []
keep_from bound ((epoch, v) ∷ m) =
    let rest = keep_from bound m in if ltb epoch bound then rest else (epoch, v) ∷ rest

unfoldable pub clear_old_epochs : {P : Type 0} → ℕ → SpqrSession P → SpqrSession P
clear_old_epochs sending_epoch s = if leb sending_epoch 1 then s else record s {
  kdf_chains = keep_from (sending_epoch - 1) s.kdf_chains;
  mk_skipped = keep_from (sending_epoch - 1) s.mk_skipped;
}

-- `cloneChains` and `cloneSkipped`, which copy every entry.
unfoldable pub copy_pair : ℕ × KdfChainPair → ℕ × KdfChainPair
copy_pair (epoch, pair) = (epoch, record { send = pair.send; receive = pair.receive })

unfoldable pub clone_chains : ChainMap → ChainMap
clone_chains = map copy_pair

unfoldable pub copy_keys : ℕ × GoMap ℕ Bytes → ℕ × GoMap ℕ Bytes
copy_keys (epoch, keys) = (epoch, map (λ (n, mk). (n, mk)) keys)

unfoldable pub clone_skipped : SkippedMap → SkippedMap
clone_skipped = map copy_keys
