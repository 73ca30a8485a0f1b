-- ===== src/State/Invariants.antt =====
-- internal/state/invariants.go: the snapshot that a failed decryption is rolled back to.
use go_doubleratchet.Base.{
  ℕ, Bool, false, Option, none, some, [], Bytes, Result, ok, err, invariant_violation, nat_eqb, not,
  bytes_eqb, if◌then◌else◌,
}
use go_doubleratchet.Base.Words.{u32_succ}
use go_doubleratchet.Config.{zero_key}
use go_doubleratchet.Crypto.{zero_bytes}
use go_doubleratchet.State.Skipped
use go_doubleratchet.State.Skipped.{Storage}
use go_doubleratchet.State.ReceiverChains
use go_doubleratchet.State.ReceiverChains.{ReceiverChains}

-- The two pointers are nil until the first Record, and after Clear.
pub record Invariants : Type 0 where
  pub prev_mk_skipped : Option Storage
  pub prev_recv_chains : Option ReceiverChains
  pub prev_rk : Bytes
  pub prev_cks : Option Bytes
  pub prev_ns : ℕ
  pub prev_pn : ℕ
  pub prev_dhs : Bytes
  pub prev_dhr : Bytes
  pub prev_dh_r_set : Bool
  pub prev_dh_ratchet_performed : Bool

unfoldable pub new_invariants : Invariants
new_invariants = record {
  prev_mk_skipped = none;
  prev_recv_chains = none;
  prev_rk = [];
  prev_cks = none;
  prev_ns = 0;
  prev_pn = 0;
  prev_dhs = zero_key;
  prev_dhr = zero_key;
  prev_dh_r_set = false;
  prev_dh_ratchet_performed = false;
}

-- `Record`; byte slices are copied by `copyBytes`, which keeps nil.
unfoldable pub record_state :
    ℕ
    → ℕ
    → Bytes
    → Bytes
    → Bytes
    → Option Bytes
    → ReceiverChains
    → Storage
    → Bool
    → Bool
    → Invariants
record_state ns pn rk dhs dhr cks recv_chains mk_skipped dh_r_set dh_ratchet_performed = record {
  prev_mk_skipped = some (Skipped.clone mk_skipped);
  prev_recv_chains = some (ReceiverChains.clone recv_chains);
  prev_rk = rk;
  prev_cks = cks;
  prev_ns = ns;
  prev_pn = pn;
  prev_dhs = dhs;
  prev_dhr = dhr;
  prev_dh_r_set = dh_r_set;
  prev_dh_ratchet_performed = dh_ratchet_performed;
}

-- `Clear`: key material is zeroed; the counters stay.
unfoldable pub clear_invariants : Invariants → Invariants
clear_invariants inv = record inv {
  prev_rk = zero_bytes inv.prev_rk;
  prev_cks = elim inv.prev_cks [ none ↦ none | some ck ↦ some (zero_bytes ck) ];
  prev_dhs = zero_key;
  prev_dhr = zero_key;
  prev_recv_chains = none;
  prev_mk_skipped = none;
  prev_dh_r_set = false;
  prev_dh_ratchet_performed = false;
}

unfoldable pub verify_send : ℕ → ℕ → Result (Unit {0})
verify_send ns expected_prev_ns =
    if not (nat_eqb ns (u32_succ expected_prev_ns)) then err invariant_violation else ok tt

unfoldable pub verify_pn : ℕ → ℕ → Result (Unit {0})
verify_pn pn expected_prev_pn =
    if not (nat_eqb pn expected_prev_pn) then err invariant_violation else ok tt

unfoldable pub verify_dh_transition : Bytes → Bytes → Result (Unit {0})
verify_dh_transition dhr new_remote_pk =
    if not (bytes_eqb dhr new_remote_pk) then err invariant_violation else ok tt
