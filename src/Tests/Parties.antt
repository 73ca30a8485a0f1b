-- ===== src/Tests/Parties.antt =====
-- Two parties of a session, the one behind a message that is lost.
use native.Mathlib.Omega.{arith}
use go_doubleratchet.Base.{
  ℕ, ◌≡◌, refl, true, false, [], ◌∷◌, none, some, Bytes, replicate, bytes_eqb,
}
use go_doubleratchet.Base.GoMap
use go_doubleratchet.Config.{default_config, effective_max_skip}
use go_doubleratchet.Crypto.{public_key_from_private}
use go_doubleratchet.State.Skipped.Access.{stored}
use go_doubleratchet.State.ReceiverChains.{
  new_receiver_chains, push, find, chain_at, add_chain, get_from,
}
use go_doubleratchet.State.ReceiverChains.Window
use go_doubleratchet.State.ReceiverChains.Window.{push-IsValid, new_receiver_chains-IsValid}
use go_doubleratchet.State.Invariants.{new_invariants}
use go_doubleratchet.Session.{Session}
use go_doubleratchet.Session.WellFormed
use go_doubleratchet.Session.WellFormed.{decrypt-IsValid}
use go_doubleratchet.Session.Chain.{chain_key}
use go_doubleratchet.Session.RoundTrip.{Mirrored, InSync}
use go_doubleratchet.Tests.Toy.{
  empty_storage, empty_storage-IsValid, alice_private, bob_private, bob_pk, toy,
}

abbrev pub ck : Bytes
ck = replicate 32 7

abbrev pub alice_pk : Bytes
alice_pk = replicate 32 17

-- A sender whose first message is lost.
abbrev pub alice : Session
alice = record {
  invariants = new_invariants;
  config = default_config;
  mk_skipped = empty_storage;
  recv_chains = new_receiver_chains;
  rk = replicate 32 1;
  cks = some (chain_key toy 1 ck);
  ns = 1;
  pn = 0;
  dhr = bob_pk;
  dhs = alice_private;
  dh_ratchet_performed = false;
  dh_r_set = true;
}

-- The receiver, who has the sender's chain from its first message on.
abbrev pub bob : Session
bob = record {
  invariants = new_invariants;
  config = default_config;
  mk_skipped = empty_storage;
  recv_chains = push new_receiver_chains alice_pk (some ck);
  rk = replicate 32 1;
  cks = none;
  ns = 0;
  pn = 0;
  dhr = alice_pk;
  dhs = bob_private;
  dh_ratchet_performed = true;
  dh_r_set = true;
}

pub bob_chains-IsValid : Window.IsValid bob.recv_chains
bob_chains-IsValid =
    push-IsValid new_receiver_chains alice_pk (some ck) new_receiver_chains-IsValid.0

pub bob-IsValid : WellFormed.IsValid bob
unfolding effective_max_skip
bob-IsValid = record {
  storage = empty_storage-IsValid;
  capacity = refl;
  chains = bob_chains-IsValid;
  ns_fits = omega arith;
  pn_fits = omega arith;
}

pub alice-IsValid : WellFormed.IsValid alice
unfolding effective_max_skip
alice-IsValid = record {
  storage = empty_storage-IsValid;
  capacity = refl;
  chains = new_receiver_chains-IsValid.0;
  ns_fits = omega arith;
  pn_fits = omega arith;
}

unfoldable pub in_sync : InSync toy alice bob 1
unfolding public_key_from_private new_receiver_chains push add_chain find get_from chain_at
    bytes_eqb
in_sync = record {
  pk = alice_pk;
  idx = 0;
  nr = 0;
  ck = ck;
  sending = refl;
  no_turn = refl;
  own_key = refl;
  held = refl;
  at_chain = refl;
  number = refl;
  valid = bob_chains-IsValid;
}

pub mirrored : Mirrored default_config default_config
mirrored = record { local_is_remote = refl; remote_is_local = refl; same_info = refl }

pub nothing_stored : (n : ℕ) → stored empty_storage alice_pk n ≡ none
unfolding stored GoMap.lookup
nothing_stored n = refl

abbrev pub hi : Bytes
hi = 72 ∷ 105 ∷ []
