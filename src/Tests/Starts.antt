-- ===== src/Tests/Starts.antt =====
-- The first message of two sessions on concrete inputs.
use go_doubleratchet.Base.{
  ap, sym, length, ◌≡◌, refl, true, false, [], ◌∷◌, none, some, Bytes, ◌++◌, replicate, ok,
  bytes_eqb,
}
use go_doubleratchet.Config.{
  default_config, zero_key, validate, validate_config, effective_max_skip, effective_kdf_info,
  info_or,
}
use go_doubleratchet.Crypto.{
  KeyPair, is_zeroed, clamp, verify_public_key, generate_key_pair, shared_secret,
  public_key_from_private,
}
use go_doubleratchet.Message.{Message}
use go_doubleratchet.State.Skipped.{new_storage}
use go_doubleratchet.State.ReceiverChains.{new_receiver_chains}
use go_doubleratchet.State.Invariants.{new_invariants}
use go_doubleratchet.Session.{
  Session, config_or_default, derive_root_and_chain, init_initiator, init_responder,
}
use go_doubleratchet.Session.Methods.{decrypt, encrypt}
use go_doubleratchet.Session.RoundTrip.{InSync}
use go_doubleratchet.Tests.Toy.{
  empty_storage, alice_private, bob_private, bob_pk, toy, toy-HmacLength, toy-HkdfReads,
  toy-CbcInverts,
}
use go_doubleratchet.Tests.Toy.{toy-X25519Length, toy-X25519Commutes, ok_value}
use go_doubleratchet.Session.First.{decrypt-encrypt_first}

abbrev hi : Bytes
hi = 72 ∷ 105 ∷ []

-- The session that InitInitiator returns, spelled out.
abbrev started : Session
started = record {
  invariants = new_invariants;
  config = default_config;
  mk_skipped = empty_storage;
  recv_chains = new_receiver_chains;
  rk = replicate 32 116;
  cks = some (replicate 32 116);
  ns = 0;
  pn = 0;
  dhr = bob_pk;
  dhs = replicate 31 8 ++ (72 ∷ []);
  dh_ratchet_performed = false;
  dh_r_set = true;
}

initiator_starts : init_initiator toy (ok alice_private) (replicate 32 1) bob_pk none ≡ ok started
unfolding init_initiator config_or_default validate validate_config zero_key bytes_eqb
    generate_key_pair clamp shared_secret is_zeroed derive_root_and_chain effective_kdf_info info_or
    effective_max_skip new_storage
initiator_starts = refl

abbrev bob_pair : KeyPair
bob_pair = record { private_key = bob_private; public_key = bob_pk }

abbrev waiting : Session
waiting = record started {
  rk = replicate 32 1;
  cks = none;
  dhr = replicate 32 0;
  dhs = bob_private;
  dh_r_set = false;
}

responder_waits : init_responder (replicate 32 1) bob_pair none ≡ ok waiting
unfolding init_responder config_or_default validate validate_config zero_key bytes_eqb
    verify_public_key is_zeroed effective_max_skip new_storage
responder_waits = refl

filled : (bytes : Bytes) → ok alice_private ≡ ok bytes → length bytes ≡ 32
filled bytes h = ap (λ r. length (ok_value r)) (sym h)

starts_live :
    (pk : Bytes) → public_key_from_private toy started.dhs ≡ ok pk → verify_public_key pk ≡ true
unfolding public_key_from_private verify_public_key is_zeroed
starts_live pk h = ap (λ r. verify_public_key (ok_value r)) (sym h)

decrypt-encrypt_first_example :
    (msg : Message) × ((encrypt toy (ok []) hi [] started).0 ≡ ok msg)
    × ((decrypt toy msg [] waiting).0 ≡ ok hi)
    × InSync toy (encrypt toy (ok []) hi [] started).1 (decrypt toy msg [] waiting).1 0
decrypt-encrypt_first_example =
    decrypt-encrypt_first toy toy-HmacLength toy-HkdfReads toy-CbcInverts toy-X25519Length
      toy-X25519Commutes (ok alice_private) (ok []) (replicate 32 1) hi [] bob_pair none none
      started waiting filled refl initiator_starts responder_waits
      (record { local_is_remote = refl; remote_is_local = refl; same_info = refl }) refl starts_live
