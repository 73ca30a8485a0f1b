-- ===== src/Tests/PostQuantum.antt =====
-- The post-quantum ratchet on concrete inputs.
use go_doubleratchet.Base.{
  Option, ℕ, ◌+◌, ◌≡◌, refl, [], ◌∷◌, none, some, Bytes, get_or, replicate, ok, err, auth_failure,
  auth_failed, ◌++◌,
}
use go_doubleratchet.Base.GoMap
use go_doubleratchet.Config.{
  default_config, zero_key, effective_max_skip, effective_encrypt_info, info_or, identity_ad_prefix,
  identity_prefix,
}
use go_doubleratchet.Kdf.{
  derive_initial_chains_spqr, ratchet_root_key_spqr, ratchet_chain_key_spqr, hkdf_expand,
  split_triple,
}
use go_doubleratchet.Message.{SckaHeader}
use go_doubleratchet.Scka.{Provider, Restores}
use go_doubleratchet.Session.{config_or_default, build_ad}
use go_doubleratchet.SessionSpqr.{
  SpqrSession, new_pair, new_session, init_initiator_scka, init_responder_scka,
}
use go_doubleratchet.SessionSpqr.Methods.{
  adopt_key, directed_pair, drop_send_chain, step_chain, send_on_epoch, send_key, encrypt_spqr,
  encrypt_message_spqr, receive_key, receive_on_epoch, receive_with_spqr, decrypt_message_spqr,
  decrypt_spqr,
}
use go_doubleratchet.SessionSpqr.Adopt.{Paired}
use go_doubleratchet.SessionSpqr.Start.{init_scka-Paired}
use go_doubleratchet.SessionSpqr.RoundTrip.{decrypt_spqr-encrypt_spqr}
use go_doubleratchet.SessionSpqr.Epochs.{is_old, adopt_key_lem}
use go_doubleratchet.SessionSpqr.Atomic.{decrypt_spqr-auth_failure}
use go_doubleratchet.Session.RoundTrip.{Mirrored}
use go_doubleratchet.State.Epoch.{KdfChain, direction_a2b, direction_b2a}
use go_doubleratchet.SessionSpqr.{
  send_chain, receive_chain, clear_old_epochs, set_send, set_receive,
}
use go_doubleratchet.SessionSpqr.Methods.{
  try_skipped_message_keys, take_key, skip_message_keys_spqr, skip_on_epoch, skip_loop_spqr,
}
use go_doubleratchet.Suite
use go_doubleratchet.Padding.{pkcs7_pad}
use go_doubleratchet.Message.{encode_scka_header}
use go_doubleratchet.Base.{bytes_eqb, nat_eqb, nat_eq, if◌then◌else◌}
use go_doubleratchet.Base.Words.{u32_succ, put_uint32}
use go_doubleratchet.Tests.Toy.{toy, toy-HmacLength, toy-HkdfReads, toy-CbcInverts}

-- Every message starts the next epoch.
abbrev pub toy_provider : Provider ℕ ℕ
toy_provider = record {
  init_initiator = λ sk n. (ok tt, n);
  init_responder = λ sk n. (ok tt, n);
  send = λ n. (ok (n ∷ [], n + 1, some (replicate 32 n), n + 1), n + 1);
  receive = λ msg n. (
    ok (get_or msg 0 0 + 1, some (replicate 32 (get_or msg 0 0)), get_or msg 0 0 + 1),
    get_or msg 0 0 + 1,
  );
  snapshot = λ n. n;
  restore = λ snap n. snap;
  close = λ n. (ok tt, n);
}

pub toy_provider-Restores : Restores toy_provider
toy_provider-Restores now before = refl

-- The sessions that the constructors return, spelled out.
abbrev first_chain : Option KdfChain
first_chain = some (record { ck = replicate 32 145; n = 0 })

abbrev pub alice_pq : SpqrSession ℕ
alice_pq = record {
  scka = 0;
  kdf_chains = (0, record { send = first_chain; receive = first_chain }) ∷ [];
  mk_skipped = [];
  config = default_config;
  rk = replicate 32 145;
  epoch = 0;
  max_skip = 1000;
  direction = direction_a2b;
}

abbrev pub bob_pq : SpqrSession ℕ
bob_pq = record alice_pq { direction = direction_b2a }

alice_starts : init_initiator_scka toy toy_provider (replicate 32 1) (some 0) none ≡ ok alice_pq
unfolding init_initiator_scka derive_initial_chains_spqr split_triple hkdf_expand config_or_default
    new_session new_pair effective_max_skip
alice_starts = refl

bob_starts : init_responder_scka toy toy_provider (replicate 32 1) (some 0) none ≡ ok bob_pq
unfolding init_responder_scka derive_initial_chains_spqr split_triple hkdf_expand config_or_default
    new_session new_pair effective_max_skip
bob_starts = refl

init_scka-Paired_example : Paired alice_pq bob_pq × Paired bob_pq alice_pq
init_scka-Paired_example =
    init_scka-Paired toy toy_provider (replicate 32 1) (some 0) (some 0) none none alice_pq bob_pq
      alice_starts bob_starts

pub paired : Paired alice_pq bob_pq
paired =
    (init_scka-Paired toy toy_provider (replicate 32 1) (some 0) (some 0) none none alice_pq bob_pq
      alice_starts bob_starts).0

pub mirrored : Mirrored default_config default_config
mirrored = record { local_is_remote = refl; remote_is_local = refl; same_info = refl }

abbrev pub keyed : Bytes × ℕ × Bytes
keyed = (0 ∷ [], 0, replicate 32 16)

pub alice_keyed : (send_key toy toy_provider alice_pq).0 ≡ ok keyed
unfolding send_key adopt_key ratchet_root_key_spqr split_triple hkdf_expand clear_old_epochs
    drop_send_chain send_chain send_on_epoch step_chain ratchet_chain_key_spqr new_session new_pair
    directed_pair set_send GoMap.lookup GoMap.insert put_uint32
alice_keyed = refl

abbrev hi : Bytes
hi = 72 ∷ 105 ∷ []

abbrev header : SckaHeader
header = record { msg = 0 ∷ []; n = 0 }

-- The IV, the padded plaintext and the tag.
abbrev sealed : Bytes
sealed = replicate 16 127 ++ (hi ++ (replicate 14 14 ++ replicate 32 180))

alice_encrypts : (encrypt_spqr toy toy_provider hi [] alice_pq).0 ≡ ok (header, sealed)
unfolding encrypt_spqr send_key adopt_key ratchet_root_key_spqr split_triple hkdf_expand
    clear_old_epochs drop_send_chain send_chain send_on_epoch step_chain ratchet_chain_key_spqr
    new_session new_pair directed_pair set_send GoMap.lookup GoMap.insert put_uint32
    encrypt_message_spqr encode_scka_header build_ad identity_ad_prefix identity_prefix
    effective_encrypt_info info_or zero_key Suite.encrypt Suite.derive_keys pkcs7_pad bytes_eqb
alice_encrypts = refl

decrypt_spqr-encrypt_spqr_example :
    ((decrypt_spqr toy toy_provider header sealed [] bob_pq).0 ≡ ok hi)
    × Paired
        (encrypt_spqr toy toy_provider hi [] alice_pq).1
        (decrypt_spqr toy toy_provider header sealed [] bob_pq).1
decrypt_spqr-encrypt_spqr_example =
    decrypt_spqr-encrypt_spqr toy toy_provider toy-HmacLength toy-HkdfReads toy-CbcInverts alice_pq
      bob_pq hi [] (header, sealed) (0 ∷ []) 1 (some (replicate 32 0)) 1 paired mirrored refl refl
      alice_encrypts

forged_closed :
    decrypt_message_spqr toy default_config (replicate 32 16) (replicate 64 5) header []
    ≡ err auth_failed
unfolding decrypt_message_spqr encode_scka_header build_ad identity_ad_prefix identity_prefix
    effective_encrypt_info info_or zero_key Suite.decrypt Suite.derive_keys Suite.open_body
    bytes_eqb put_uint32
forged_closed = refl

bob_keyed : (receive_key toy toy_provider header bob_pq).0 ≡ ok (1, replicate 32 16)
unfolding receive_key adopt_key ratchet_root_key_spqr split_triple hkdf_expand clear_old_epochs
    try_skipped_message_keys take_key receive_with_spqr skip_message_keys_spqr skip_on_epoch
    skip_loop_spqr receive_chain receive_on_epoch step_chain ratchet_chain_key_spqr new_session
    new_pair directed_pair set_receive GoMap.lookup GoMap.insert put_uint32
bob_keyed = refl

decrypt_spqr-auth_failure_example :
    decrypt_spqr toy toy_provider header (replicate 64 5) [] bob_pq ≡ (err auth_failure, bob_pq)
unfolding new_session
decrypt_spqr-auth_failure_example =
    decrypt_spqr-auth_failure toy toy_provider toy_provider-Restores bob_pq header (replicate 64 5)
      [] (1, replicate 32 16) auth_failed bob_keyed forged_closed

alice_adopts : (adopt_key toy 1 (some (replicate 32 0)) 1 alice_pq).0 ≡ ok tt
unfolding adopt_key ratchet_root_key_spqr split_triple hkdf_expand new_session
alice_adopts = refl

adopt_key_lem_example :
    let s' = (adopt_key toy 1 (some (replicate 32 0)) 1 alice_pq).1 in
    (cks : Bytes) × (ckr : Bytes) × (ratchet_root_key_spqr toy alice_pq.rk (replicate 32 0)
      ≡ ok (s'.rk, cks, ckr))
    × (s'.epoch ≡ u32_succ alice_pq.epoch)
    × (1 ≡ s'.epoch)
    × (GoMap.lookup 1 s'.kdf_chains ≡ (
        if is_old 1 1
        then none
        else (if nat_eqb 1 1
            then some (directed_pair alice_pq.direction cks ckr)
            else GoMap.lookup 1 alice_pq.kdf_chains)))
    × (GoMap.lookup 1 s'.mk_skipped
        ≡ (if is_old 1 1 then none else GoMap.lookup 1 alice_pq.mk_skipped))
adopt_key_lem_example = adopt_key_lem toy 1 1 1 (replicate 32 0) alice_pq tt alice_adopts
