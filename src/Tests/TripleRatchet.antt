-- ===== src/Tests/TripleRatchet.antt =====
-- The Triple Ratchet on concrete inputs.
use native.Mathlib.Omega.{arith}
use go_doubleratchet.Base.{
  ℕ, ◌∷◌, ◌≡◌, refl, [], some, replicate, ok, err, epoch_mismatch, auth_failure, bytes_eqb,
}
use go_doubleratchet.Config.{default_config, effective_max_skip, effective_hybrid_info, info_or}
use go_doubleratchet.Message.{TripleRatchetMessage}
use go_doubleratchet.Session.RoundTrip.{InSync}
use go_doubleratchet.SessionSpqr.Adopt.{Paired}
use go_doubleratchet.SessionTr.{TripleRatchetSession, encrypt_tr, decrypt_tr}
use go_doubleratchet.SessionTr.Atomic.{recorded_tr, encrypt_tr_atomic, decrypt_tr_atomic}
use go_doubleratchet.SessionTr.RoundTrip.{decrypt_tr-encrypt_tr}
use go_doubleratchet.Tests.Toy.{toy, toy-HmacLength, toy-HkdfReads, toy-CbcInverts}
use go_doubleratchet.Tests.Parties.{alice, alice_pk, bob, hi, in_sync, mirrored, nothing_stored}
use go_doubleratchet.Tests.PostQuantum.{
  toy_provider, toy_provider-Restores, alice_pq, bob_pq, paired, keyed, alice_keyed,
}
use go_doubleratchet.Config.{effective_encrypt_info, identity_ad_prefix, identity_prefix, zero_key}
use go_doubleratchet.Kdf.{
  derive_message_key, derive_next_chain_key, hkdf_expand, ratchet_chain_key_spqr,
  ratchet_root_key_spqr, split_triple,
}
use go_doubleratchet.Session.{build_ad}
use go_doubleratchet.SessionSpqr.{
  clear_old_epochs, new_pair, new_session, receive_chain, set_receive,
}
use go_doubleratchet.SessionSpqr.Methods.{
  adopt_key, directed_pair, receive_key, receive_on_epoch, receive_with_spqr, send_key,
  skip_loop_spqr, skip_message_keys_spqr, skip_on_epoch, step_chain, take_key,
  try_skipped_message_keys,
}
use go_doubleratchet.Message.{encode_header, encode_scka_header}
use go_doubleratchet.Base.Words.{put_uint32}
use go_doubleratchet.Crypto.{is_zeroed, public_key_from_private}
use go_doubleratchet.State.Skipped.{get_key}
use go_doubleratchet.State.ReceiverChains.{
  add_chain, chain_at, find, get_from, new_receiver_chains, push, set_chain,
}
use go_doubleratchet.Session.Ratchet.{
  derive_from, derive_on_chain, derive_recv_message_key, finish_derive, message_key_32,
  next_chain_key, skip_loop, skip_message_keys,
}
use go_doubleratchet.Session.Methods.{
  check_max_skip, is_current_chain, is_new_epoch, ratchet_receive_key, ratchet_send_key,
  take_skipped,
}
use go_doubleratchet.Base.{epoch_mismatch}
use go_doubleratchet.Base.GoMap
use go_doubleratchet.Suite
use go_doubleratchet.SessionTr.{record_snapshot, decrypt_checked, decrypt_both}
use go_doubleratchet.Session.Methods.{
  ratchet_send_key, send_on_chain, ratchet_receive_key, receive_with, receive_on_chain,
}
use go_doubleratchet.Crypto.{public_key_from_private, is_zeroed}
use go_doubleratchet.Kdf.{hybrid}
use go_doubleratchet.Message.{encode_tr_header, encode_header}

abbrev alice_tr : TripleRatchetSession ℕ
alice_tr = record { dr = alice; spqr = alice_pq; config = default_config }

abbrev bob_tr : TripleRatchetSession ℕ
bob_tr = record { dr = bob; spqr = bob_pq; config = default_config }

decrypt_tr-encrypt_tr_example :
    let sent = encrypt_tr toy toy_provider (ok []) hi [] alice_tr in
    (msg : TripleRatchetMessage) × (sent.0 ≡ ok msg)
    × ((decrypt_tr toy toy_provider msg [] bob_tr).0 ≡ ok hi)
    × InSync toy sent.1.dr (decrypt_tr toy toy_provider msg [] bob_tr).1.dr 0
    × Paired sent.1.spqr (decrypt_tr toy toy_provider msg [] bob_tr).1.spqr
unfolding effective_max_skip in_sync
decrypt_tr-encrypt_tr_example =
    decrypt_tr-encrypt_tr toy toy_provider toy-HmacLength toy-HkdfReads toy-CbcInverts alice_tr
      bob_tr 1 (ok []) hi [] keyed (0 ∷ []) 1 (some (replicate 32 0)) 1 in_sync paired mirrored refl
      (omega arith) (nothing_stored 1) (omega arith) refl refl alice_keyed

-- A sender whose provider is behind the session, so that its key is refused when the base session has
-- already moved on.
abbrev late_tr : TripleRatchetSession ℕ
late_tr = record alice_tr { spqr = record alice_pq { epoch = 5 } }

late_fails : (encrypt_tr toy toy_provider (ok []) hi [] late_tr).0 ≡ err epoch_mismatch
unfolding encrypt_tr record_snapshot ratchet_send_key send_on_chain public_key_from_private
    is_zeroed send_key adopt_key late_tr new_session
late_fails = refl

encrypt_tr_atomic_example :
    (encrypt_tr toy toy_provider (ok []) hi [] late_tr).1 ≡ recorded_tr late_tr
encrypt_tr_atomic_example =
    encrypt_tr_atomic toy toy_provider toy_provider-Restores late_tr (ok []) hi [] epoch_mismatch
      late_fails

abbrev forged : TripleRatchetMessage
forged = record {
  ciphertext = replicate 64 5;
  header = record {
    scka = some (record { msg = 0 ∷ []; n = 0 });
    ec = record { ratchet_public_key = alice_pk; pn = 0; n = 0 };
  };
}

forged_fails : (decrypt_tr toy toy_provider forged [] bob_tr).0 ≡ err auth_failure
unfolding decrypt_tr decrypt_checked decrypt_both record_snapshot ratchet_receive_key take_skipped
    receive_with get_key GoMap.lookup is_new_epoch is_current_chain bytes_eqb receive_on_chain find
    get_from push add_chain new_receiver_chains check_max_skip chain_at effective_max_skip
    skip_message_keys skip_loop set_chain derive_recv_message_key derive_on_chain derive_from
    finish_derive Suite.decrypt Suite.derive_keys Suite.open_body build_ad encode_header put_uint32
    identity_ad_prefix identity_prefix zero_key effective_encrypt_info info_or derive_message_key
    message_key_32 next_chain_key derive_next_chain_key receive_key adopt_key ratchet_root_key_spqr
    split_triple hkdf_expand clear_old_epochs try_skipped_message_keys take_key receive_with_spqr
    skip_message_keys_spqr skip_on_epoch skip_loop_spqr receive_chain receive_on_epoch step_chain
    ratchet_chain_key_spqr new_session new_pair directed_pair set_receive GoMap.insert hybrid
    encode_tr_header encode_scka_header effective_hybrid_info
forged_fails = refl

decrypt_tr_atomic_example : (decrypt_tr toy toy_provider forged [] bob_tr).1 ≡ recorded_tr bob_tr
decrypt_tr_atomic_example =
    decrypt_tr_atomic toy toy_provider toy_provider-Restores bob_tr forged [] auth_failure
      forged_fails
