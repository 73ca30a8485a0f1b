-- ===== src/Tests/Sessions.antt =====
-- Sessions on concrete inputs.
use native.Mathlib.Omega.{arith}
use go_doubleratchet.Base.{
  ◌+◌, ◌≡◌, refl, true, false, [], ◌∷◌, none, some, replicate, ok, err, auth_failure, bytes_eqb,
}
use go_doubleratchet.Base.Words.{put_uint32}
use go_doubleratchet.Base.GoMap
use go_doubleratchet.Config.{
  default_config, zero_key, effective_max_skip, effective_encrypt_info, info_or, identity_ad_prefix,
  identity_prefix,
}
use go_doubleratchet.Kdf.{derive_message_key, derive_next_chain_key}
use go_doubleratchet.Message.{Message, encode_header}
use go_doubleratchet.State.Skipped.{get_key}
use go_doubleratchet.State.Skipped.Access.{stored}
use go_doubleratchet.State.ReceiverChains.{
  new_receiver_chains, push, find, chain_at, set_chain, add_chain, get_from,
}
use go_doubleratchet.State.ReceiverChains.Window.{push-IsValid}
use go_doubleratchet.Suite
use go_doubleratchet.Padding.{pkcs7_pad, pkcs7_unpad, all_eqb}
use go_doubleratchet.Session.Ratchet.{
  perform_dh_ratchet_recv, enter_epoch, store_previous, store_range, message_key_32,
}
use go_doubleratchet.Crypto.{verify_public_key, is_zeroed, shared_secret}
use go_doubleratchet.Session.{derive_root_and_chain}
use go_doubleratchet.Config.{effective_kdf_info}
use go_doubleratchet.State.Skipped.{store, storage_key, make_room, append_entry}
use go_doubleratchet.Session.Deliver.{chain}
use go_doubleratchet.Session.Replay.{decrypt-decrypt}
use go_doubleratchet.Session.{Session, build_ad}
use go_doubleratchet.Session.Ratchet.{
  message_key_32, next_chain_key, store_range, skip_loop, skip_message_keys, derive_from,
  finish_derive, derive_on_chain, derive_recv_message_key,
}
use go_doubleratchet.Session.Methods.{
  take_skipped, is_current_chain, is_new_epoch, check_max_skip, open_message, decrypt_on_chain,
  decrypt_with, decrypt, encrypt,
}
use go_doubleratchet.Session.Atomic.{recorded, decrypt_atomic}
use go_doubleratchet.Session.WellFormed
use go_doubleratchet.Session.WellFormed.{decrypt-IsValid}
use go_doubleratchet.Session.Chain.{chain_key, message_key, derive_from_lem, derive_from_diverges}
use go_doubleratchet.Session.Skipping.{stored-store_range}
use go_doubleratchet.Session.RoundTrip.{InSync, decrypt-encrypt_in_sync, encrypt-InSync}
use go_doubleratchet.Session.Late.{decrypt-encrypt_swapped}
use go_doubleratchet.Message.{Header}
use go_doubleratchet.Tests.Toy.{
  ok_value, empty_storage, empty_storage-IsValid, toy, toy-HmacLength, toy-HkdfReads,
  toy-CbcInverts,
}
use go_doubleratchet.Tests.Parties.{
  ck, alice_pk, alice, bob, bob_chains-IsValid, bob-IsValid, in_sync, mirrored, nothing_stored, hi,
}

decrypt-encrypt_in_sync_example :
    (msg : Message) × ((encrypt toy (ok []) hi [] alice).0 ≡ ok msg)
    × ((decrypt toy msg [] bob).0 ≡ ok hi)
    × InSync toy (encrypt toy (ok []) hi [] alice).1 (decrypt toy msg [] bob).1 0
unfolding effective_max_skip in_sync
decrypt-encrypt_in_sync_example =
    decrypt-encrypt_in_sync toy toy-HmacLength toy-HkdfReads toy-CbcInverts alice bob 1 (ok []) hi
      [] in_sync mirrored (omega arith) (nothing_stored 1) (omega arith)

encrypt-InSync_example :
    (msg : Message) × ((encrypt toy (ok []) hi [] alice).0 ≡ ok msg)
    × InSync toy (encrypt toy (ok []) hi [] alice).1 bob 2
encrypt-InSync_example =
    encrypt-InSync toy toy-HmacLength toy-HkdfReads toy-CbcInverts alice bob 1 (ok []) hi [] in_sync
      mirrored (omega arith)

decrypt-encrypt_swapped_example :
    (msg1 msg2 : Message) × ((encrypt toy (ok []) hi [] alice).0 ≡ ok msg1)
    × ((encrypt toy (ok []) (1 ∷ []) [] (encrypt toy (ok []) hi [] alice).1).0 ≡ ok msg2)
    × ((decrypt toy msg2 [] bob).0 ≡ ok (1 ∷ []))
    × ((decrypt toy msg1 [] (decrypt toy msg2 [] bob).1).0 ≡ ok hi)
unfolding effective_max_skip in_sync
decrypt-encrypt_swapped_example =
    decrypt-encrypt_swapped toy toy-HmacLength toy-HkdfReads toy-CbcInverts alice bob 1 (ok [])
      (ok []) hi (1 ∷ []) [] [] in_sync mirrored refl (omega arith) empty_storage-IsValid
      (omega arith) (λ i le. nothing_stored (0 + i)) (omega arith)

-- A message on the receiver's chain that no one sealed.
abbrev forged : Message
forged = record {
  ciphertext = replicate 64 5;
  header = record { ratchet_public_key = alice_pk; pn = 0; n = 0 };
}

forged_fails : (decrypt toy forged [] bob).0 ≡ err auth_failure
unfolding decrypt take_skipped decrypt_with get_key GoMap.lookup is_new_epoch is_current_chain
    bytes_eqb decrypt_on_chain find get_from push add_chain new_receiver_chains check_max_skip
    chain_at effective_max_skip skip_message_keys skip_loop set_chain derive_recv_message_key
    derive_on_chain derive_from finish_derive open_message Suite.decrypt Suite.derive_keys
    Suite.open_body build_ad encode_header put_uint32 identity_ad_prefix identity_prefix zero_key
    effective_encrypt_info info_or derive_message_key message_key_32 next_chain_key
    derive_next_chain_key
forged_fails = refl

decrypt_atomic_example : (decrypt toy forged [] bob).1 ≡ recorded bob
decrypt_atomic_example = decrypt_atomic toy bob forged [] auth_failure forged_fails

decrypt-IsValid_example : WellFormed.IsValid (decrypt toy forged [] bob).1
decrypt-IsValid_example = decrypt-IsValid toy forged [] bob bob-IsValid

derive_from_lem_example :
    derive_from toy 5 5 2 ck none ≡ some (chain_key toy 3 ck, some (message_key toy 3 ck))
derive_from_lem_example = derive_from_lem toy 3 5 5 2 ck none refl (omega arith) (omega arith)

derive_from_diverges_example : derive_from toy 1000000 4294967295 7 ck none ≡ none
derive_from_diverges_example = derive_from_diverges toy 1000000 7 ck none (omega arith)

stored-store_range_example :
    stored (store_range toy alice_pk 3 ck 5 empty_storage) alice_pk 6
    ≡ some (message_key_32 toy (chain_key toy 1 ck))
stored-store_range_example =
    stored-store_range toy alice_pk 3 5 1 ck empty_storage refl (omega arith) (omega arith)
      empty_storage-IsValid (omega arith) (λ i lt. nothing_stored (5 + i))

-- The receiver behind the first message of a new epoch, which says that the old one had one message.
abbrev turned : Session
turned =
    (perform_dh_ratchet_recv toy (record { ratchet_public_key = replicate 32 40; pn = 1; n = 0 })
      bob).1

abbrev old_header : Header
old_header = record { ratchet_public_key = alice_pk; pn = 0; n = 0 }

-- That message, which arrives late.
abbrev old_message : Message
old_message = record {
  ciphertext = ok_value (
      Suite.encrypt toy (message_key toy 0 ck) hi
        (build_ad default_config (encode_header old_header) [] true)
        (effective_encrypt_info default_config));
  header = old_header;
}

old_key_stored : stored turned.mk_skipped alice_pk 0 ≡ some (message_key toy 0 ck)
unfolding perform_dh_ratchet_recv bytes_eqb verify_public_key is_zeroed shared_secret
    derive_root_and_chain effective_kdf_info info_or enter_epoch store_previous store_range store
    message_key_32 next_chain_key derive_message_key derive_next_chain_key effective_max_skip push
    add_chain new_receiver_chains find get_from chain_at storage_key put_uint32 make_room
    append_entry GoMap.lookup GoMap.insert stored message_key chain_key
old_key_stored = refl

old_chain_held :
    (find turned.recv_chains alice_pk ≡ some 0)
    × (chain_at turned.recv_chains 0 ≡ chain ck 0 alice_pk)
    × (turned.config ≡ default_config)
unfolding perform_dh_ratchet_recv bytes_eqb verify_public_key is_zeroed shared_secret
    derive_root_and_chain effective_kdf_info info_or enter_epoch store_previous store_range store
    message_key_32 next_chain_key derive_message_key derive_next_chain_key effective_max_skip push
    add_chain new_receiver_chains find get_from chain_at storage_key put_uint32 make_room
    append_entry GoMap.lookup GoMap.insert stored message_key chain_key
old_chain_held = (refl, refl, refl)

turned_chains :
    turned.recv_chains ≡ push bob.recv_chains (replicate 32 40) (some (replicate 32 248))
unfolding perform_dh_ratchet_recv bytes_eqb verify_public_key is_zeroed shared_secret
    derive_root_and_chain effective_kdf_info info_or enter_epoch store_previous store_range store
    message_key_32 next_chain_key derive_message_key derive_next_chain_key effective_max_skip push
    add_chain new_receiver_chains find get_from chain_at storage_key put_uint32 make_room
    append_entry GoMap.lookup GoMap.insert stored message_key chain_key
turned_chains = refl

old_message_opens :
    Suite.decrypt toy
      (message_key toy 0 ck)
      old_message.ciphertext
      (build_ad default_config (encode_header old_header) [] false)
      (effective_encrypt_info default_config)
    ≡ ok hi
unfolding Suite.decrypt Suite.encrypt Suite.derive_keys Suite.open_body build_ad encode_header
    put_uint32 identity_ad_prefix identity_prefix zero_key effective_encrypt_info info_or
    derive_message_key message_key chain_key bytes_eqb pkcs7_pad pkcs7_unpad all_eqb
old_message_opens = refl

decrypt-decrypt_example :
    ((decrypt toy old_message [] turned).0 ≡ ok hi)
    × ((decrypt toy old_message [] (decrypt toy old_message [] turned).1).0 ≡ ok hi)
decrypt-decrypt_example =
    let (found, at, config) = old_chain_held in
    decrypt-decrypt toy turned old_message [] 0 0 0 ck hi old_key_stored found at
      (rw turned_chains (
        push-IsValid bob.recv_chains (replicate 32 40) (some (replicate 32 248))
          bob_chains-IsValid))
      refl (omega arith) (omega arith) (rw config old_message_opens)
