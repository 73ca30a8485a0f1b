-- ===== src/Tests/HeaderSessions.antt =====
-- Sessions with header encryption on concrete inputs.
use native.Mathlib.Omega.{arith}
use go_doubleratchet.Base.{
  ℕ, ◌≡◌, refl, [], ◌∷◌, ◌+◌, Bytes, Result, ok, err, take, replicate, auth_failure, bytes_eqb,
  ◌++◌,
}
use go_doubleratchet.Base.GoMap
use go_doubleratchet.Base.GoMap.{IsRange}
use go_doubleratchet.Base.Words.{put_uint32, put_uint64, uint32}
use go_doubleratchet.Crypto.HeaderEncrypt.{
  HeaderKey, nonce_of, decrypt_header, encrypt_header, count_nonce, seal_header, derive_header_keys,
  as_found,
}
use go_doubleratchet.State.Skipped.{Storage, try_all_header_keys, try_entries, consume_entry}
use go_doubleratchet.State.Skipped.Laws
use go_doubleratchet.State.Skipped.HeaderKeys.{Finds, try_all_header_keys_lem}
use go_doubleratchet.SessionHe.{HeSession}
use go_doubleratchet.SessionHe.Methods.{
  Visit, encrypt_he, send_on_chain_he, decrypt_he, try_skipped_message_keys_he, decrypt_with_he,
  follow_header, is_new_remote_pk, decrypt_on_chain_he, open_message_he,
}
use go_doubleratchet.SessionHe.Ratchet.{
  decrypt_header_he, or_next_key, decode_found, skip_message_keys_he, skip_on_chain_he,
}
use go_doubleratchet.SessionHe.Atomic.{recorded_he, decrypt_he_atomic}
use go_doubleratchet.SessionHe.WellFormed.{IsValidHe, decrypt_he-IsValidHe}
use go_doubleratchet.SessionHe.Nonce.{key_in_use, encrypt_he-nonce_of}
use go_doubleratchet.Crypto.{public_key_from_private, is_zeroed}
use go_doubleratchet.Message.{encode_header, decode_header}
use go_doubleratchet.Suite
use go_doubleratchet.Padding.{pkcs7_pad, pkcs7_unpad, all_eqb}
use go_doubleratchet.Config.{
  effective_max_skip, identity_ad_prefix, identity_prefix, zero_key, effective_encrypt_info,
  info_or,
}
use go_doubleratchet.Kdf.{derive_message_key, derive_next_chain_key}
use go_doubleratchet.State.Skipped.{store, make_room, append_entry, storage_key}
use go_doubleratchet.State.ReceiverChains.{
  find, get_from, push, add_chain, new_receiver_chains, chain_at, set_chain,
}
use go_doubleratchet.Session.{build_ad}
use go_doubleratchet.Session.Methods.{check_max_skip}
use go_doubleratchet.Session.Ratchet.{
  message_key_32, next_chain_key, skip_loop, skip_message_keys, derive_from, finish_derive,
  derive_on_chain, derive_recv_message_key,
}
use go_doubleratchet.SessionHe.RoundTrip.{InSyncHe, decrypt_he-encrypt_he}
use go_doubleratchet.Tests.Toy.{toy, toy-HmacLength, toy-HkdfReads, toy-CbcInverts}
use go_doubleratchet.Tests.Parties.{in_sync, mirrored, alice, bob, bob-IsValid, hi}

abbrev header_key : ℕ → ℕ → HeaderKey
header_key n counter = record { key = replicate 32 n; nonce_counter = counter }

abbrev alice_he : HeSession
alice_he = record {
  dr = alice;
  hks = header_key 3 5;
  hkr = header_key 0 0;
  nhks = header_key 6 0;
  nhkr = header_key 4 0;
}

abbrev bob_he : HeSession
bob_he = record {
  dr = bob;
  hks = header_key 0 0;
  hkr = header_key 3 0;
  nhks = header_key 4 0;
  nhkr = header_key 6 0;
}

bob_he-IsValidHe : IsValidHe bob_he
bob_he-IsValidHe = record { base = bob-IsValid; hks_fits = omega arith; next_unused = refl }

abbrev ok_pair : Result (Bytes × Bytes) → Bytes × Bytes
ok_pair (ok x) = x
ok_pair r = ([], [])

-- The nonce 5, the padded header of message 1 and the tag.
abbrev sealed_header : Bytes
sealed_header =
    replicate 7 0
    ++ (5
        ∷ (replicate 8 0
            ++ (replicate 32 17 ++ (replicate 7 0 ++ (1 ∷ (replicate 8 8 ++ replicate 32 99))))))

abbrev sent : Bytes × Bytes
sent = (sealed_header, (ok_pair (encrypt_he toy (ok []) hi [] alice_he).0).1)

alice_sends : (encrypt_he toy (ok []) hi [] alice_he).0 ≡ ok sent
unfolding encrypt_he send_on_chain_he public_key_from_private encrypt_header is_zeroed count_nonce
    seal_header nonce_of put_uint64 put_uint32 derive_header_keys encode_header pkcs7_pad
    Suite.encrypt Suite.derive_keys
alice_sends = refl

encrypt_he-nonce_of_example :
    let used = key_in_use alice_he in
    (take 16 sent.0 ≡ nonce_of used.nonce_counter)
    × ((encrypt_he toy (ok []) hi [] alice_he).1.hks
        ≡ record used { nonce_counter = used.nonce_counter + 1 })
encrypt_he-nonce_of_example = encrypt_he-nonce_of toy (ok []) hi [] alice_he sent alice_sends

-- The entries in the order of the list.
abbrev in_order : Visit
in_order m = m

in_order-IsRange : IsRange in_order
in_order-IsRange m x = (λ h. h, λ h. h)

-- The header of the sender with another ciphertext.
forged_fails : (decrypt_he toy in_order sent.0 (replicate 64 5) [] bob_he).0 ≡ err auth_failure
unfolding decrypt_he try_skipped_message_keys_he try_all_header_keys consume_entry try_entries
    decrypt_with_he decrypt_header_he decrypt_header is_zeroed as_found pkcs7_unpad all_eqb
    derive_header_keys or_next_key decode_found decode_header bytes_eqb follow_header
    is_new_remote_pk decrypt_on_chain_he find get_from push add_chain new_receiver_chains
    check_max_skip chain_at effective_max_skip skip_message_keys_he skip_on_chain_he
    skip_message_keys skip_loop set_chain derive_recv_message_key derive_on_chain derive_from
    finish_derive open_message_he Suite.decrypt Suite.derive_keys Suite.open_body build_ad
    identity_ad_prefix identity_prefix zero_key effective_encrypt_info info_or derive_message_key
    message_key_32 next_chain_key derive_next_chain_key store make_room append_entry storage_key
    put_uint32 GoMap.lookup GoMap.insert uint32
forged_fails = refl

decrypt_he_atomic_example :
    (decrypt_he toy in_order sent.0 (replicate 64 5) [] bob_he).1 ≡ recorded_he bob_he
decrypt_he_atomic_example =
    decrypt_he_atomic toy in_order bob_he sent.0 (replicate 64 5) [] auth_failure forged_fails

decrypt_he-IsValidHe_example : IsValidHe (decrypt_he toy in_order sent.0 sent.1 [] bob_he).1
decrypt_he-IsValidHe_example =
    decrypt_he-IsValidHe toy in_order sent.0 sent.1 [] bob_he in_order-IsRange bob_he-IsValidHe

-- The key of message 0 of a chain, under its header key.
abbrev one : Storage
one = record {
  entries =
      (replicate 32 3 ++ (0 ∷ 0 ∷ 0 ∷ 1 ∷ []), Laws.entry_of (replicate 32 3) 1 (replicate 32 9))
      ∷ [];
  order = (replicate 32 3 ++ (0 ∷ 0 ∷ 0 ∷ 1 ∷ [])) ∷ [];
  max_skip = 2;
}

one-IsValid : Laws.IsValid one
unfolding GoMap.elem bytes_eqb
one-IsValid = record { synced = refl; distinct = (refl, tt); bounded = omega arith }

try_all_header_keys_lem_example :
    Finds
      (decrypt_header toy)
      sent.0
      one
      (try_all_header_keys in_order (decrypt_header toy) sent.0 one)
try_all_header_keys_lem_example =
    try_all_header_keys_lem in_order (decrypt_header toy) sent.0 one in_order-IsRange one-IsValid

in_sync_he : InSyncHe toy alice_he bob_he 1
unfolding is_zeroed in_sync
in_sync_he = record {
  base = in_sync;
  current = refl;
  is_set = refl;
  header_key = refl;
  live = refl;
  key_length = refl;
  pn_fits = omega arith;
}

decrypt_he-encrypt_he_example :
    (sent : Bytes × Bytes) × ((encrypt_he toy (ok []) hi [] alice_he).0 ≡ ok sent)
    × ((decrypt_he toy in_order sent.0 sent.1 [] bob_he).0 ≡ ok hi)
    × InSyncHe toy
        (encrypt_he toy (ok []) hi [] alice_he).1
        (decrypt_he toy in_order sent.0 sent.1 [] bob_he).1
        0
unfolding effective_max_skip
decrypt_he-encrypt_he_example =
    decrypt_he-encrypt_he toy toy-HmacLength toy-HkdfReads toy-CbcInverts in_order alice_he bob_he 1
      (ok []) hi [] in_order-IsRange in_sync_he mirrored (omega arith) refl (omega arith)
      (omega arith)
