-- ===== src/Kdf.antt =====
-- internal/kdf: the key derivations of the chains and of the root keys. The error results of
-- DeriveMessageKey and DeriveNextChainKey are always nil and are left out.
use go_doubleratchet.Base.{
  ℕ, [], ◌∷◌, ◌++◌, Bytes, length, take, drop, replicate, Result, ok, err, bind, root_key_too_short,
  invalid_input, ltb, nat_eqb, not, ◌||◌, if◌then◌else◌,
}
use go_doubleratchet.Base.Words.{put_uint32}
use go_doubleratchet.Primitives.{Primitives}

-- `SPQR_PROTOCOL_INFO`
abbrev spqr_protocol_info : Bytes
spqr_protocol_info =
    b'S' ∷ b'P' ∷ b'Q' ∷ b'R' ∷ b'_' ∷ b'P' ∷ b'R' ∷ b'O' ∷ b'T' ∷ b'O' ∷ b'C' ∷ b'O' ∷ b'L' ∷ b'_'
    ∷ b'I' ∷ b'N' ∷ b'F' ∷ b'O' ∷ []

abbrev chain_start_info : Bytes
chain_start_info =
    spqr_protocol_info
    ++ (b'C' ∷ b'h' ∷ b'a' ∷ b'i' ∷ b'n' ∷ 32 ∷ b'S' ∷ b't' ∷ b'a' ∷ b'r' ∷ b't' ∷ [])

abbrev chain_add_info : Bytes
chain_add_info =
    spqr_protocol_info
    ++ (b'C' ∷ b'h' ∷ b'a' ∷ b'i' ∷ b'n' ∷ 32 ∷ b'A' ∷ b'd' ∷ b'd' ∷ 32 ∷ b'E' ∷ b'p' ∷ b'o' ∷ b'c'
        ∷ b'h' ∷ [])

abbrev message_keys_info : Bytes
message_keys_info =
    spqr_protocol_info
    ++ (b'M' ∷ b'e' ∷ b's' ∷ b's' ∷ b'a' ∷ b'g' ∷ b'e' ∷ 32 ∷ b'K' ∷ b'e' ∷ b'y' ∷ b's' ∷ [])

unfoldable pub split_triple : Bytes → Result (Bytes × Bytes × Bytes)
split_triple okm =
    if not (nat_eqb (length okm) 96)
    then err invalid_input
    else ok (take 32 okm, take 32 (drop 32 okm), take 32 (drop 64 okm))

module _ (p : Primitives) where
  open p use {hmac_sha256, hkdf_sha256}

  unfoldable pub derive_message_key : Bytes → Bytes
  derive_message_key chain_key = hmac_sha256 chain_key (1 ∷ [])

  -- the next chain key, and the message key
  unfoldable pub derive_next_chain_key : Bytes → Bytes × Bytes
  derive_next_chain_key chain_key = (hmac_sha256 chain_key (2 ∷ []), hmac_sha256 chain_key (1 ∷ []))

  -- new root key, new chain key, new next header key
  unfoldable pub derive_root_key_he : Bytes → Bytes → Bytes → Result (Bytes × Bytes × Bytes)
  derive_root_key_he rk dh_output info =
      if ltb (length rk) 32
      then err root_key_too_short
      else bind (hkdf_sha256 dh_output rk info 96)
          λ okm. ok (take 32 okm, take 32 (drop 32 okm), take 32 (drop 64 okm))

  -- `Hybrid`: the PQ key is the salt, the EC key the input.
  unfoldable pub hybrid : Bytes → Bytes → Bytes → Result Bytes
  hybrid pq_key ec_key info = hkdf_sha256 ec_key pq_key info 32

  unfoldable pub hkdf_expand : Bytes → Bytes → Bytes → ℕ → Result Bytes
  hkdf_expand salt ikm info n = hkdf_sha256 ikm salt info n

  unfoldable pub derive_initial_chains_spqr : Bytes → Result (Bytes × Bytes × Bytes)
  unfolding hkdf_expand split_triple
  derive_initial_chains_spqr sk =
      if ltb (length sk) 32
      then err invalid_input
      else bind (hkdf_expand (replicate 32 0) sk chain_start_info 96) split_triple

  unfoldable pub ratchet_root_key_spqr : Bytes → Bytes → Result (Bytes × Bytes × Bytes)
  unfolding hkdf_expand split_triple
  ratchet_root_key_spqr rk scka_output =
      if ltb (length rk) 32 || ltb (length scka_output) 32
      then err invalid_input
      else bind (hkdf_expand rk scka_output chain_add_info 96) split_triple

  -- the next chain key, and the message key of number `ctr`
  unfoldable pub ratchet_chain_key_spqr : Bytes → ℕ → Result (Bytes × Bytes)
  unfolding hkdf_expand
  ratchet_chain_key_spqr ck ctr =
      if ltb (length ck) 32
      then err invalid_input
      else bind (hkdf_expand (replicate 32 0) ck (message_keys_info ++ put_uint32 ctr) 64)
          λ okm. ok (take 32 okm, take 32 (drop 32 okm))
