-- ===== src/Config.antt =====
-- config.go: the session's options, their validation and their defaults.
pub mod Laws
use go_doubleratchet.Base.{
  ℕ, Bool, true, false, ◌&&◌, ◌||◌, not, List, [], ◌∷◌, ◌++◌, Option, none, some, Bytes, length,
  take, replicate, Result, ok, err, config_nil, config_max_skip_too_large,
  config_identity_keys_incomplete, ltb, nat_eqb, bytes_eqb, if◌then◌else◌, ◌≡◌,
}

abbrev pub default_max_skip : ℕ
default_max_skip = 1000

-- state.MaxSkipMax
abbrev pub max_skip_max : ℕ
max_skip_max = 100000

-- `[32]byte{}`
unfoldable pub zero_key : Bytes
zero_key = replicate 32 0

pub record Config : Type 0 where
  pub kdf_info : Bytes
  pub hekdf_info : Bytes
  pub encrypt_info : Bytes
  pub hybrid_info : Bytes
  pub max_skip : ℕ
  pub local_identity_key : Bytes
  pub remote_identity_key : Bytes

-- `&Config{MaxSkip: DefaultMaxSkip}`, which the constructors use for a nil configuration
abbrev pub default_config : Config
default_config = record {
  kdf_info = [];
  hekdf_info = [];
  encrypt_info = [];
  hybrid_info = [];
  max_skip = default_max_skip;
  local_identity_key = zero_key;
  remote_identity_key = zero_key;
}

unfoldable pub validate_config : Config → Result (Unit {0})
validate_config c =
    let local_set = not (bytes_eqb c.local_identity_key zero_key) in
    let remote_set = not (bytes_eqb c.remote_identity_key zero_key) in
    if ltb max_skip_max c.max_skip
    then err config_max_skip_too_large
    else (if (local_set && not remote_set) || (not local_set && remote_set)
        then err config_identity_keys_incomplete
        else ok tt)

-- `Config.Validate`; `none` is the nil pointer.
unfoldable pub validate : Option Config → Result (Unit {0})
unfolding validate_config
validate none = err config_nil
validate (some c) = validate_config c

unfoldable pub effective_max_skip : Option Config → ℕ
effective_max_skip none = default_max_skip
effective_max_skip (some c) = if nat_eqb c.max_skip 0 then default_max_skip else c.max_skip

unfoldable pub identity_prefix : Config → Bool → Bytes
identity_prefix c sending =
    let local = take 32 c.local_identity_key in
    let remote = take 32 c.remote_identity_key in
    if bytes_eqb c.local_identity_key zero_key && bytes_eqb c.remote_identity_key zero_key
    then []
    else (if sending then local ++ remote else remote ++ local)

-- `Config.identityADPrefix`; a nil slice is the empty one.
unfoldable pub identity_ad_prefix : Option Config → Bool → Bytes
unfolding identity_prefix
identity_ad_prefix none sending = []
identity_ad_prefix (some c) sending = identity_prefix c sending

-- The option if it is not empty, and else the default.
unfoldable pub info_or : Bytes → Bytes → Bytes
info_or [] default_info = default_info
info_or (x ∷ xs) default_info = x ∷ xs

unfoldable pub effective_kdf_info : Config → Bytes
unfolding info_or
effective_kdf_info c = info_or c.kdf_info (
    b'W' ∷ b'h' ∷ b'i' ∷ b's' ∷ b'p' ∷ b'e' ∷ b'r' ∷ b'R' ∷ b'a' ∷ b't' ∷ b'c' ∷ b'h' ∷ b'e' ∷ b't'
    ∷ [])

unfoldable pub effective_hekdf_info : Config → Bytes
unfolding info_or
effective_hekdf_info c = info_or c.hekdf_info (
    b'D' ∷ b'o' ∷ b'u' ∷ b'b' ∷ b'l' ∷ b'e' ∷ b'R' ∷ b'a' ∷ b't' ∷ b'c' ∷ b'h' ∷ b'e' ∷ b't' ∷ b'H'
    ∷ b'E' ∷ [])

unfoldable pub effective_encrypt_info : Config → Bytes
unfolding info_or
effective_encrypt_info c = info_or c.encrypt_info (
    b'W' ∷ b'h' ∷ b'i' ∷ b's' ∷ b'p' ∷ b'e' ∷ b'r' ∷ b'M' ∷ b'e' ∷ b's' ∷ b's' ∷ b'a' ∷ b'g' ∷ b'e'
    ∷ b'K' ∷ b'e' ∷ b'y' ∷ b's' ∷ [])

unfoldable pub effective_hybrid_info : Config → Bytes
unfolding info_or
effective_hybrid_info c = info_or c.hybrid_info (
    b'D' ∷ b'o' ∷ b'u' ∷ b'b' ∷ b'l' ∷ b'e' ∷ b'R' ∷ b'a' ∷ b't' ∷ b'c' ∷ b'h' ∷ b'e' ∷ b't' ∷ b'H'
    ∷ b'y' ∷ b'b' ∷ b'r' ∷ b'i' ∷ b'd' ∷ [])
