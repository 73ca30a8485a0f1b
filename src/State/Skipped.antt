-- ===== src/State/Skipped.antt =====
-- internal/state/skipped.go: message keys of messages that have not arrived yet. The mutex has no
-- counterpart: a session calls the store from one goroutine.
pub mod Laws
pub mod Access
pub mod HeaderKeys
use go_doubleratchet.Base.{
  ℕ, ◌+◌, ◌≤◌, ◌≡◌, bytes_eq, Bool, true, false, List, [], ◌∷◌, ◌++◌, Option, none, some, Bytes,
  length, take, Result, ok, err, max_skip_too_large, ltb, leb, nat_eqb, if◌then◌else◌, map, drop,
  diverges, bind, Method,
}
use go_doubleratchet.Base.Words.{put_uint32, uint32}
use go_doubleratchet.Base.GoMap
use go_doubleratchet.Base.GoMap.{GoMap}

pub record SkippedKeyEntry : Type 0 where
  pub remote_ratchet_pk : Bytes
  pub message_number : ℕ
  pub message_key : Bytes

pub record Storage : Type 0 where
  pub entries : GoMap Bytes SkippedKeyEntry
  pub order : List Bytes
  pub max_skip : ℕ

-- `MaxSkipMax`
abbrev pub max_skip_max : ℕ
max_skip_max = 100000

unfoldable pub new_storage : ℕ → Result Storage
new_storage max_skip =
    if ltb max_skip_max max_skip
    then err max_skip_too_large
    else ok (record { entries = []; order = []; max_skip = max_skip })

-- `StorageKey`
unfoldable pub storage_key : Bytes → ℕ → Bytes
storage_key remote_pk message_number = take 32 remote_pk ++ put_uint32 message_number

-- The oldest entry goes. (`s.order[0]` of an empty order would panic; on a valid store the order is
-- not empty when it is full.)
unfoldable pub evict_oldest : Storage → List Bytes → Storage
evict_oldest s [] = s
evict_oldest s (evict_key ∷ rest) = record s {
  entries = GoMap.delete evict_key s.entries;
  order = rest;
}

-- `if uint32(len(s.entries)) >= s.maxSkip { … }`
unfoldable pub make_room : Storage → Storage
make_room s = if leb s.max_skip (length s.entries) then evict_oldest s s.order else s

unfoldable pub append_entry : Storage → Bytes → SkippedKeyEntry → Storage
append_entry s key entry = record s {
  entries = GoMap.insert key entry s.entries;
  order = s.order ++ (key ∷ []);
}

-- Its error result is always nil.
unfoldable pub store : Storage → Bytes → ℕ → Bytes → Storage
store s remote_pk message_number message_key =
    let key = storage_key remote_pk message_number in
    let entry : SkippedKeyEntry = record {
      remote_ratchet_pk = remote_pk;
      message_number = message_number;
      message_key = message_key;
    } in
    if nat_eqb s.max_skip 0 then s else elim (GoMap.lookup key s.entries) [
      | some _ ↦ s
      | none ↦ append_entry (make_room s) key entry
    ]

-- The entry is deleted, from the map and from the order.
unfoldable pub remove_entry : Bytes → Storage → Storage
remove_entry key s = record s {
  entries = GoMap.delete key s.entries;
  order = GoMap.remove_first key s.order;
}

-- `Get`: the key, if it is stored, and the store without it
unfoldable pub get_key : Storage → Bytes → ℕ → Option Bytes × Storage
unfolding remove_entry
get_key s remote_pk message_number =
    let key = storage_key remote_pk message_number in
    elim (GoMap.lookup key s.entries) [
      | none ↦ (none, s)
      | some entry ↦ (some entry.message_key, remove_entry key s)
    ]

-- A header that was found: long enough, and with the message number of the entry in its last bytes.
unfoldable pub is_header_of : SkippedKeyEntry → Option Bytes → Bool
is_header_of entry none = false
is_header_of entry (some header_bytes) =
    if ltb (length header_bytes) 40
    then false
    else nat_eqb (uint32 (drop 36 header_bytes)) entry.message_number

-- The loop of TryAllHeaderKeys over the entries, in the order in which it visits them.
unfoldable pub try_entries :
    (Bytes → Bytes → Result (Option Bytes))
    → Bytes
    → List (Bytes × SkippedKeyEntry)
    → Result (Option (Bytes × SkippedKeyEntry))
try_entries decrypt_func enc_header [] = ok none
try_entries decrypt_func enc_header ((key, entry) ∷ rest) =
    let later = try_entries decrypt_func enc_header rest in
    bind (decrypt_func entry.remote_ratchet_pk enc_header)
      λ found. if is_header_of entry found then ok (some (key, entry)) else later

-- The message key of the entry that was found, and the store without it.
unfoldable pub consume_entry :
    Result (Option (Bytes × SkippedKeyEntry)) → Method Storage (Option Bytes)
consume_entry (ok none) s = (ok none, s)
consume_entry (ok (some (key, entry))) s = (ok (some entry.message_key), remove_entry key s)
consume_entry (err e) s = (err e, s)
consume_entry diverges s = (diverges, s)

-- `TryAllHeaderKeys`. Go visits a map in no fixed order: `visit` is the order of this call.
unfoldable pub try_all_header_keys :
    (GoMap Bytes SkippedKeyEntry → List (Bytes × SkippedKeyEntry))
    → (Bytes → Bytes → Result (Option Bytes))
    → Bytes
    → Method Storage (Option Bytes)
try_all_header_keys visit decrypt_func enc_header s =
    consume_entry (try_entries decrypt_func enc_header (visit s.entries)) s

-- `Len`
abbrev pub len : Storage → ℕ
len s = length s.entries

unfoldable pub clear : Storage → Storage
clear s = record s { entries = []; order = [] }

-- `Clone` copies every entry and the order.
unfoldable pub copy_entry : Bytes × SkippedKeyEntry → Bytes × SkippedKeyEntry
copy_entry (k, v) = (
  k,
  record {
    remote_ratchet_pk = v.remote_ratchet_pk;
    message_number = v.message_number;
    message_key = v.message_key;
  },
)

unfoldable pub clone : Storage → Storage
clone s = record { entries = map copy_entry s.entries; order = s.order; max_skip = s.max_skip }
