-- ===== src/State/Skipped/Laws.antt =====
-- The store of skipped keys: its invariant, its bound, and what Store and Get do to it.
use native.Mathlib.Decide.{dec_lt}
use go_doubleratchet.Base.{
  ℕ, ◌+◌, ◌≤◌, ◌<◌, ◌≡◌, refl, ap, bytes_eq, true, false, List, [], ◌∷◌, ◌++◌, none, some, Bytes,
  length, ok, leb, arith, map-id_of, Bool-cases, Option-cases, bytes_eqb_refl, length-append, inl,
  inr, ◌∙◌, ◌⊎◌, leb→le, map-append,
}
use go_doubleratchet.Base.GoMap
use go_doubleratchet.Base.GoMap.{GoMap, IsNodup, keys, elem}
use go_doubleratchet.State.Skipped.{
  remove_entry, SkippedKeyEntry, Storage, new_storage, storage_key, evict_oldest, make_room,
  append_entry, store, get_key, copy_entry, clone, clear,
}

-- The order lists the keys of the entries, none twice, and there are at most `max_skip` of them.
pub record IsValid (s : Storage) : Type 0 where
  pub synced : keys s.entries ≡ s.order
  pub distinct : IsNodup s.order
  pub bounded : length s.entries ≤ s.max_skip

pub new_storage-IsValid :
    (max_skip : ℕ) {s : Storage}
    → new_storage max_skip ≡ ok s
    → IsValid s × (s.max_skip ≡ max_skip) × (s.entries ≡ [])
unfolding new_storage
new_storage-IsValid max_skip h = ground arith

length-entries : (s : Storage) → IsValid s → length s.order ≡ length s.entries
length-entries s v = rw (← v.synced) (GoMap.length-keys s.entries)

delete-oldest :
    (s : Storage) (k : Bytes) (rest : List Bytes)
    → s.order ≡ k ∷ rest
    → IsValid s
    → keys (GoMap.delete k s.entries) ≡ rest
unfolding GoMap.remove_first
delete-oldest s k rest e v =
    let all : keys s.entries ≡ k ∷ rest = v.synced ∙ e in
    rw (GoMap.keys-delete k s.entries (rw v.synced v.distinct), all, bytes_eqb_refl k) refl

-- Evicting the oldest of at least one entry.
evict_oldest_lem :
    (s : Storage) (k : Bytes) (rest : List Bytes)
    → s.order ≡ k ∷ rest
    → IsValid s
    → let s' = evict_oldest s (k ∷ rest) in IsValid s' × (length s'.entries + 1 ≡ length s.entries)
unfolding evict_oldest
evict_oldest_lem s k rest e v =
    let gone : keys (GoMap.delete k s.entries) ≡ rest = delete-oldest s k rest e v in
    let d : IsNodup (k ∷ rest) = rw e at v.distinct in
    let l : length (GoMap.delete k s.entries) + 1 ≡ length s.entries = omega (
      arith,
      GoMap.length-keys (GoMap.delete k s.entries),
      GoMap.length-keys s.entries,
      ap length gone,
      ap length (v.synced ∙ e),
    ) in
    (record { synced = gone; distinct = d.1; bounded = omega arith }, l)

order-cases : (xs : List Bytes) → (xs ≡ []) ⊎ ((k : Bytes) × (rest : List Bytes) × (xs ≡ k ∷ rest))
order-cases [] = inl refl
order-cases (k ∷ rest) = inr (k, rest, refl)

evict_oldest-max_skip : (s : Storage) (ks : List Bytes) → (evict_oldest s ks).max_skip ≡ s.max_skip
unfolding evict_oldest
evict_oldest-max_skip s [] = refl
evict_oldest-max_skip s (k ∷ rest) = refl

evict_oldest-lookup_missing :
    (s : Storage) (ks : List Bytes) (key : Bytes)
    → GoMap.lookup key s.entries ≡ none
    → GoMap.lookup key (evict_oldest s ks).entries ≡ none
unfolding evict_oldest
evict_oldest-lookup_missing s [] key h = h
evict_oldest-lookup_missing s (k ∷ rest) key h =
    rw (GoMap.lookup-delete key k s.entries, h) (ground arith)

-- After room is made, one more entry fits. Nothing but the oldest entry goes, and only from a full
-- store.
pub make_room_lem :
    (s : Storage)
    → IsValid s
    → 0 < s.max_skip
    → IsValid (make_room s)
      × (length (make_room s).entries < s.max_skip)
      × ((make_room s).max_skip ≡ s.max_skip)
unfolding make_room evict_oldest
make_room_lem s v pos = elim (Bool-cases (leb s.max_skip (length s.entries))) [
  | inr room ↦ rw room (v, ground arith, refl)
  | inl full ↦ rw full (elim (order-cases s.order) [
    | inl none_left ↦
        absurd (omega (arith, length-entries s v, ap length none_left, leb→le _ _ full))
    | inr (k, rest, e) ↦
        let (v', less) = evict_oldest_lem s k rest e v in
        rw e (v', omega (arith, v.bounded), evict_oldest-max_skip s (k ∷ rest))
  ])
]

length-make_room-le : (s : Storage) → IsValid s → length (make_room s).entries ≤ length s.entries
unfolding make_room
length-make_room-le s v = elim (Bool-cases (leb s.max_skip (length s.entries))) [
  | inr room ↦ rw room (omega arith)
  | inl full ↦ rw full (elim (order-cases s.order) [
    | inl none_left ↦ unfold evict_oldest in (rw none_left (omega arith))
    | inr (k, rest, e) ↦
        unfold evict_oldest in (rw e (omega (arith, evict_oldest_lem s k rest e v)))
  ])
]

pub make_room-lookup_missing :
    (s : Storage) (key : Bytes)
    → GoMap.lookup key s.entries ≡ none
    → GoMap.lookup key (make_room s).entries ≡ none
unfolding make_room
make_room-lookup_missing s key h = elim (Bool-cases (leb s.max_skip (length s.entries))) [
  | inr room ↦ rw room h
  | inl full ↦ rw full (evict_oldest-lookup_missing s s.order key h)
]

append_entry-IsValid :
    (s : Storage) (key : Bytes) (entry : SkippedKeyEntry)
    → IsValid s
    → GoMap.lookup key s.entries ≡ none
    → length s.entries < s.max_skip
    → IsValid (append_entry s key entry)
unfolding append_entry
append_entry-IsValid s key entry v h room =
    let new : elem key (keys s.entries) ≡ false = GoMap.not_elem_of_lookup key s.entries h in
    let d : IsNodup (keys s.entries) = rw v.synced v.distinct in
    let all : GoMap.insert key entry s.entries ≡ s.entries ++ ((key, entry) ∷ []) =
      GoMap.keys-insert_new key entry s.entries new in
    record {
      synced = rw (all, map-append, v.synced) refl;
      distinct = GoMap.append-IsNodup key s.order v.distinct (rw v.synced at new);
      bounded = rw all (omega (arith, length-append s.entries ((key, entry) ∷ [])));
    }

abbrev pub entry_of : Bytes → ℕ → Bytes → SkippedKeyEntry
entry_of pk n mk = record { remote_ratchet_pk = pk; message_number = n; message_key = mk }

pub store_new :
    (s : Storage) (pk : Bytes) (n : ℕ) (mk : Bytes)
    → 0 < s.max_skip
    → GoMap.lookup (storage_key pk n) s.entries ≡ none
    → store s pk n mk ≡ append_entry (make_room s) (storage_key pk n) (entry_of pk n mk)
unfolding store
store_new s pk n mk pos h = ground arith

pub store_old :
    (s : Storage) (pk : Bytes) (n : ℕ) (mk : Bytes) (old : SkippedKeyEntry)
    → GoMap.lookup (storage_key pk n) s.entries ≡ some old
    → store s pk n mk ≡ s
unfolding store
store_old s pk n mk old h = ground arith

pub store_off :
    (s : Storage) (pk : Bytes) (n : ℕ) (mk : Bytes) → s.max_skip ≡ 0 → store s pk n mk ≡ s
unfolding store
store_off s pk n mk h = ground arith

length-append_entry :
    (s : Storage) (key : Bytes) (entry : SkippedKeyEntry)
    → IsValid s
    → GoMap.lookup key s.entries ≡ none
    → length (append_entry (make_room s) key entry).entries ≤ length s.entries + 1
unfolding append_entry
length-append_entry s key entry v h =
    let m = make_room s in
    let new : elem key (keys m.entries) ≡ false =
      GoMap.not_elem_of_lookup key m.entries (make_room-lookup_missing s key h) in
    rw (GoMap.keys-insert_new key entry m.entries new)
      (omega (arith, length-append m.entries ((key, entry) ∷ []), length-make_room-le s v))

-- Store keeps the store well formed: whatever the number of keys that are stored, there are at most
-- `max_skip`.
pub store-IsValid :
    (s : Storage) (pk : Bytes) (n : ℕ) (mk : Bytes)
    → IsValid s
    → IsValid (store s pk n mk) × ((store s pk n mk).max_skip ≡ s.max_skip)
store-IsValid s pk n mk v = elim (dec_lt 0 s.max_skip) [
  | no off ↦ rw (store_off s pk n mk (omega arith)) (v, refl)
  | yes on ↦ elim (Option-cases (GoMap.lookup (storage_key pk n) s.entries)) [
    | inr (old, e) ↦ rw (store_old s pk n mk old e) (v, refl)
    | inl e ↦
        let (v', room, same) = make_room_lem s v on in
        let key = storage_key pk n in
        rw (store_new s pk n mk on e) (
          append_entry-IsValid (make_room s) key (entry_of pk n mk) v'
              (make_room-lookup_missing s key e) (omega arith),
          unfold append_entry in same,
        )
  ]
]

-- A store without one of its entries.
pub remove_entry-IsValid :
    (s : Storage) (key : Bytes) (entry : SkippedKeyEntry)
    → GoMap.lookup key s.entries ≡ some entry
    → IsValid s
    → IsValid (remove_entry key s) × ((remove_entry key s).max_skip ≡ s.max_skip)
unfolding remove_entry
remove_entry-IsValid s key entry e v =
    let d : IsNodup (keys s.entries) = rw v.synced v.distinct in
    let cut : keys (GoMap.delete key s.entries) ≡ GoMap.remove_first key s.order =
      GoMap.keys-delete key s.entries d ∙ ap (GoMap.remove_first key) v.synced in
    let found : elem key s.order ≡ true =
      rw v.synced at (GoMap.elem_of_lookup key s.entries entry e) in
    (
      record {
        synced = cut;
        distinct = GoMap.remove_first-IsNodup key s.order v.distinct;
        bounded = omega (
          arith,
          GoMap.length-remove_first key s.order found,
          length-entries s v,
          ap length cut,
          GoMap.length-keys (GoMap.delete key s.entries),
        );
      },
      refl,
    )

-- Get keeps the store well formed, with its capacity.
pub get_key-IsValid :
    (s : Storage) (pk : Bytes) (n : ℕ)
    → IsValid s
    → IsValid (get_key s pk n).1 × ((get_key s pk n).1.max_skip ≡ s.max_skip)
get_key-IsValid s pk n v = elim (Option-cases (GoMap.lookup (storage_key pk n) s.entries)) [
  | inl e ↦ unfold get_key in (rw (e, get_key) (v, refl))
  | inr (entry, e) ↦
      unfold get_key in (rw (e, get_key) (remove_entry-IsValid s (storage_key pk n) entry e v))
]

-- A copy of the store is equal to it.
pub clone_lem : (s : Storage) → clone s ≡ s
unfolding clone copy_entry
clone_lem s = rw (map-id_of copy_entry (λ e. refl) s.entries) refl

pub clear-IsValid : (s : Storage) → IsValid (clear s) × ((clear s).max_skip ≡ s.max_skip)
unfolding clear
clear-IsValid s = (record { synced = refl; distinct = tt; bounded = omega arith }, refl)

-- Store adds at most one entry.
pub length-store-le :
    (s : Storage) (pk : Bytes) (n : ℕ) (mk : Bytes)
    → IsValid s
    → length (store s pk n mk).entries ≤ length s.entries + 1
length-store-le s pk n mk v = elim (dec_lt 0 s.max_skip) [
  | no off ↦ rw (store_off s pk n mk (omega arith)) (omega arith)
  | yes on ↦ elim (Option-cases (GoMap.lookup (storage_key pk n) s.entries)) [
    | inr (old, e) ↦ rw (store_old s pk n mk old e) (omega arith)
    | inl e ↦
        rw (store_new s pk n mk on e)
          (length-append_entry s (storage_key pk n) (entry_of pk n mk) v e)
  ]
]
