-- ===== src/State/Skipped/Access.antt =====
-- What the store of skipped keys returns: Get after Store, one use of each key, and eviction.
use native.Mathlib.Decide.{dec_lt}
use go_doubleratchet.Base.{
  ℕ, ◌<◌, ◌≡◌, ◌≢◌, refl, ap, sym, ◌∙◌, bytes_eq, false, List, [], ◌∷◌, ◌++◌, Option, none, some,
  Bytes, length, take, drop, leb, leb→le, arith, Bool-cases, Option-cases, bytes_eqb, bytes_eqb_iff,
  bytes_eqb_refl, inl, inr, append-nil, take-append, drop-append, take-all,
}
use go_doubleratchet.Base.Words.{u32_mod, put_uint32, uint32, uint32-put_uint32}
use go_doubleratchet.Base.GoMap
use go_doubleratchet.State.Skipped.{
  SkippedKeyEntry, Storage, storage_key, evict_oldest, make_room, append_entry, store, get_key,
}
use go_doubleratchet.State.Skipped.Laws.{entry_of, store_new, store_old, store_off}

abbrev key_of : Option SkippedKeyEntry → Option Bytes
key_of none = none
key_of (some e) = some e.message_key

-- The message key that is stored for a ratchet key and a number.
unfoldable pub stored : Storage → Bytes → ℕ → Option Bytes
stored s pk n = key_of (GoMap.lookup (storage_key pk n) s.entries)

-- Two 32-byte ratchet keys and two uint32 numbers have the same storage key only if they are equal.
pub storage_key_injective :
    (pk pk' : Bytes) (n n' : ℕ)
    → length pk ≡ 32
    → length pk' ≡ 32
    → n < u32_mod
    → n' < u32_mod
    → storage_key pk n ≡ storage_key pk' n'
    → (pk ≡ pk') × (n ≡ n')
unfolding storage_key
storage_key_injective pk pk' n n' l l' f f' e =
    let front : (pk : Bytes) (n : ℕ) → length pk ≡ 32 → take 32 (take 32 pk ++ put_uint32 n) ≡ pk =
      λ pk n l. rw (take-all 32 pk l) (take-append 32 pk (put_uint32 n) l) in
    let back : (pk : Bytes) (n : ℕ)
        → length pk ≡ 32
        → n < u32_mod
        → uint32 (drop 32 (take 32 pk ++ put_uint32 n)) ≡ n =
      λ pk n l f.
        rw (take-all 32 pk l, drop-append 32 pk (put_uint32 n) l)
          (rw append-nil at (uint32-put_uint32 n [] f)) in
    (
      sym (front pk n l) ∙ ap (take 32) e ∙ front pk' n' l',
      sym (back pk n l f) ∙ ap (λ (k : Bytes). uint32 (drop 32 k)) e ∙ back pk' n' l' f',
    )

-- Get returns what is stored and takes it out: no second Get finds it.
pub get_key_lem :
    (s : Storage) (pk : Bytes) (n : ℕ)
    → ((get_key s pk n).0 ≡ stored s pk n) × (stored (get_key s pk n).1 pk n ≡ none)
unfolding get_key stored
get_key_lem s pk n =
    let key = storage_key pk n in
    (ground arith, ground (arith, GoMap.lookup-delete key key s.entries, bytes_eqb_refl key))

-- Get leaves every other key stored.
pub stored-get_key_ne :
    (s : Storage) (pk pk' : Bytes) (n n' : ℕ)
    → storage_key pk n ≢ storage_key pk' n'
    → stored (get_key s pk n).1 pk' n' ≡ stored s pk' n'
unfolding get_key stored
stored-get_key_ne s pk pk' n n' ne =
    let key = storage_key pk n in
    ground (
      arith,
      GoMap.lookup-delete (storage_key pk' n') key s.entries,
      bytes_eqb_iff key (storage_key pk' n'),
    )

-- In a store for at least one key, Store makes the key available, unless one is stored for its ratchet key and number already: that
-- one is kept.
pub stored-store_self :
    (s : Storage) (pk : Bytes) (n : ℕ) (mk : Bytes)
    → 0 < s.max_skip
    → stored (store s pk n mk) pk n ≡ elim (stored s pk n) [ none ↦ some mk | some old ↦ some old ]
unfolding stored
stored-store_self s pk n mk on =
    let key = storage_key pk n in
    elim (Option-cases (GoMap.lookup key s.entries)) [
      | inr (old, e) ↦ rw (store_old s pk n mk old e, e) refl
      | inl e ↦
          unfold append_entry in
          rw
            (
              store_new s pk n mk on e,
              e,
              GoMap.lookup-insert key key (entry_of pk n mk) (make_room s).entries,
              bytes_eqb_refl key,
            )
            refl
    ]

evict_oldest-lookup :
    (s : Storage) (ks : List Bytes) (key : Bytes)
    → ((oldest : Bytes) (rest : List Bytes) → ks ≡ oldest ∷ rest → oldest ≢ key)
    → GoMap.lookup key (evict_oldest s ks).entries ≡ GoMap.lookup key s.entries
unfolding evict_oldest
evict_oldest-lookup s [] key other = refl
evict_oldest-lookup s (k ∷ rest) key other =
    ground (arith, GoMap.lookup-delete key k s.entries, bytes_eqb_iff k key, other k rest refl)

-- The entries that survive when room is made: all of them, but for the oldest of a full store.
make_room-lookup :
    (s : Storage) (key : Bytes)
    → ((oldest : Bytes) (rest : List Bytes)
        → s.order ≡ oldest ∷ rest
        → oldest ≡ key
        → length s.entries < s.max_skip)
    → GoMap.lookup key (make_room s).entries ≡ GoMap.lookup key s.entries
unfolding make_room
make_room-lookup s key kept = elim (Bool-cases (leb s.max_skip (length s.entries))) [
  | inr room ↦ rw room refl
  | inl full ↦ rw full (
      evict_oldest-lookup s s.order key
        (λ oldest rest e same. absurd (omega (arith, kept oldest rest e same, leb→le _ _ full))))
]

-- Store leaves every other key as it was, except the oldest one of a full store.
pub stored-store_ne :
    (s : Storage) (pk pk' : Bytes) (n n' : ℕ) (mk : Bytes)
    → storage_key pk n ≢ storage_key pk' n'
    → ((oldest : Bytes) (rest : List Bytes)
        → s.order ≡ oldest ∷ rest
        → oldest ≡ storage_key pk' n'
        → length s.entries < s.max_skip)
    → stored (store s pk n mk) pk' n' ≡ stored s pk' n'
unfolding stored
stored-store_ne s pk pk' n n' mk ne kept =
    let key = storage_key pk n in
    let key' = storage_key pk' n' in
    elim (dec_lt 0 s.max_skip) [
      | no off ↦ rw (store_off s pk n mk (omega arith)) refl
      | yes on ↦ elim (Option-cases (GoMap.lookup key s.entries)) [
        | inr (old, e) ↦ rw (store_old s pk n mk old e) refl
        | inl e ↦
            let other : bytes_eqb key key' ≡ false = ground (arith, bytes_eqb_iff key key') in
            unfold append_entry in
            rw
              (
                store_new s pk n mk on e,
                GoMap.lookup-insert key' key (entry_of pk n mk) (make_room s).entries,
                other,
                make_room-lookup s key' kept,
              )
              refl
      ]
    ]

-- Get of a key that is not stored leaves the store as it is.
pub get_key_missing :
    (s : Storage) (pk : Bytes) (n : ℕ) → stored s pk n ≡ none → get_key s pk n ≡ (none, s)
unfolding get_key stored
get_key_missing s pk n h = ground arith
