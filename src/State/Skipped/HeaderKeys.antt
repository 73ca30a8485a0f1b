-- ===== src/State/Skipped/HeaderKeys.antt =====
-- TryAllHeaderKeys: what it finds, and that it finds whatever can be found.
use go_doubleratchet.Base.{
  ◌≡◌, refl, ap, sym, subst, All, eqb_refl, bytes_eq, false, true, List, [], ◌∷◌, Option, none,
  some, Bytes, Result, ok, err, diverges, bind-eq-ok, Bool-cases, inl, inr, arith,
}
use go_doubleratchet.Base.GoMap
use go_doubleratchet.Base.GoMap.{GoMap, Mem, IsRange, IsNodup, keys}
use go_doubleratchet.State.Skipped.{
  SkippedKeyEntry, Storage, is_header_of, try_entries, consume_entry, remove_entry,
  try_all_header_keys,
}
use go_doubleratchet.State.Skipped.Laws.{IsValid, remove_entry-IsValid}

abbrev Decrypt : Type 0
Decrypt = Bytes → Bytes → Result (Option Bytes)

-- The header key of an entry opens the header, and the header is that of the entry's message.
pub record Opens (decrypt_func : Decrypt) (enc_header : Bytes) (entry : SkippedKeyEntry)
    : Type 0 where
  pub header_bytes : Bytes
  pub opened : decrypt_func entry.remote_ratchet_pk enc_header ≡ ok (some header_bytes)
  pub matches : is_header_of entry (some header_bytes) ≡ true

-- The header key of an entry is no key of the header, or the header is that of another message.
pub record Passes (decrypt_func : Decrypt) (enc_header : Bytes) (entry : SkippedKeyEntry)
    : Type 0 where
  pub found : Option Bytes
  pub tried : decrypt_func entry.remote_ratchet_pk enc_header ≡ ok found
  pub differs : is_header_of entry found ≡ false

abbrev pair_of :
    Bytes × SkippedKeyEntry → Result (Option (Bytes × SkippedKeyEntry)) → Bytes × SkippedKeyEntry
pair_of d (ok (some x)) = x
pair_of d _ = d

found_pair : (x y : Bytes × SkippedKeyEntry) → ok (some x) ≡ ok (some y) → x ≡ y
found_pair x y h = ap (pair_of x) h

module _ (decrypt_func : Decrypt) (enc_header : Bytes) where
  matched :
      (entry : SkippedKeyEntry) (found : Option Bytes)
      → decrypt_func entry.remote_ratchet_pk enc_header ≡ ok found
      → is_header_of entry found ≡ true
      → Opens decrypt_func enc_header entry
  unfolding is_header_of
  matched entry none h m = absurd (ground arith)
  matched entry (some b) h m = record { header_bytes = b; opened = h; matches = m }

  -- What the loop stops at.
  try_entries-some :
      (xs : List (Bytes × SkippedKeyEntry)) (key : Bytes) (entry : SkippedKeyEntry)
      → try_entries decrypt_func enc_header xs ≡ ok (some (key, entry))
      → Mem (key, entry) xs × Opens decrypt_func enc_header entry
  unfolding try_entries
  try_entries-some [] key entry h = absurd (ground arith)
  try_entries-some ((k, e) ∷ rest) key entry h =
      let (found, tried, h1) = bind-eq-ok (decrypt_func e.remote_ratchet_pk enc_header) _ h in
      elim (Bool-cases (is_header_of e found)) [
        | inl hit ↦
            let same : (k, e) ≡ (key, entry) = found_pair (k, e) (key, entry) (rw hit at h1) in
            (
              inl (sym same),
              subst (Opens decrypt_func enc_header) (ap (λ (x : Bytes × SkippedKeyEntry). x.1) same)
                  (matched e found tried hit),
            )
        | inr miss ↦ let (m, o) = try_entries-some rest key entry (rw miss at h1) in (inr m, o)
      ]

  -- A loop that ends has tried every entry.
  try_entries-none :
      (xs : List (Bytes × SkippedKeyEntry))
      → try_entries decrypt_func enc_header xs ≡ ok none
      → (x : Bytes × SkippedKeyEntry) → Mem x xs
      → Passes decrypt_func enc_header x.1
  unfolding try_entries
  try_entries-none [] h x m = absurd m
  try_entries-none ((k, e) ∷ rest) h x m =
      let (found, tried, h1) = bind-eq-ok (decrypt_func e.remote_ratchet_pk enc_header) _ h in
      elim (Bool-cases (is_header_of e found)) [
        | inl hit ↦ absurd (ground (arith, h1, hit))
        | inr miss ↦ elim m [
          | inl here ↦
              subst (Passes decrypt_func enc_header)
                (sym (ap (λ (x : Bytes × SkippedKeyEntry). x.1) here))
                (record { found = found; tried = tried; differs = miss })
          | inr there ↦ try_entries-none rest (rw miss at h1) x there
        ]
      ]

All-Mem : {A : Type 0} {P : A → Type 0} (xs : List A) → ((x : A) → Mem x xs → P x) → All P xs
All-Mem [] h = tt
All-Mem (x ∷ xs) h = (h x (inl refl), All-Mem xs (λ y m. h y (inr m)))

-- What a call returns and leaves. A message key is that of an entry whose header key opens the
-- header, and the entry is gone; without one, no entry's header key opens the header as that of its
-- message, and the store is as before.
abbrev pub Finds : Decrypt → Bytes → Storage → Result (Option Bytes) × Storage → Type 0
Finds decrypt_func enc_header s (ok (some mk), s') =
    (key : Bytes) × (entry : SkippedKeyEntry) × (GoMap.lookup key s.entries ≡ some entry)
    × (entry.message_key ≡ mk)
    × Opens decrypt_func enc_header entry
    × (s' ≡ remove_entry key s)
    × (GoMap.lookup key s'.entries ≡ none)
Finds decrypt_func enc_header s (ok none, s') =
    All (λ x. Passes decrypt_func enc_header x.1) s.entries × (s' ≡ s)
Finds decrypt_func enc_header s (err e, s') = s' ≡ s
Finds decrypt_func enc_header s (diverges, s') = s' ≡ s

consume_entry-Finds :
    (visit : GoMap Bytes SkippedKeyEntry → List (Bytes × SkippedKeyEntry)) (decrypt_func : Decrypt)
    (enc_header : Bytes) (s : Storage) (r : Result (Option (Bytes × SkippedKeyEntry)))
    → IsRange visit
    → IsValid s
    → try_entries decrypt_func enc_header (visit s.entries) ≡ r
    → Finds decrypt_func enc_header s (consume_entry r s)
unfolding consume_entry remove_entry
consume_entry-Finds visit decrypt_func enc_header s (ok none) range v h = (
  All-Mem s.entries (λ x m.
      try_entries-none decrypt_func enc_header (visit s.entries) h x ((range s.entries x).1 m)),
  refl,
)
consume_entry-Finds visit decrypt_func enc_header s (ok (some (key, entry))) range v h =
    let (m, opened) = try_entries-some decrypt_func enc_header (visit s.entries) key entry h in
    let d : IsNodup (keys s.entries) = rw v.synced v.distinct in
    (
      key,
      entry,
      GoMap.lookup_of_mem key entry s.entries d ((range s.entries (key, entry)).0 m),
      refl,
      opened,
      refl,
      ground (arith, GoMap.lookup-delete key key s.entries, eqb_refl key),
    )
consume_entry-Finds visit decrypt_func enc_header s (err e) range v h = refl
consume_entry-Finds visit decrypt_func enc_header s diverges range v h = refl

-- In a well-formed store, and for a map that is visited once through, TryAllHeaderKeys returns the
-- message key of an entry whose header key opens the header as that of its message, and removes that
-- entry; or it finds none, every entry fails this, and the store is as before, as it is when the call
-- comes to no result.
pub try_all_header_keys_lem :
    (visit : GoMap Bytes SkippedKeyEntry → List (Bytes × SkippedKeyEntry)) (decrypt_func : Decrypt)
    (enc_header : Bytes) (s : Storage)
    → IsRange visit
    → IsValid s
    → Finds decrypt_func enc_header s (try_all_header_keys visit decrypt_func enc_header s)
unfolding try_all_header_keys
try_all_header_keys_lem visit decrypt_func enc_header s range v =
    consume_entry-Finds visit decrypt_func enc_header s _ range v refl

Finds-IsValid :
    (decrypt_func : Decrypt) (enc_header : Bytes) (s : Storage)
    (r : Result (Option Bytes) × Storage)
    → IsValid s
    → Finds decrypt_func enc_header s r
    → IsValid r.1 × (r.1.max_skip ≡ s.max_skip)
Finds-IsValid decrypt_func enc_header s (ok (some mk), s') v (key, entry, e, _, _, same, _) =
    rw same (remove_entry-IsValid s key entry e v)
Finds-IsValid decrypt_func enc_header s (ok none, s') v (_, same) = rw same (v, refl)
Finds-IsValid decrypt_func enc_header s (err e, s') v same = rw same (v, refl)
Finds-IsValid decrypt_func enc_header s (diverges, s') v same = rw same (v, refl)

-- TryAllHeaderKeys keeps the store well formed, with its capacity.
pub try_all_header_keys-IsValid :
    (visit : GoMap Bytes SkippedKeyEntry → List (Bytes × SkippedKeyEntry)) (decrypt_func : Decrypt)
    (enc_header : Bytes) (s : Storage)
    → IsRange visit
    → IsValid s
    → IsValid (try_all_header_keys visit decrypt_func enc_header s).1
      × ((try_all_header_keys visit decrypt_func enc_header s).1.max_skip ≡ s.max_skip)
try_all_header_keys-IsValid visit decrypt_func enc_header s range v =
    Finds-IsValid decrypt_func enc_header s _ v
      (try_all_header_keys_lem visit decrypt_func enc_header s range v)
