-- ===== src/Base/GoMap.antt =====
-- Go maps as association lists: every key at most once, a new key behind the others.
use Prim.Native.Nat.{suc, ◌+◌}
use mathlib.Core.Path.{◌≡◌, refl, ap}
use mathlib.Core.Logic.{◌⊎◌, inl, inr}
use mathlib.Core.Bool.{Bool, true, false, ◌||◌}
use mathlib.Core.Option.{Option, none, some}
use mathlib.Core.List.{List, [], ◌∷◌, ◌++◌, map}
use native.Mathlib.Omega.{arith}
use go_doubleratchet.Base.Tests.{Eq, ◌==◌, if◌then◌else◌, eqb_refl, Bool-cases}
use go_doubleratchet.Base.Lists.{length}

abbrev pub GoMap {ℓ κ} : Type ℓ → Type κ → Type (ℓ ⊔ κ)
GoMap K V = List (K × V)

-- The pairs that a loop over a map visits.
abbrev pub Mem : {A : Type 0} → A → List A → Type 0
Mem a [] = ⊥
Mem a (x ∷ xs) = (a ≡ x) ⊎ Mem a xs

-- `range` over a map that the loop does not change: the entries of the map, each of them, and nothing
-- else, in any order.
abbrev pub IsRange : {K V : Type 0} → (GoMap K V → List (K × V)) → Type 0
IsRange {K = K} {V = V} visit =
    (m : GoMap K V) (x : K × V) → (Mem x (visit m) → Mem x m) × (Mem x m → Mem x (visit m))

module _ {ℓ} {K : Type ℓ} ⦃e : Eq K⦄ where
  unfoldable pub elem : K → List K → Bool
  elem k [] = false
  elem k (x ∷ xs) = x == k || elem k xs

  -- No key twice.
  abbrev pub IsNodup : List K → Type 0
  IsNodup [] = Unit
  IsNodup (x ∷ xs) = (elem x xs ≡ false) × IsNodup xs

  -- The loop that looks for a key in a slice and cuts it out: only the first one goes.
  unfoldable pub remove_first : K → List K → List K
  remove_first k [] = []
  remove_first k (x ∷ xs) = if x == k then xs else x ∷ remove_first k xs

  pub elem-append : (k : K) (xs ys : List K) → elem k (xs ++ ys) ≡ elem k xs || elem k ys
  unfolding elem
  elem-append k [] ys = refl
  elem-append k (x ∷ xs) ys = ground (arith, elem-append k xs ys)

  pub append-IsNodup :
      (k : K) (xs : List K) → IsNodup xs → elem k xs ≡ false → IsNodup (xs ++ (k ∷ []))
  unfolding elem
  append-IsNodup k [] h n = ground arith
  append-IsNodup k (x ∷ xs) h n = ground (
    arith,
    append-IsNodup k xs h.1,
    elem-append x xs (k ∷ []),
    e.eqb_iff x k,
    e.eqb_iff k x,
    eqb_refl k,
    eqb_refl x,
  )

  pub elem-remove_first :
      (j k : K) (xs : List K)
      → IsNodup xs
      → elem j (remove_first k xs) ≡ (if k == j then false else elem j xs)
  unfolding elem remove_first
  elem-remove_first j k [] h = ground arith
  elem-remove_first j k (x ∷ xs) h =
      ground (
        arith,
        elem-remove_first j k xs h.1,
        e.eqb_iff x k,
        e.eqb_iff k j,
        e.eqb_iff x j,
        eqb_refl j,
      )

  pub remove_first-IsNodup : (k : K) (xs : List K) → IsNodup xs → IsNodup (remove_first k xs)
  unfolding elem remove_first
  remove_first-IsNodup k [] h = tt
  remove_first-IsNodup k (x ∷ xs) h = elim (Bool-cases (x == k)) [
    | inl same ↦ rw same h.1
    | inr other ↦
        rw other (rw (elem-remove_first x k xs h.1) (ground arith), remove_first-IsNodup k xs h.1)
  ]

  pub length-remove_first :
      (k : K) (xs : List K) → elem k xs ≡ true → length (remove_first k xs) + 1 ≡ length xs
  unfolding elem remove_first
  length-remove_first k [] h = ground arith
  length-remove_first k (x ∷ xs) h = ground (arith, length-remove_first k xs)

module _ {ℓ κ} {K : Type ℓ} {V : Type κ} where
  abbrev pub keys : GoMap K V → List K
  keys = map (λ e. e.0)

module _ {ℓ κ} {K : Type ℓ} {V : Type κ} ⦃e : Eq K⦄ where
  -- `v, ok := m[k]`
  unfoldable pub lookup : K → GoMap K V → Option V
  lookup k [] = none
  lookup k ((j, v) ∷ m) = if j == k then some v else lookup k m

  -- `m[k] = v`
  unfoldable pub insert : K → V → GoMap K V → GoMap K V
  insert k v [] = (k, v) ∷ []
  insert k v ((j, w) ∷ m) = if j == k then (k, v) ∷ m else (j, w) ∷ insert k v m

  -- `delete(m, k)`
  unfoldable pub delete : K → GoMap K V → GoMap K V
  delete k [] = []
  delete k ((j, w) ∷ m) = let rest = delete k m in if j == k then rest else (j, w) ∷ rest

  pub lookup-insert :
      (j k : K) (v : V) (m : GoMap K V)
      → lookup j (insert k v m) ≡ (if k == j then some v else lookup j m)
  unfolding lookup insert
  lookup-insert j k v [] = refl
  lookup-insert j k v ((i, w) ∷ m) =
      ground (arith, lookup-insert j k v m, e.eqb_iff i k, e.eqb_iff i j, e.eqb_iff k j)

  pub lookup-delete :
      (j k : K) (m : GoMap K V) → lookup j (delete k m) ≡ (if k == j then none else lookup j m)
  unfolding lookup delete
  lookup-delete j k [] = ground arith
  lookup-delete j k ((i, w) ∷ m) =
      ground (arith, lookup-delete j k m, e.eqb_iff i k, e.eqb_iff i j, e.eqb_iff k j)

  -- A key is found exactly when it is among the keys.
  pub lookup_of_elem :
      (k : K) (m : GoMap K V) → elem k (keys m) ≡ true → (v : V) × (lookup k m ≡ some v)
  unfolding lookup elem
  lookup_of_elem k [] h = absurd (ground arith)
  lookup_of_elem k ((j, w) ∷ m) h = elim (Bool-cases (j == k)) [
    | inl same ↦ (w, rw same)
    | inr other ↦ rw other (lookup_of_elem k m (rw other at h))
  ]

  pub lookup_of_not_elem : (k : K) (m : GoMap K V) → elem k (keys m) ≡ false → lookup k m ≡ none
  unfolding lookup elem
  lookup_of_not_elem k [] h = refl
  lookup_of_not_elem k ((j, w) ∷ m) h = ground (arith, lookup_of_not_elem k m)

  pub elem_of_lookup :
      (k : K) (m : GoMap K V) (v : V) → lookup k m ≡ some v → elem k (keys m) ≡ true
  unfolding lookup elem
  elem_of_lookup k [] v h = ground arith
  elem_of_lookup k ((j, w) ∷ m) v h = ground (arith, elem_of_lookup k m v)

  pub not_elem_of_lookup : (k : K) (m : GoMap K V) → lookup k m ≡ none → elem k (keys m) ≡ false
  unfolding lookup elem
  not_elem_of_lookup k [] h = refl
  not_elem_of_lookup k ((j, w) ∷ m) h = ground (arith, not_elem_of_lookup k m)

  pub keys-insert_new :
      (k : K) (v : V) (m : GoMap K V) → elem k (keys m) ≡ false → insert k v m ≡ m ++ ((k, v) ∷ [])
  unfolding elem insert
  keys-insert_new k v [] h = refl
  keys-insert_new k v ((j, w) ∷ m) h = ground (arith, keys-insert_new k v m)

  pub delete_absent : (k : K) (m : GoMap K V) → elem k (keys m) ≡ false → delete k m ≡ m
  unfolding elem delete
  delete_absent k [] h = refl
  delete_absent k ((j, w) ∷ m) h = ground (arith, delete_absent k m)

  pub keys-delete :
      (k : K) (m : GoMap K V) → IsNodup (keys m) → keys (delete k m) ≡ remove_first k (keys m)
  unfolding elem delete remove_first
  keys-delete k [] h = refl
  keys-delete k ((j, w) ∷ m) h =
      ground (arith, keys-delete k m h.1, delete_absent k m, e.eqb_iff j k)

  pub length-keys : (m : GoMap K V) → length (keys m) ≡ length m
  length-keys [] = refl
  length-keys (x ∷ m) = ap suc (length-keys m)

module _ {K V : Type 0} ⦃e : Eq K⦄ where
  pub mem_of_lookup : (k : K) (v : V) (m : GoMap K V) → lookup k m ≡ some v → Mem (k, v) m
  unfolding lookup
  mem_of_lookup k v [] h = absurd (ground arith)
  mem_of_lookup k v ((j, w) ∷ m) h = elim (Bool-cases (j == k)) [
    | inl same ↦ inl (ground (arith, e.eqb_iff j k, h))
    | inr other ↦ inr (mem_of_lookup k v m (rw other at h))
  ]

  pub lookup_of_mem :
      (k : K) (v : V) (m : GoMap K V) → IsNodup (keys m) → Mem (k, v) m → lookup k m ≡ some v
  unfolding lookup elem
  lookup_of_mem k v [] d h = absurd h
  lookup_of_mem k v ((j, w) ∷ m) d (inl e1) =
      ground (arith, ap (λ (x : K × V). x.0) e1, ap (λ (x : K × V). x.1) e1, eqb_refl j)
  lookup_of_mem k v ((j, w) ∷ m) d (inr h) =
      let found = lookup_of_mem k v m d.1 h in
      ground (arith, found, elem_of_lookup k m v found, e.eqb_iff j k, d.0)
