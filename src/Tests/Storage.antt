-- ===== src/Tests/Storage.antt =====
-- The store of skipped keys and the window of receiving chains on concrete inputs.
use native.Mathlib.Omega.{arith}
use go_doubleratchet.Base.{
  ℕ, zero, suc, ◌<◌, ◌≡◌, ◌≢◌, refl, ap, ◌∙◌, false, List, [], ◌∷◌, ◌++◌, none, some, Bytes, length,
  replicate, nat_eqb, bytes_eqb,
}
use go_doubleratchet.Base.GoMap
use go_doubleratchet.Base.Words.{put_uint32}
use go_doubleratchet.State.Skipped.{
  Storage, storage_key, store, get_key, make_room, evict_oldest, append_entry,
}
use go_doubleratchet.State.Skipped.Laws
use go_doubleratchet.State.Skipped.Laws.{store-IsValid, get_key-IsValid, entry_of}
use go_doubleratchet.State.Skipped.Access.{
  stored, storage_key_injective, get_key_lem, stored-store_ne,
}
use go_doubleratchet.State.ReceiverChains.{
  ReceiverChain, ReceiverChains, new_receiver_chains, push, find, chain_at, set_chain, evict,
  add_chain, get_from,
}
use go_doubleratchet.State.ReceiverChains.Window
use go_doubleratchet.State.ReceiverChains.Window.{
  contents, bounded_push, push-IsValid, contents-push, find_chain, deref, find_lem, find-set_chain,
  new_receiver_chains-IsValid,
}

abbrev pk : Bytes
pk = replicate 32 5

abbrev mk : ℕ → Bytes
mk n = replicate 32 n

abbrev key : ℕ → Bytes
key n = replicate 32 5 ++ (0 ∷ 0 ∷ 0 ∷ n ∷ [])

-- Two keys, in a store for two.
abbrev full : Storage
full = record {
  entries = (key 0, entry_of pk 0 (mk 1)) ∷ (key 1, entry_of pk 1 (mk 2)) ∷ [];
  order = key 0 ∷ key 1 ∷ [];
  max_skip = 2;
}

full-IsValid : Laws.IsValid full
unfolding GoMap.elem bytes_eqb
full-IsValid = record { synced = refl; distinct = (refl, (refl, tt)); bounded = omega arith }

other_key :
    (n n' : ℕ) → nat_eqb n n' ≡ false → n < 256 → n' < 256 → storage_key pk n ≢ storage_key pk n'
other_key n n' ne f f' same =
    ground (arith, storage_key_injective pk pk n n' refl refl (omega arith) (omega arith) same)

-- The oldest key makes room for a third.
store_third : stored (store full pk 2 (mk 3)) pk 0 ≡ none
unfolding store make_room evict_oldest append_entry stored storage_key put_uint32 GoMap.lookup
    GoMap.insert GoMap.delete bytes_eqb
store_third = refl

store-IsValid_example :
    Laws.IsValid (store full pk 2 (mk 3)) × ((store full pk 2 (mk 3)).max_skip ≡ 2)
store-IsValid_example = store-IsValid full pk 2 (mk 3) full-IsValid

get_key_lem_example :
    ((get_key full pk 1).0 ≡ stored full pk 1) × (stored (get_key full pk 1).1 pk 1 ≡ none)
get_key_lem_example = get_key_lem full pk 1

abbrev first : List Bytes → Bytes
first [] = []
first (x ∷ xs) = x

first_is_oldest :
    (oldest : Bytes) (rest : List Bytes)
    → full.order ≡ oldest ∷ rest
    → oldest ≡ storage_key pk 1
    → length full.entries < full.max_skip
unfolding storage_key put_uint32
first_is_oldest oldest rest e same =
    absurd (other_key 0 1 refl (omega arith) (omega arith) (ap first e ∙ same))

stored-store_ne_example : stored (store full pk 2 (mk 3)) pk 1 ≡ stored full pk 1
stored-store_ne_example =
    stored-store_ne full pk pk 2 1 (mk 3) (other_key 2 1 refl (omega arith) (omega arith))
      first_is_oldest

-- Chains of the keys 1 to 6, one pushed after the other: five are live.
abbrev pushed : ℕ → ReceiverChains
pushed zero = new_receiver_chains
pushed (suc n) = push (pushed n) (mk (suc n)) (some (mk n))

pushed-IsValid : (n : ℕ) → Window.IsValid (pushed n)
pushed-IsValid zero = new_receiver_chains-IsValid.0
pushed-IsValid (suc n) = push-IsValid (pushed n) (mk (suc n)) (some (mk n)) (pushed-IsValid n)

push-IsValid_example : Window.IsValid (push (pushed 5) pk none)
push-IsValid_example = push-IsValid (pushed 5) pk none (pushed-IsValid 5)

contents-push_example :
    contents (push (pushed 5) pk none)
    ≡ bounded_push (contents (pushed 5)) (record { ck = none; nr = 0; ratchet_pk = pk })
contents-push_example = contents-push (pushed 5) pk none (pushed-IsValid 5)

find_lem_example :
    deref (pushed 6) (find (pushed 6) (mk 1)) ≡ find_chain (contents (pushed 6)) (mk 1)
find_lem_example = find_lem (pushed 6) (mk 1)

-- The sixth stands where the first stood.
find_sixth : (find (pushed 6) (mk 6) ≡ some 0) × (find (pushed 6) (mk 1) ≡ none)
unfolding new_receiver_chains push evict add_chain find get_from bytes_eqb
find_sixth = (refl, refl)

abbrev seventh : ReceiverChain
seventh = record { ck = some pk; nr = 3; ratchet_pk = mk 6 }

sixth_pk : seventh.ratchet_pk ≡ (chain_at (pushed 6) 0).ratchet_pk
unfolding new_receiver_chains push evict add_chain chain_at
sixth_pk = refl

find-set_chain_example : find (set_chain (pushed 6) 0 seventh) (mk 2) ≡ find (pushed 6) (mk 2)
find-set_chain_example = find-set_chain (pushed 6) (mk 2) 0 seventh sixth_pk
