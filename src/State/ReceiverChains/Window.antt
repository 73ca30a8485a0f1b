-- ===== src/State/ReceiverChains/Window.antt =====
-- The circular buffer as the list of its live chains, oldest first.
use go_doubleratchet.Base.{
  ℕ, zero, suc, ◌+◌, ◌%◌, ◌≤◌, ◌<◌, ◌≡◌, ◌≢◌, refl, ap, ap₂, true, List, [], ◌∷◌, ◌++◌, Option,
  none, some, Bytes, length, get_or, set, nat_eqb, bytes_eqb, if◌then◌else◌, arith, map-id_of,
  length-set, get_or-set_self, get_or-set_ne, Bool-cases, sym, ◌∙◌, inl, inr,
}
use go_doubleratchet.State.ReceiverChains.{
  ReceiverChain, ReceiverChains, empty_chain, new_receiver_chains, evict, add_chain, push, index,
  get_from, find, chain_at, set_chain, copy_chain, clone, receiver_chains_max,
}

pub record IsValid (r : ReceiverChains) : Type 0 where
  pub slots : length r.chains ≡ receiver_chains_max
  pub head_in : r.head < receiver_chains_max
  pub count_in : r.count ≤ receiver_chains_max

-- The `n` chains from the `i`-th on, counted from the oldest.
abbrev window : ReceiverChains → ℕ → ℕ → List ReceiverChain
window r i zero = []
window r i (suc n) = get_or r.chains (index r i) empty_chain ∷ window r (suc i) n

pub contents : ReceiverChains → List ReceiverChain
contents r = window r 0 r.count

-- What is written outside a stretch of the buffer does not change the stretch.
window-set_ne :
    (r : ReceiverChains) (j i n : ℕ) (c : ReceiverChain)
    → r.head < receiver_chains_max
    → i + n ≤ j
    → j < i + receiver_chains_max
    → window (record r { chains = set r.chains (index r j) c }) i n ≡ window r i n
window-set_ne r j i zero c h le lt = refl
window-set_ne r j i (suc n) c h le lt =
    ap₂ ◌∷◌ (get_or-set_ne r.chains (index r j) (index r i) c empty_chain (omega arith))
      (window-set_ne r j (suc i) n c h (omega arith) (omega arith))

window-append :
    (r : ReceiverChains) (i n : ℕ)
    → window r i (suc n) ≡ window r i n ++ (get_or r.chains (index r (i + n)) empty_chain ∷ [])
window-append r i zero = ap (λ k. get_or r.chains (index r k) empty_chain ∷ []) (omega arith)
window-append r i (suc n) =
    let e : i + suc n ≡ suc i + n = omega arith in
    rw e (ap (◌∷◌ (get_or r.chains (index r i) empty_chain)) (window-append r (suc i) n))

length-window : (r : ReceiverChains) (i n : ℕ) → length (window r i n) ≡ n
length-window r i zero = refl
length-window r i (suc n) = ap suc (length-window r (suc i) n)

-- A list of at most five chains, to which a chain is added by dropping the first of five.
abbrev pub bounded_push : List ReceiverChain → ReceiverChain → List ReceiverChain
bounded_push [] c = c ∷ []
bounded_push (x ∷ xs) c = (if nat_eqb (length xs) 4 then xs else x ∷ xs) ++ (c ∷ [])

abbrev fresh : Bytes → Option Bytes → ReceiverChain
fresh pk ck = record { ck = ck; nr = 0; ratchet_pk = pk }

add_chain-IsValid :
    (r : ReceiverChains) (pk : Bytes) (ck : Option Bytes)
    → IsValid r
    → r.count < receiver_chains_max
    → IsValid (add_chain r pk ck)
unfolding add_chain
add_chain-IsValid r pk ck v room =
    omega (arith, length-set r.chains (index r r.count) (fresh pk ck))

contents-add_chain :
    (r : ReceiverChains) (pk : Bytes) (ck : Option Bytes)
    → IsValid r
    → r.count < receiver_chains_max
    → contents (add_chain r pk ck) ≡ contents r ++ (fresh pk ck ∷ [])
unfolding contents add_chain
contents-add_chain r pk ck v room =
    let c = fresh pk ck in
    let r' : ReceiverChains = record r { chains = set r.chains (index r r.count) c } in
    let grown : r.count + 1 ≡ suc r.count = omega arith in
    let last : get_or r'.chains (index r r.count) empty_chain ≡ c =
      get_or-set_self r.chains (index r r.count) c empty_chain (omega arith) in
    let zero_add : 0 + r.count ≡ r.count = omega arith in
    rw
      (
        grown,
        window-append r' 0 r.count,
        zero_add,
        last,
        window-set_ne r r.count 0 r.count c v.head_in (omega arith) (omega arith),
      )
      refl

evict-IsValid :
    (r : ReceiverChains)
    → IsValid r
    → 0 < r.count
    → IsValid (evict r) × (suc (evict r).count ≡ r.count)
unfolding evict
evict-IsValid r v some_ = omega (arith, length-set r.chains r.head empty_chain)

window-evict :
    (r : ReceiverChains) (i n : ℕ)
    → r.head < receiver_chains_max
    → i + n < receiver_chains_max
    → window (evict r) i n ≡ window r (suc i) n
unfolding evict
window-evict r i zero h fits = refl
window-evict r i (suc n) h fits =
    let e : ((r.head + 1) % 5 + i) % 5 ≡ index r (suc i) = omega arith in
    ap₂ ◌∷◌
      (rw e (get_or-set_ne r.chains r.head (index r (suc i)) empty_chain empty_chain (omega arith)))
      (window-evict r (suc i) n h (omega arith))

contents-evict :
    (r : ReceiverChains) (n : ℕ)
    → IsValid r
    → r.count ≡ suc n
    → contents r ≡ get_or r.chains (index r 0) empty_chain ∷ contents (evict r)
unfolding contents
contents-evict r n v e =
    let (ve, less) = evict-IsValid r v (omega arith) in
    let e' : (evict r).count ≡ n = omega arith in
    let rest : window (evict r) 0 (evict r).count ≡ window r 1 n =
      ap (window (evict r) 0) e' ∙ window-evict r 0 n v.head_in (omega arith) in
    ap (window r 0) e ∙ ap (◌∷◌ (get_or r.chains (index r 0) empty_chain)) (sym rest)

-- Push keeps the buffer well formed.
pub push-IsValid :
    (r : ReceiverChains) (pk : Bytes) (ck : Option Bytes) → IsValid r → IsValid (push r pk ck)
unfolding push
push-IsValid r pk ck v = elim (Bool-cases (nat_eqb r.count receiver_chains_max)) [
  | inl full ↦
      let n : r.count ≡ 5 = ground arith in
      let (ve, less) = evict-IsValid r v (omega arith) in
      rw full (add_chain-IsValid (evict r) pk ck ve (omega arith))
  | inr room ↦
      let n : r.count ≢ 5 = λ e. ground arith in rw room (add_chain-IsValid r pk ck v (omega arith))
]

pub length-contents : (r : ReceiverChains) → length (contents r) ≡ r.count
unfolding contents
length-contents r = length-window r 0 r.count

append_bounded :
    (xs : List ReceiverChain) (c : ReceiverChain)
    → length xs < 5
    → xs ++ (c ∷ []) ≡ bounded_push xs c
append_bounded [] c h = refl
append_bounded (x ∷ xs) c h = ground arith

push_full :
    (r : ReceiverChains) (pk : Bytes) (ck : Option Bytes)
    → IsValid r
    → r.count ≡ 5
    → contents (add_chain (evict r) pk ck) ≡ bounded_push (contents r) (fresh pk ck)
push_full r pk ck v n =
    let (ve, less) = evict-IsValid r v (omega arith) in
    rw (contents-add_chain (evict r) pk ck ve (omega arith), contents-evict r 4 v n)
      (ground (arith, length-contents (evict r)))

push_room :
    (r : ReceiverChains) (pk : Bytes) (ck : Option Bytes)
    → IsValid r
    → r.count ≢ 5
    → contents (add_chain r pk ck) ≡ bounded_push (contents r) (fresh pk ck)
push_room r pk ck v n =
    rw (contents-add_chain r pk ck v (omega arith))
      (append_bounded (contents r) (fresh pk ck) (omega (arith, length-contents r)))

-- On a well-formed buffer, Push adds a chain of its own behind the live ones, and drops the oldest if there were five.
pub contents-push :
    (r : ReceiverChains) (pk : Bytes) (ck : Option Bytes)
    → IsValid r
    → contents (push r pk ck)
      ≡ bounded_push (contents r) (record { ck = ck; nr = 0; ratchet_pk = pk })
unfolding push
contents-push r pk ck v = elim (Bool-cases (nat_eqb r.count receiver_chains_max)) [
  | inl full ↦ rw full (push_full r pk ck v (ground arith))
  | inr room ↦ rw room (push_room r pk ck v (λ e. ground arith))
]

-- The first chain of a list that belongs to a ratchet key.
abbrev pub find_chain : List ReceiverChain → Bytes → Option ReceiverChain
find_chain [] pk = none
find_chain (c ∷ cs) pk = if bytes_eqb c.ratchet_pk pk then some c else find_chain cs pk

-- What the pointer that Get returns points to.
abbrev pub deref : ReceiverChains → Option ℕ → Option ReceiverChain
deref r none = none
deref r (some idx) = some (chain_at r idx)

get_from_lem :
    (r : ReceiverChains) (pk : Bytes) (n i : ℕ)
    → deref r (get_from r pk n i) ≡ find_chain (window r i n) pk
unfolding get_from chain_at
get_from_lem r pk zero i = refl
get_from_lem r pk (suc n) i =
    let e : i + 1 ≡ suc i = omega arith in
    elim (Bool-cases (bytes_eqb (get_or r.chains (index r i) empty_chain).ratchet_pk pk)) [
      | inl here ↦ rw (here) refl
      | inr not_here ↦ rw (not_here, e) (get_from_lem r pk n (suc i))
    ]

-- Get points to the oldest live chain of the key, and is nil exactly if there is none.
pub find_lem : (r : ReceiverChains) (pk : Bytes) → deref r (find r pk) ≡ find_chain (contents r) pk
unfolding find contents
find_lem r pk = get_from_lem r pk r.count 0

get_from-lt :
    (r : ReceiverChains) (pk : Bytes) (n i idx : ℕ)
    → get_from r pk n i ≡ some idx
    → (idx < 5) × (bytes_eqb (chain_at r idx).ratchet_pk pk ≡ true)
unfolding get_from chain_at
get_from-lt r pk zero i idx h = absurd (ground arith)
get_from-lt r pk (suc n) i idx h =
    elim (Bool-cases (bytes_eqb (get_or r.chains (index r i) empty_chain).ratchet_pk pk)) [
      | inl here ↦ let e : index r i ≡ idx = ground arith in rw (← e) (omega arith, here)
      | inr not_here ↦ get_from-lt r pk n (i + 1) idx (ground arith)
    ]

-- The pointer lies inside the buffer, and points to a chain of the key.
pub find_bounds :
    (r : ReceiverChains) (pk : Bytes) (idx : ℕ)
    → find r pk ≡ some idx
    → (idx < receiver_chains_max) × (bytes_eqb (chain_at r idx).ratchet_pk pk ≡ true)
unfolding find
find_bounds r pk idx h = get_from-lt r pk r.count 0 idx h

pub set_chain-IsValid :
    (r : ReceiverChains) (idx : ℕ) (c : ReceiverChain) → IsValid r → IsValid (set_chain r idx c)
unfolding set_chain
set_chain-IsValid r idx c v = omega (arith, length-set r.chains idx c)

-- A copy of the buffer is equal to it.
pub clone_lem : (r : ReceiverChains) → clone r ≡ r
unfolding clone copy_chain
clone_lem r = rw (map-id_of copy_chain (λ c. refl) r.chains) refl

pub new_receiver_chains-IsValid : IsValid new_receiver_chains × (contents new_receiver_chains ≡ [])
unfolding new_receiver_chains contents
new_receiver_chains-IsValid = (omega arith, refl)

pub chain_at-set_chain :
    (r : ReceiverChains) (idx : ℕ) (c : ReceiverChain)
    → IsValid r
    → idx < receiver_chains_max
    → chain_at (set_chain r idx c) idx ≡ c
unfolding chain_at set_chain
chain_at-set_chain r idx c v lt =
    get_or-set_self r.chains idx c empty_chain (omega (arith, v.slots))

set-set :
    (xs : List ReceiverChain) (i : ℕ) (c d : ReceiverChain) → set (set xs i c) i d ≡ set xs i d
set-set [] i c d = refl
set-set (x ∷ xs) zero c d = refl
set-set (x ∷ xs) (suc i) c d = ap (◌∷◌ x) (set-set xs i c d)

pub set_chain-set_chain :
    (r : ReceiverChains) (idx : ℕ) (c d : ReceiverChain)
    → set_chain (set_chain r idx c) idx d ≡ set_chain r idx d
unfolding set_chain
set_chain-set_chain r idx c d = rw (set-set r.chains idx c d) refl

get_or-set_pk :
    (xs : List ReceiverChain) (i j : ℕ) (c : ReceiverChain)
    → c.ratchet_pk ≡ (get_or xs i empty_chain).ratchet_pk
    → (get_or (set xs i c) j empty_chain).ratchet_pk ≡ (get_or xs j empty_chain).ratchet_pk
get_or-set_pk [] i j c h = refl
get_or-set_pk (x ∷ xs) zero zero c h = h
get_or-set_pk (x ∷ xs) zero (suc j) c h = refl
get_or-set_pk (x ∷ xs) (suc i) zero c h = refl
get_or-set_pk (x ∷ xs) (suc i) (suc j) c h = get_or-set_pk xs i j c h

get_from-set_chain :
    (r : ReceiverChains) (pk : Bytes) (idx n i : ℕ) (c : ReceiverChain)
    → c.ratchet_pk ≡ (chain_at r idx).ratchet_pk
    → get_from (set_chain r idx c) pk n i ≡ get_from r pk n i
unfolding get_from set_chain chain_at
get_from-set_chain r pk idx zero i c h = refl
get_from-set_chain r pk idx (suc n) i c h =
    rw (get_or-set_pk r.chains idx (index r i) c h, get_from-set_chain r pk idx n (i + 1) c h) refl

-- An assignment through a pointer that keeps the ratchet key does not change what Get finds.
pub find-set_chain :
    (r : ReceiverChains) (pk : Bytes) (idx : ℕ) (c : ReceiverChain)
    → c.ratchet_pk ≡ (chain_at r idx).ratchet_pk
    → find (set_chain r idx c) pk ≡ find r pk
unfolding find
find-set_chain r pk idx c h = unfold set_chain in get_from-set_chain r pk idx r.count 0 c h
