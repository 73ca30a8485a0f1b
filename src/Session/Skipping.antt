-- ===== src/Session/Skipping.antt =====
-- The keys that are stored for skipped messages, and that each of them is found again.
use go_doubleratchet.Base.{
  ℕ, zero, suc, ◌+◌, ◌-◌, bytes_eqb, ◌&&◌, leb, ltb, if◌then◌else◌, Bool-cases, inl, inr, subst,
  bytes_eqb_refl, ◌≤◌, ◌<◌, ◌≡◌, ◌≢◌, refl, ◌∙◌, none, some, Bytes, length, arith,
}
use go_doubleratchet.Base.Words.{u32_mod}
use go_doubleratchet.Primitives.{Primitives}
use go_doubleratchet.State.Skipped.{Storage, store, storage_key}
use go_doubleratchet.State.Skipped.Laws.{IsValid, store-IsValid, length-store-le}
use go_doubleratchet.State.Skipped.Access.{
  stored, stored-store_self, stored-store_ne, storage_key_injective,
}
use go_doubleratchet.Session.Ratchet.{message_key_32, next_chain_key, store_range}
use go_doubleratchet.Session.Chain.{chain_key}
use go_doubleratchet.Base.{bytes_eq_of_eqb, ok, ap}
use go_doubleratchet.State.ReceiverChains.{chain_at, receiver_chains_max}
use go_doubleratchet.State.ReceiverChains.Window
use go_doubleratchet.State.ReceiverChains.Window.{chain_at-set_chain}
use go_doubleratchet.Session.{Session}
use go_doubleratchet.Session.Ratchet.{skip_message_keys}
use go_doubleratchet.Session.Deliver.{chain, skip_message_keys-eq}

module _ (p : Primitives) where
  -- Storing a range leaves the keys of other storage keys alone, while there is room.
  store_range_ne :
      (pk pk' : Bytes) (k n n' : ℕ) (ck : Bytes) (st : Storage)
      → ((i : ℕ) → n ≤ i → i < n + k → storage_key pk i ≢ storage_key pk' n')
      → IsValid st
      → length st.entries + k ≤ st.max_skip
      → stored (store_range p pk k ck n st) pk' n' ≡ stored st pk' n'
  unfolding store_range
  store_range_ne pk pk' zero n n' ck st ne v room = refl
  store_range_ne pk pk' (suc k) n n' ck st ne v room =
      let mk = message_key_32 p ck in
      let (v', same) = store-IsValid st pk n mk v in
      store_range_ne pk pk' k (n + 1) n' (next_chain_key p ck) (store st pk n mk)
        (λ i lo hi. ne i (omega arith) (omega arith)) v'
        (omega (arith, length-store-le st pk n mk v))
      ∙ stored-store_ne st pk pk' n n' mk (ne n (omega arith) (omega arith))
          (λ oldest rest e same. omega arith)

  -- After a range of skipped messages is stored, each of them finds its own key, if the store was
  -- well formed, had room for all of them and held none of them before, the ratchet key has 32 bytes
  -- and the numbers are uint32.
  pub stored-store_range :
      (pk : Bytes) (k n j : ℕ) (ck : Bytes) (st : Storage)
      → length pk ≡ 32
      → n + k ≤ u32_mod
      → j < k
      → IsValid st
      → length st.entries + k ≤ st.max_skip
      → ((i : ℕ) → i < k → stored st pk (n + i) ≡ none)
      → stored (store_range p pk k ck n st) pk (n + j) ≡ some (message_key_32 p (chain_key p j ck))
  unfolding store_range chain_key
  stored-store_range pk zero n j ck st l fits lt v room new = absurd (omega arith)
  stored-store_range pk (suc k) n zero ck st l fits lt v room new =
      let mk = message_key_32 p ck in
      let e : n + 0 ≡ n = omega arith in
      let (v', same) = store-IsValid st pk n mk v in
      let free : stored st pk n ≡ none = rw e at (new 0 (omega arith)) in
      rw e (
        store_range_ne pk pk k (n + 1) n (next_chain_key p ck) (store st pk n mk)
          (λ i lo hi same. absurd (
            omega
              (arith, (storage_key_injective pk pk i n l l (omega arith) (omega arith) same).1)))
          v' (omega (arith, length-store-le st pk n mk v))
        ∙ stored-store_self st pk n mk (omega arith)
        ∙ rw free refl)
  stored-store_range pk (suc k) n (suc j) ck st l fits lt v room new =
      let mk = message_key_32 p ck in
      let e : (i : ℕ) → n + suc i ≡ (n + 1) + i = λ i. omega arith in
      let (v', same) = store-IsValid st pk n mk v in
      rw (e j) (
        stored-store_range pk k (n + 1) j (next_chain_key p ck) (store st pk n mk) l (omega arith)
          (omega arith) v' (omega (arith, length-store-le st pk n mk v))
          (λ i lt.
            stored-store_ne st pk pk n ((n + 1) + i) mk
              (λ same. absurd (
                omega (
                  arith,
                  (storage_key_injective pk pk n ((n + 1) + i) l l (omega arith) (omega arith)
                      same).1,
                )))
              (λ oldest rest e same. omega arith)
            ∙ rw (e i) at (new (suc i) (omega arith))))

  -- What is stored behind a range of skipped messages: under their ratchet key and numbers their own
  -- keys, and else what was stored before.
  stored-store_range_if :
      (pk pk' : Bytes) (k n m : ℕ) (ck : Bytes) (st : Storage)
      → length pk ≡ 32
      → length pk' ≡ 32
      → n + k ≤ u32_mod
      → m < u32_mod
      → IsValid st
      → length st.entries + k ≤ st.max_skip
      → ((i : ℕ) → i < k → stored st pk (n + i) ≡ none)
      → stored (store_range p pk k ck n st) pk' m ≡ (
          if bytes_eqb pk pk' && (leb n m && ltb m (n + k))
          then some (message_key_32 p (chain_key p (m - n) ck))
          else stored st pk' m)
  stored-store_range_if pk pk' k n m ck st l l' fits fits' v room new =
      let none_of : (pk ≡ pk' → n ≤ m → m < n + k → ⊥)
          → stored (store_range p pk k ck n st) pk' m ≡ stored st pk' m =
        λ other.
          store_range_ne pk pk' k n m ck st
            (λ i lo hi same.
              let (e, i_is_m) = storage_key_injective pk pk' i m l l' (omega arith) fits' same in
              absurd (other e (omega arith) (omega arith)))
            v room in
      elim (Bool-cases (bytes_eqb pk pk')) [
        | inr differs ↦
            rw differs (none_of (λ same. absurd (ground (arith, bytes_eqb_refl pk, differs, same))))
        | inl equal ↦ elim (Bool-cases (leb n m && ltb m (n + k))) [
          | inr outside ↦ rw (equal, outside) (none_of (λ same lo hi. absurd (ground arith)))
          | inl inside ↦
              let same : pk ≡ pk' = bytes_eq_of_eqb pk pk' equal in
              let number : n + (m - n) ≡ m = ground arith in
              rw (equal, inside)
                (subst
                  (λ pk'.
                    stored (store_range p pk k ck n st) pk' m
                    ≡ some (message_key_32 p (chain_key p (m - n) ck)))
                  same
                  (rw number at
                    (stored-store_range pk k n (m - n) ck st l fits (ground arith) v room new)))
        ]
      ]

  -- In a well-formed store with room for the keys, none of which it holds before, skipMessageKeys puts
  -- the chain at the wanted number, or leaves it where it is if it stands there or further on, with the
  -- chain key that belongs to the number. Then the messages that the chain has passed, and no others,
  -- find their own keys under the ratchet key, and every other number and ratchet key finds what it
  -- found before. The ratchet keys have 32 bytes, the numbers are uint32.
  pub stored-skip_message_keys :
      (s : Session) (idx nr until m : ℕ) (ck pk pk' rpk : Bytes)
      → chain_at s.recv_chains idx ≡ chain ck nr rpk
      → idx < receiver_chains_max
      → Window.IsValid s.recv_chains
      → length pk ≡ 32
      → length pk' ≡ 32
      → nr < u32_mod
      → until < u32_mod
      → m < u32_mod
      → IsValid s.mk_skipped
      → length s.mk_skipped.entries + (until - nr) ≤ s.mk_skipped.max_skip
      → ((i : ℕ) → i < until - nr → stored s.mk_skipped pk (nr + i) ≡ none)
      → let after = skip_message_keys p pk idx until s in
        (after.0 ≡ ok tt)
        × (chain_at after.1.recv_chains idx
            ≡ chain (chain_key p (until - nr) ck) (if ltb nr until then until else nr) rpk)
        × (stored after.1.mk_skipped pk' m ≡ (
            if bytes_eqb pk pk' && (leb nr m && ltb m until)
            then some (message_key_32 p (chain_key p (m - nr) ck))
            else stored s.mk_skipped pk' m))
  stored-skip_message_keys s idx nr until m ck pk pk' rpk c lt w l l' f f' f'' v room new =
      let gap = until - nr in
      let after = skip_message_keys-eq p s idx nr until ck pk rpk c in
      let number : nr + gap ≡ (if ltb nr until then until else nr) = ground arith in
      let passed : (leb nr m && ltb m (nr + gap)) ≡ (leb nr m && ltb m until) = ground arith in
      rw after (
        refl,
        chain_at-set_chain s.recv_chains idx _ w lt
            ∙ ap (λ n. chain (chain_key p gap ck) n rpk) number,
        rw passed at (
            stored-store_range_if pk pk' gap nr m ck s.mk_skipped l l' (omega arith) f'' v room
              new),
      )
