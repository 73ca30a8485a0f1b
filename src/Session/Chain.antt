-- ===== src/Session/Chain.antt =====
-- The symmetric-key ratchet: what skipMessageKeys and deriveRecvMessageKey compute, against the
-- iterated chain-key derivation.
use native.Mathlib.Nat.{mod-eq_of_lt}
use go_doubleratchet.Base.{
  ℕ, zero, suc, ◌+◌, ◌≤◌, ◌<◌, ◌≡◌, refl, ◌∙◌, true, false, Option, none, some, Bytes, arith, leb,
  nat_eqb, if◌then◌else◌,
}
use go_doubleratchet.Base.Words.{u32_mod, u32_succ}
use go_doubleratchet.Primitives.{Primitives}
use go_doubleratchet.Kdf.{derive_message_key}
use go_doubleratchet.State.Skipped.{Storage, store}
use go_doubleratchet.Session.Ratchet.{
  message_key_32, next_chain_key, store_range, skip_loop, derive_from,
}

module _ (p : Primitives) where
  -- The chain key `k` messages further on.
  unfoldable pub chain_key : ℕ → Bytes → Bytes
  chain_key zero ck = ck
  chain_key (suc k) ck = chain_key k (next_chain_key p ck)

  -- The key of the message that stands `k` messages further on.
  unfoldable pub message_key : ℕ → Bytes → Bytes
  message_key k ck = derive_message_key p (chain_key k ck)

  pub chain_key-suc :
      (k : ℕ) (ck : Bytes) → chain_key (suc k) ck ≡ next_chain_key p (chain_key k ck)
  unfolding chain_key
  chain_key-suc zero ck = refl
  chain_key-suc (suc k) ck = chain_key-suc k (next_chain_key p ck)

  -- The loop of skipMessageKeys, as the loop over the chain keys and the loop over the store.
  pub skip_loop_lem :
      (pk : Bytes) (k nr : ℕ) (ck rpk : Bytes) (st : Storage)
      → skip_loop p pk k (record { ck = some ck; nr = nr; ratchet_pk = rpk }) st ≡ (
        record { ck = some (chain_key k ck); nr = nr + k; ratchet_pk = rpk },
        store_range p pk k ck nr st,
      )
  unfolding skip_loop store_range chain_key
  skip_loop_lem pk zero nr ck rpk st = ground arith
  skip_loop_lem pk (suc k) nr ck rpk st =
      let e : (nr + 1) + k ≡ nr + suc k = omega arith in
      skip_loop_lem pk k (nr + 1) (next_chain_key p ck) rpk (store st pk nr (message_key_32 p ck))
      ∙ rw e refl

  derive_done :
      (fuel n i : ℕ) (ck : Bytes) (mk : Option Bytes)
      → n < i
      → derive_from p (suc fuel) n i ck mk ≡ some (ck, mk)
  unfolding derive_from
  derive_done fuel n i ck mk h = ground arith

  derive_step_last :
      (fuel n : ℕ) (ck : Bytes) (mk : Option Bytes)
      → n + 1 < u32_mod
      → derive_from p (suc (suc fuel)) n n ck mk ≡ some (ck, some (derive_message_key p ck))
  unfolding derive_from
  derive_step_last fuel n ck mk fits = ground (
    arith,
    mod-eq_of_lt {n = n + 1} {m = u32_mod} fits,
    derive_done fuel n (u32_succ n) ck (some (derive_message_key p ck)),
  )

  derive_step :
      (fuel n i : ℕ) (ck : Bytes) (mk : Option Bytes)
      → i < n
      → n < u32_mod
      → derive_from p (suc fuel) n i ck mk ≡ derive_from p fuel n (i + 1) (next_chain_key p ck) mk
  unfolding derive_from
  derive_step fuel n i ck mk lt fits =
      let e : u32_succ i ≡ i + 1 = mod-eq_of_lt (omega arith) in
      let le : leb i n ≡ true = ground arith in
      let ne : nat_eqb i n ≡ false = ground arith in rw (e, le, ne) refl

  -- The loop of deriveRecvMessageKey below the largest message number: with fuel for two rounds more
  -- than there are messages up to `n`, it ends at the chain key of message `n`, with its message key.
  pub derive_from_lem :
      (k fuel n i : ℕ) (ck : Bytes) (mk : Option Bytes)
      → n ≡ i + k
      → n + 1 < u32_mod
      → k + 2 ≤ fuel
      → derive_from p fuel n i ck mk ≡ some (chain_key k ck, some (message_key k ck))
  unfolding chain_key message_key
  derive_from_lem k zero n i ck mk e fits h = absurd (omega arith)
  derive_from_lem k (suc zero) n i ck mk e fits h = absurd (omega arith)
  derive_from_lem zero (suc (suc fuel)) n i ck mk e fits h =
      let here : i ≡ n = omega arith in rw here (derive_step_last fuel n ck mk fits)
  derive_from_lem (suc k) (suc (suc fuel)) n i ck mk e fits h =
      derive_step (suc fuel) n i ck mk (omega arith) (omega arith)
      ∙ derive_from_lem k (suc fuel) n (i + 1) (next_chain_key p ck) mk (omega arith) fits
          (omega arith)

  -- At the largest message number the loop of deriveRecvMessageKey never ends: its counter wraps to 0
  -- behind that number, and no number of rounds is enough.
  pub derive_from_diverges :
      (fuel i : ℕ) (ck : Bytes) (mk : Option Bytes)
      → i < u32_mod
      → derive_from p fuel 4294967295 i ck mk ≡ none
  unfolding derive_from
  derive_from_diverges zero i ck mk h = refl
  derive_from_diverges (suc fuel) i ck mk h = ground (
    arith,
    derive_from_diverges fuel (u32_succ i)
        (if nat_eqb i 4294967295 then ck else next_chain_key p ck)
        (if nat_eqb i 4294967295 then some (derive_message_key p ck) else mk),
  )
