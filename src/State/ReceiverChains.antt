-- ===== src/State/ReceiverChains.antt =====
-- internal/state/receiver_chains.go: a circular buffer of the last five receiving chains. The
-- pointer that Get returns is an index into the buffer.
pub mod Window
use go_doubleratchet.Base.{
  ℕ, zero, suc, ◌+◌, ◌-◌, ◌%◌, ◌≤◌, ◌<◌, ◌≡◌, Bool, true, false, List, [], ◌∷◌, Option, none, some,
  Bytes, length, get_or, set, replicate, nat_eqb, bytes_eqb, if◌then◌else◌, map,
}
use go_doubleratchet.Config.{zero_key}

-- `ReceiverChainsMax`
abbrev pub receiver_chains_max : ℕ
receiver_chains_max = 5

-- A nil chain key is `none`.
pub record ReceiverChain : Type 0 where
  pub ck : Option Bytes
  pub nr : ℕ
  pub ratchet_pk : Bytes

pub record ReceiverChains : Type 0 where
  pub chains : List ReceiverChain
  pub head : ℕ
  pub count : ℕ

-- `ReceiverChain{}`
unfoldable pub empty_chain : ReceiverChain
empty_chain = record { ck = none; nr = 0; ratchet_pk = zero_key }

unfoldable pub new_receiver_chains : ReceiverChains
new_receiver_chains = record {
  chains = replicate receiver_chains_max empty_chain;
  head = 0;
  count = 0;
}

-- The oldest entry is overwritten by an empty one.
unfoldable pub evict : ReceiverChains → ReceiverChains
evict r = record {
  chains = set r.chains r.head empty_chain;
  head = (r.head + 1) % receiver_chains_max;
  count = r.count - 1;
}

unfoldable pub add_chain : ReceiverChains → Bytes → Option Bytes → ReceiverChains
add_chain r pk ck = record r {
  chains =
      set r.chains ((r.head + r.count) % receiver_chains_max)
        (record { ck = ck; nr = 0; ratchet_pk = pk });
  count = r.count + 1;
}

unfoldable pub push : ReceiverChains → Bytes → Option Bytes → ReceiverChains
push r pk ck = add_chain (if nat_eqb r.count receiver_chains_max then evict r else r) pk ck

-- The index of the entry that stands `i` behind the oldest.
abbrev index : ReceiverChains → ℕ → ℕ
index r i = (r.head + i) % receiver_chains_max

-- The loop of Get over `n` more entries, from `i` on.
unfoldable pub get_from : ReceiverChains → Bytes → ℕ → ℕ → Option ℕ
get_from r pk zero i = none
get_from r pk (suc n) i =
    if bytes_eqb (get_or r.chains (index r i) empty_chain).ratchet_pk pk
    then some (index r i)
    else get_from r pk n (i + 1)

-- `Get`
unfoldable pub find : ReceiverChains → Bytes → Option ℕ
find r pk = get_from r pk r.count 0

unfoldable pub has : ReceiverChains → Bytes → Bool
has r pk = elim (find r pk) [ none ↦ false | some _ ↦ true ]

-- What the pointer points to, and an assignment through it.
unfoldable pub chain_at : ReceiverChains → ℕ → ReceiverChain
chain_at r idx = get_or r.chains idx empty_chain

unfoldable pub set_chain : ReceiverChains → ℕ → ReceiverChain → ReceiverChains
set_chain r idx c = record r { chains = set r.chains idx c }

unfoldable pub copy_chain : ReceiverChain → ReceiverChain
copy_chain c = record { ck = c.ck; nr = c.nr; ratchet_pk = c.ratchet_pk }

unfoldable pub clone : ReceiverChains → ReceiverChains
clone r = record { chains = map copy_chain r.chains; head = r.head; count = r.count }

unfoldable pub clear : ReceiverChains → ReceiverChains
clear r = new_receiver_chains
