-- ===== src/SessionSpqr/Chains.antt =====
-- The chains of the epochs after an assignment, and a sender's chains against a receiver's.
use go_doubleratchet.Base.{
  ℕ, zero, suc, ◌≡◌, refl, ◌∙◌, Option, none, some, Bytes, nat_eqb, if◌then◌else◌, arith,
  Bool-cases, Option-cases, inl, inr, nat_eq, nat_eqb_iff, eqb_refl,
}
use go_doubleratchet.Base.GoMap
use go_doubleratchet.State.Epoch.{Direction, direction_a2b, direction_b2a, KdfChain, KdfChainPair}
use go_doubleratchet.SessionSpqr.{
  ChainMap, new_pair, send_chain, receive_chain, set_send, set_receive,
}
use go_doubleratchet.SessionSpqr.Methods.{directed_pair, drop_send_chain}

-- The chain that an epoch has once it is assigned, if there is the epoch.
abbrev assigned : Option KdfChain → Option KdfChainPair → Option KdfChain
assigned c none = none
assigned c (some pair) = c

send_chain-set_send :
    (j k : ℕ) (c : Option KdfChain) (m : ChainMap)
    → send_chain j (set_send k c m)
      ≡ (if nat_eqb k j then assigned c (GoMap.lookup k m) else send_chain j m)
unfolding send_chain set_send
send_chain-set_send j k c m = elim (Option-cases (GoMap.lookup k m)) [
  | inl e ↦ rw e (ground (arith, nat_eqb_iff k j, e))
  | inr (pair, e) ↦
      rw e (ground (arith, GoMap.lookup-insert j k (record pair { send = c }) m, nat_eqb_iff k j))
]

receive_chain-set_receive :
    (j k : ℕ) (c : Option KdfChain) (m : ChainMap)
    → receive_chain j (set_receive k c m)
      ≡ (if nat_eqb k j then assigned c (GoMap.lookup k m) else receive_chain j m)
unfolding receive_chain set_receive
receive_chain-set_receive j k c m = elim (Option-cases (GoMap.lookup k m)) [
  | inl e ↦ rw e (ground (arith, nat_eqb_iff k j, e))
  | inr (pair, e) ↦
      rw e
        (ground (arith, GoMap.lookup-insert j k (record pair { receive = c }) m, nat_eqb_iff k j))
]

-- An epoch with a chain is in the map.
assigned-send :
    (k : ℕ) (c : Option KdfChain) (c0 : KdfChain) (m : ChainMap)
    → send_chain k m ≡ some c0
    → assigned c (GoMap.lookup k m) ≡ c
unfolding send_chain
assigned-send k c c0 m h = elim (Option-cases (GoMap.lookup k m)) [
  | inl e ↦ absurd (ground (arith, h, e))
  | inr (pair, e) ↦ rw e refl
]

assigned-receive :
    (k : ℕ) (c : Option KdfChain) (c0 : KdfChain) (m : ChainMap)
    → receive_chain k m ≡ some c0
    → assigned c (GoMap.lookup k m) ≡ c
unfolding receive_chain
assigned-receive k c c0 m h = elim (Option-cases (GoMap.lookup k m)) [
  | inl e ↦ absurd (ground (arith, h, e))
  | inr (pair, e) ↦ rw e refl
]

-- The sending chain, if there is one, is what the receiver has.
abbrev pub Follows : Option KdfChain → Option KdfChain → Type 0
Follows none r = Unit
Follows (some c) r = r ≡ some c

-- Every sending chain of the one map is the receiving chain of the other.
abbrev pub FollowsAll : ChainMap → ChainMap → Type 0
FollowsAll a b = (epoch : ℕ) → Follows (send_chain epoch a) (receive_chain epoch b)

Follows-some : (o r : Option KdfChain) (c : KdfChain) → Follows o r → o ≡ some c → r ≡ some c
Follows-some none r c f h = absurd (ground (arith, h))
Follows-some (some d) r c f h = f ∙ h

pub held :
    (a b : ChainMap) (epoch : ℕ) (c : KdfChain)
    → FollowsAll a b
    → send_chain epoch a ≡ some c
    → receive_chain epoch b ≡ some c
held a b epoch c f h = Follows-some (send_chain epoch a) (receive_chain epoch b) c (f epoch) h

assigned-none : (o : Option KdfChainPair) → assigned none o ≡ none
assigned-none none = refl
assigned-none (some pair) = refl

-- A sender that drops a sending chain is followed still.
pub drop_send_chain-FollowsAll :
    (epoch : ℕ) (a b : ChainMap) → FollowsAll a b → FollowsAll (drop_send_chain epoch a) b
unfolding drop_send_chain
drop_send_chain-FollowsAll zero a b f = f
drop_send_chain-FollowsAll (suc before) a b f = λ epoch. elim (Bool-cases (nat_eqb before epoch)) [
  | inl same ↦
      rw (send_chain-set_send epoch before none a, same, assigned-none (GoMap.lookup before a)) tt
  | inr other ↦ rw (send_chain-set_send epoch before none a, other) (f epoch)
]

-- Both move the chain of an epoch on to the same chain.
pub step-FollowsAll :
    (epoch : ℕ) (c0 c : KdfChain) (a b : ChainMap)
    → send_chain epoch a ≡ some c0
    → FollowsAll a b
    → FollowsAll (set_send epoch (some c) a) (set_receive epoch (some c) b)
step-FollowsAll epoch c0 c a b h f = λ j. elim (Bool-cases (nat_eqb epoch j)) [
  | inl same ↦
      rw
        (
          send_chain-set_send j epoch (some c) a,
          receive_chain-set_receive j epoch (some c) b,
          same,
          assigned-send epoch (some c) c0 a h,
          assigned-receive epoch (some c) c0 b (held a b epoch c0 f h),
        )
        refl
  | inr other ↦
      rw
        (
          send_chain-set_send j epoch (some c) a,
          receive_chain-set_receive j epoch (some c) b,
          other,
        )
        (f j)
]

pub receive_chain-same :
    (epoch : ℕ) (c : KdfChain) (b : ChainMap)
    → receive_chain epoch b ≡ some c
    → receive_chain epoch (set_receive epoch (some c) b) ≡ some c
receive_chain-same epoch c b h =
    rw
      (
        receive_chain-set_receive epoch epoch (some c) b,
        assigned-receive epoch (some c) c b h,
        eqb_refl epoch,
      )
      refl

-- A receiver that writes back the chain it has follows still.
pub same-FollowsAll :
    (epoch : ℕ) (c : KdfChain) (a b : ChainMap)
    → receive_chain epoch b ≡ some c
    → FollowsAll a b
    → FollowsAll a (set_receive epoch (some c) b)
same-FollowsAll epoch c a b h f = λ j. elim (Bool-cases (nat_eqb epoch j)) [
  | inl same ↦
      let e : epoch ≡ j = (nat_eqb_iff epoch j).0 same in
      rw
        (
          receive_chain-set_receive j epoch (some c) b,
          same,
          assigned-receive epoch (some c) c b h,
          ← h,
          e,
        )
        (f j)
  | inr other ↦ rw (receive_chain-set_receive j epoch (some c) b, other) (f j)
]

-- The other side.
unfoldable pub opposite : Direction → Direction
opposite direction_a2b = direction_b2a
opposite direction_b2a = direction_a2b

pub directed_pair-opposite :
    (d : Direction) (cks ckr : Bytes)
    → (directed_pair d cks ckr).send ≡ (directed_pair (opposite d) cks ckr).receive
unfolding directed_pair opposite new_pair
directed_pair-opposite direction_a2b cks ckr = refl
directed_pair-opposite direction_b2a cks ckr = refl
