-- ===== src/Scka.antt =====
-- scka/scka.go: the interface of the post-quantum key agreement. Its implementations stand outside
-- the program; what it promises of them is stated as a predicate.
use go_doubleratchet.Base.{ℕ, Option, Bytes, Method, ◌≡◌}

-- The methods of an implementation with states `P` and snapshots `S`. A nil output key is `none`.
pub record Provider (P S : Type 0) : Type 0 where
  pub init_initiator : Bytes → Method P (Unit {0})
  pub init_responder : Bytes → Method P (Unit {0})
  -- the message, the sending epoch, the output key and its epoch
  pub send : Method P (Bytes × ℕ × Option Bytes × ℕ)
  -- the receiving epoch, the output key and its epoch
  pub receive : Bytes → Method P (ℕ × Option Bytes × ℕ)
  pub snapshot : P → S
  pub restore : S → P → P
  pub close : Method P (Unit {0})

-- "Must fully replace all state with the values captured by Snapshot."
abbrev pub Restores : {P S : Type 0} → Provider P S → Type 0
Restores {P} {S} scka = (now then : P) → scka.restore (scka.snapshot then) now ≡ then
