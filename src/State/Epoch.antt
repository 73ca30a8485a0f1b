-- ===== src/State/Epoch.antt =====
-- internal/state/epoch.go: the chains of an epoch.
use go_doubleratchet.Base.{ℕ, Option, Bytes}

pub data Direction : Type 0 where
  direction_a2b : Direction
  direction_b2a : Direction

-- A nil chain key is the empty one.
pub record KdfChain : Type 0 where
  pub ck : Bytes
  pub n : ℕ

-- A nil pointer is `none`.
pub record KdfChainPair : Type 0 where
  pub send : Option KdfChain
  pub receive : Option KdfChain
