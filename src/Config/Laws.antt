-- ===== src/Config/Laws.antt =====
-- What a validated configuration guarantees, and how the identity prefixes of two parties agree.
use go_doubleratchet.Base.{◌≤◌, ◌≡◌, Bool, true, false, ◌&&◌, some, ok, bytes_eqb, arith}
use go_doubleratchet.Config.{
  Config, validate, effective_max_skip, identity_ad_prefix, zero_key, max_skip_max,
}

-- A configuration that passes Validate has an effective MaxSkip from 1 to MaxSkipMax, so NewStorage
-- accepts it.
pub effective_max_skip_bounds :
    (c : Config)
    → validate (some c) ≡ ok tt
    → (1 ≤ effective_max_skip (some c)) × (effective_max_skip (some c) ≤ max_skip_max)
unfolding validate effective_max_skip
effective_max_skip_bounds c h = ground arith

&&_comm : (x y : Bool) → x && y ≡ y && x
&&_comm x y = ground arith

-- If two parties hold each other's identity keys, the prefix that the one puts before what it
-- authenticates when it sends is the prefix that the other uses when it receives.
pub identity_ad_prefix_agree :
    (a b : Config)
    → a.local_identity_key ≡ b.remote_identity_key
    → a.remote_identity_key ≡ b.local_identity_key
    → identity_ad_prefix (some a) true ≡ identity_ad_prefix (some b) false
unfolding identity_ad_prefix
identity_ad_prefix_agree a b l r =
    rw (l, r, &&_comm (bytes_eqb b.remote_identity_key zero_key)) (ground arith)
