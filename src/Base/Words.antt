-- ===== src/Base/Words.antt =====
-- uint32 and uint64 values: the wrap of their increments, and encoding/binary's big-endian form.
use Prim.Native.Nat.{ℕ, ◌+◌, ◌*◌, ◌/◌, ◌%◌, ◌<◌}
use mathlib.Core.Path.{◌≡◌, refl}
use mathlib.Core.List.{[], ◌∷◌, ◌++◌}
use native.Mathlib.Omega.{arith}
use go_doubleratchet.Base.Lists.{Bytes, length, get_or}

-- One above the largest uint32.
abbrev pub u32_mod : ℕ
u32_mod = 4294967296

-- `x + 1` of a uint32
abbrev pub u32_succ : ℕ → ℕ
u32_succ x = (x + 1) % u32_mod

-- `binary.BigEndian.PutUint32` into four bytes of their own
unfoldable pub put_uint32 : ℕ → Bytes
put_uint32 v = (v / 16777216 % 256) ∷ (v / 65536 % 256) ∷ (v / 256 % 256) ∷ (v % 256) ∷ []

-- `binary.BigEndian.Uint32` of a slice with at least four bytes
unfoldable pub uint32 : Bytes → ℕ
uint32 b = get_or b 0 0 * 16777216 + get_or b 1 0 * 65536 + get_or b 2 0 * 256 + get_or b 3 0

pub length-put_uint32 : (v : ℕ) → length (put_uint32 v) ≡ 4
unfolding put_uint32
length-put_uint32 v = refl

pub uint32-put_uint32 : (v : ℕ) (rest : Bytes) → v < u32_mod → uint32 (put_uint32 v ++ rest) ≡ v
unfolding put_uint32 uint32
uint32-put_uint32 v rest h = omega arith

-- `binary.BigEndian.PutUint64`
unfoldable pub put_uint64 : ℕ → Bytes
unfolding put_uint32
put_uint64 v = put_uint32 (v / u32_mod % u32_mod) ++ put_uint32 (v % u32_mod)
