-- ===== src/Prelude/Bytes.antt =====
-- Bytes as numbers below 256, and the big-endian form of a 32-bit number, as encoding/binary
-- writes and reads it.
use Prim.Native.Nat.{ℕ, ◌+◌, ◌*◌, ◌/◌, ◌%◌, ◌<◌, ◌-◌}
use mathlib.Core.Path.{◌≡◌}
use mathlib.Core.List.{List, ◌∷◌}
use native.Mathlib.Omega.{arith}
use peikonpurekkusu_payment.Prelude.Tests.{ltb, if◌then◌else◌}
use peikonpurekkusu_payment.Prelude.Int.{ℤ, pos, negsuc}

abbrev pub Bytes : Type 0
Bytes = List ℕ

unfoldable pub put_uint32 : ℕ → Bytes → Bytes
put_uint32 v rest = (v / 16777216 % 256) ∷ (v / 65536 % 256) ∷ (v / 256 % 256) ∷ (v % 256) ∷ rest

unfoldable pub uint32 : ℕ → ℕ → ℕ → ℕ → ℕ
uint32 a b c d = a * 16777216 + b * 65536 + c * 256 + d

-- `uint32(x)` of an int32, and `int32(u)` of a uint32.
unfoldable pub to_uint32 : ℤ → ℕ
to_uint32 (pos n) = n % 4294967296
to_uint32 (negsuc n) = 4294967295 - n % 4294967296

unfoldable pub to_int32 : ℕ → ℤ
to_int32 u = if ltb u 2147483648 then pos u else negsuc (4294967295 - u)

-- The range of an int32.
abbrev pub IsInt32 : ℤ → Type 0
IsInt32 (pos n) = n < 2147483648
IsInt32 (negsuc n) = n < 2147483648

pub to_int32-to_uint32 : (x : ℤ) → IsInt32 x → to_int32 (to_uint32 x) ≡ x
unfolding to_int32 to_uint32
to_int32-to_uint32 (pos n) h = ground arith
to_int32-to_uint32 (negsuc n) h = ground arith

pub to_uint32-bound : (x : ℤ) → to_uint32 x < 4294967296
unfolding to_uint32
to_uint32-bound (pos n) = omega arith
to_uint32-bound (negsuc n) = omega arith

pub uint32-put :
    (v : ℕ)
    → v < 4294967296
    → uint32 (v / 16777216 % 256) (v / 65536 % 256) (v / 256 % 256) (v % 256) ≡ v
unfolding uint32
uint32-put v h = omega arith
