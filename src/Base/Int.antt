-- ===== src/Base/Int.antt =====
-- Signed 16- and 32-bit integers: the number, and the bit pattern that a cast to unsigned gives.
use Prim.Native.Nat.{ℕ, ◌-◌, ◌%◌, ◌<◌}
use mathlib.Core.Path.{◌≡◌}
use native.Mathlib.Omega.{arith}
use can_lite.Base.Tests.{ltb, if◌then◌else◌}

-- `negsuc n` is -(n + 1).
pub data ℤ : Type 0 where
  pos : ℕ → ℤ
  negsuc : ℕ → ℤ

-- The value is in the range of a signed integer of which `half` is 2 ^ (width - 1).
abbrev pub InRange : ℕ → ℤ → Type 0
InRange half (pos n) = n < half
InRange half (negsuc n) = n < half

-- static_cast<uint16_t> of an int16_t, and static_cast<uint32_t> of an int32_t.
abbrev pub to_u16 : ℤ → ℕ
to_u16 (pos n) = n % 65536
to_u16 (negsuc n) = 65535 - n % 65536

abbrev pub to_u32 : ℤ → ℕ
to_u32 (pos n) = n % 4294967296
to_u32 (negsuc n) = 4294967295 - n % 4294967296

-- static_cast<int16_t> of a uint16_t, and static_cast<int32_t> of a uint32_t.
abbrev pub from_u16 : ℕ → ℤ
from_u16 n = if ltb n 32768 then pos n else negsuc (65535 - n)

abbrev pub from_u32 : ℕ → ℤ
from_u32 n = if ltb n 2147483648 then pos n else negsuc (4294967295 - n)

pub from_u16-to_u16 : (z : ℤ) → InRange 32768 z → from_u16 (to_u16 z) ≡ z
from_u16-to_u16 (pos n) h = ground arith
from_u16-to_u16 (negsuc n) h = ground arith

pub from_u32-to_u32 : (z : ℤ) → InRange 2147483648 z → from_u32 (to_u32 z) ≡ z
from_u32-to_u32 (pos n) h = ground arith
from_u32-to_u32 (negsuc n) h = ground arith

pub to_u16-lt : (z : ℤ) → to_u16 z < 65536
to_u16-lt (pos n) = omega arith
to_u16-lt (negsuc n) = omega arith

pub to_u32-lt : (z : ℤ) → to_u32 z < 4294967296
to_u32-lt (pos n) = omega arith
to_u32-lt (negsuc n) = omega arith
