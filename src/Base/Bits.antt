-- ===== src/Base/Bits.antt =====
-- Shifts, masks and disjoint fields of unsigned words, as arithmetic that `omega` reads.
use Prim.Native.Nat.{
  ℕ, zero, suc, ◌+◌, ◌-◌, ◌*◌, ◌/◌, ◌%◌, ◌^◌, ◌≤◌, ◌<◌, min, max, bit_and, bit_or, digits,
  bit_and-bitwise, bit_or-bitwise,
}
use mathlib.Core.Path.{◌≡◌, refl, sym, ap, ◌∙◌}
use native.Mathlib.Omega.{arith}
use native.Mathlib.Nat.{pow-suc, one-le-pow, div-div-eq-div-mul}

-- `x << k` (before the result is cut to its width) and `x >> k`.
abbrev pub shl : ℕ → ℕ → ℕ
shl x k = x * 2 ^ k

abbrev pub shr : ℕ → ℕ → ℕ
shr x k = x / 2 ^ k

abbrev pub u8 : ℕ → ℕ
u8 n = n % 256

abbrev pub u16 : ℕ → ℕ
u16 n = n % 65536

abbrev pub u32 : ℕ → ℕ
u32 n = n % 4294967296

-- Both operations are recursions on the bits: `bitwise keep join fuel a b`.
module _ (keep : ℕ → ℕ) (join : ℕ → ℕ → ℕ) where
  enough : (x y n m : ℕ) → x ≤ m → x ≤ n → digits keep join n x y ≡ digits keep join m x y
  enough zero zero (suc n) zero below_m below_n = refl
  enough zero zero (suc n) (suc m) below_m below_n = refl
  enough zero y zero zero below_m below_n = refl
  enough zero y zero (suc m) below_m below_n = refl
  enough zero (suc y) (suc n) zero below_m below_n = refl
  enough zero (suc y) (suc n) (suc m) below_m below_n = refl
  enough (suc x) y n zero below_m below_n = absurd (omega arith)
  enough (suc x) y zero (suc m) below_m below_n = absurd (omega arith)
  enough (suc x) y (suc n) (suc m) below_m below_n =
      omega (arith, enough (suc x / 2) (y / 2) n m (omega arith) (omega arith))

  -- One digit, with as much fuel for the rest as its first argument.
  halve :
      (x y : ℕ)
      → digits keep join (suc x) (suc x) y
        ≡ digits keep join (suc x / 2) (suc x / 2) (y / 2) * 2 + join (suc x % 2) (y % 2)
  halve x y = omega (arith, enough (suc x / 2) (y / 2) x (suc x / 2) (omega arith) (omega arith))

zero-bit_or : (y : ℕ) → bit_or 0 y ≡ y
zero-bit_or y = bit_or-bitwise 0 y

bit_or_step : (x y : ℕ) → bit_or x y ≡ bit_or (x / 2) (y / 2) * 2 + max (x % 2) (y % 2)
bit_or_step zero y = ground (arith, zero-bit_or y, zero-bit_or (y / 2))
bit_or_step (suc x) y =
    bit_or-bitwise (suc x) y
    ∙ halve (λ d. d) max x y
    ∙ omega (arith, bit_or-bitwise (suc x / 2) (y / 2))

zero-bit_and : (y : ℕ) → bit_and 0 y ≡ 0
zero-bit_and y = bit_and-bitwise 0 y

bit_and_step : (x y : ℕ) → bit_and x y ≡ bit_and (x / 2) (y / 2) * 2 + min (x % 2) (y % 2)
bit_and_step zero y = ground (arith, zero-bit_and y, zero-bit_and (y / 2))
bit_and_step (suc x) y =
    bit_and-bitwise (suc x) y
    ∙ halve (λ d. zero) min x y
    ∙ omega (arith, bit_and-bitwise (suc x / 2) (y / 2))

bit_or-zero_below : (x bound : ℕ) → x ≤ bound → bit_or x 0 ≡ x
bit_or-zero_below zero bound below = zero-bit_or 0
bit_or-zero_below (suc x) zero below = absurd (omega arith)
bit_or-zero_below (suc x) (suc bound) below =
    ground (arith, bit_or-zero_below (suc x / 2) bound (omega arith), bit_or_step (suc x) 0)

bit_and-zero_below : (x bound : ℕ) → x ≤ bound → bit_and x 0 ≡ 0
bit_and-zero_below zero bound below = zero-bit_and 0
bit_and-zero_below (suc x) zero below = absurd (omega arith)
bit_and-zero_below (suc x) (suc bound) below =
    ground (arith, bit_and-zero_below (suc x / 2) bound (omega arith), bit_and_step (suc x) 0)

shl_suc : (a k : ℕ) → a * 2 ^ suc k ≡ 2 * (a * 2 ^ k)
shl_suc a k = omega (arith, ap (λ (t : ℕ). a * t) (pow-suc 2 k))

-- `|` of two fields that share no bit is their sum.
pub bit_or_disjoint : (k a b : ℕ) → b < 2 ^ k → bit_or (shl a k) b ≡ shl a k + b
bit_or_disjoint zero a b h = ground (arith, bit_or-zero_below a a)
bit_or_disjoint (suc k) a b h =
    ground
      (arith, bit_or_step (a * 2 ^ suc k) b, shl_suc a k, bit_or_disjoint k a (b / 2) (omega arith))

low_field : (k a b : ℕ) → b < 2 ^ k → bit_and (shl a k + b) (2 ^ k - 1) ≡ b
low_field zero a b h =
    omega (arith, bit_and-zero_below (a * 2 ^ 0 + b) (a * 2 ^ 0 + b) (omega arith))
low_field (suc k) a b h = ground (
  arith,
  bit_and_step (a * 2 ^ suc k + b) (2 ^ suc k - 1),
  shl_suc a k,
  pow-suc 2 k,
  low_field k a (b / 2) (omega arith),
)

-- `&` with `k` ones keeps the low `k` bits.
pub bit_and_mask : (k a : ℕ) → bit_and a (2 ^ k - 1) ≡ a % 2 ^ k
bit_and_mask k a = ground (arith, one-le-pow k 2, low_field k (a / 2 ^ k) (a % 2 ^ k))

-- The same where the high part is known only as a multiple of `2 ^ k`.
pub bit_or_add : (k x b : ℕ) → x % 2 ^ k ≡ 0 → b < 2 ^ k → bit_or x b ≡ x + b
bit_or_add k x b e h = ground (arith, bit_or_disjoint k (x / 2 ^ k) b)

bit_or_comm_below : (x y bound : ℕ) → x ≤ bound → bit_or x y ≡ bit_or y x
bit_or_comm_below zero y bound below = zero-bit_or y ∙ sym (bit_or-zero_below y y (omega arith))
bit_or_comm_below (suc x) y zero below = absurd (omega arith)
bit_or_comm_below (suc x) y (suc bound) below = ground (
  arith,
  bit_or_comm_below (suc x / 2) (y / 2) bound (omega arith),
  bit_or_step (suc x) y,
  bit_or_step y (suc x),
)

-- `|` of a low field and a high one.
pub bit_or_low : (k x b : ℕ) → x % 2 ^ k ≡ 0 → b < 2 ^ k → bit_or b x ≡ b + x
bit_or_low k x b e h = omega (arith, bit_or_comm_below b x b, bit_or_add k x b e h)

half_power : (k : ℕ) → (2 ^ suc k / 2 ≡ 2 ^ k) × (2 ^ suc k % 2 ≡ 0)
half_power k = (omega (arith, pow-suc 2 k), omega (arith, pow-suc 2 k))

shift_once : (x k : ℕ) → x / 2 / 2 ^ k ≡ x / 2 ^ suc k
shift_once x k = div-div-eq-div-mul x 2 (2 ^ k) ∙ ap (λ (n : ℕ). x / n) (omega (arith, pow-suc 2 k))

twice : (a b : ℕ) → a * (b * 2) ≡ a * b * 2
twice a b = grind arith

-- `&` with one bit.
pub bit_and_bit : (k x : ℕ) → bit_and x (2 ^ k) ≡ x / 2 ^ k % 2 * 2 ^ k
bit_and_bit zero x = bit_and_mask 1 x ∙ omega arith
bit_and_bit (suc k) x =
    let (half, even) = half_power k in
    omega (
      arith,
      bit_and_step x (2 ^ suc k),
      ap (bit_and (x / 2)) half,
      bit_and_bit k (x / 2),
      ap (λ (n : ℕ). n % 2 * 2 ^ k) (shift_once x k),
      even,
      ap (λ (n : ℕ). x / 2 ^ suc k % 2 * n) (pow-suc 2 k),
      twice (x / 2 ^ suc k % 2) (2 ^ k),
    )
