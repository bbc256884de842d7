-- ===== src/Common/XorDigits.antt =====
-- The exclusive or at variables, digit by digit.
use Prim.Native.Nat.{
  ℕ, zero, suc, ◌+◌, ◌*◌, ◌/◌, ◌%◌, ◌^◌, ◌≤◌, ◌<◌, bit_xor, digits, differ, bit_xor-bitwise,
}
use mathlib.Core.Path.{◌≡◌, refl, ap}
use native.Mathlib.Omega.{arith}
use native.Mathlib.Nat.{pow-suc}

abbrev xor_digits : ℕ → ℕ → ℕ → ℕ
xor_digits count = digits (λ rest. rest) differ count

-- More digits than the first number has do not matter.
xor_digits-enough :
    (x y : ℕ) (more less : ℕ) → x ≤ less → x ≤ more → xor_digits more x y ≡ xor_digits less x y
xor_digits-enough zero y zero zero lh mh = refl
xor_digits-enough zero y (suc more) zero lh mh = refl
xor_digits-enough zero y zero (suc less) lh mh = refl
xor_digits-enough zero y (suc more) (suc less) lh mh = refl
xor_digits-enough (suc x) y zero less lh mh = absurd (omega arith)
xor_digits-enough (suc x) y (suc more) zero lh mh = absurd (omega arith)
xor_digits-enough (suc x) y (suc more) (suc less) lh mh =
    omega (arith, xor_digits-enough (suc x / 2) (y / 2) more less (omega arith) (omega arith))

zero-bit_xor : (y : ℕ) → bit_xor 0 y ≡ y
zero-bit_xor y = bit_xor-bitwise 0 y

differ-zero : (y : ℕ) → differ 0 y ≡ y
differ-zero y = refl

pub bit_xor_step : (x y : ℕ) → bit_xor x y ≡ bit_xor (x / 2) (y / 2) * 2 + differ (x % 2) (y % 2)
bit_xor_step zero y = omega (arith, zero-bit_xor y, zero-bit_xor (y / 2))
bit_xor_step (suc x) y = omega (
  arith,
  bit_xor-bitwise (suc x) y,
  bit_xor-bitwise (suc x / 2) (y / 2),
  xor_digits-enough (suc x / 2) (y / 2) x (suc x / 2) (omega arith) (omega arith),
)

differ-lt : (x y : ℕ) → x < 2 → y < 2 → differ x y < 2
differ-lt zero y hx hy = hy
differ-lt (suc zero) zero hx hy = omega arith
differ-lt (suc zero) (suc y) hx hy = omega arith
differ-lt (suc (suc x)) y hx hy = absurd (omega arith)

-- Numbers of at most `n` digits have an exclusive or of at most `n` digits.
pub bit_xor-lt : (n x y : ℕ) → x < 2 ^ n → y < 2 ^ n → bit_xor x y < 2 ^ n
bit_xor-lt zero zero zero hx hy = omega (arith, zero-bit_xor 0)
bit_xor-lt zero (suc x) y hx hy = absurd (omega arith)
bit_xor-lt zero zero (suc y) hx hy = absurd (omega arith)
bit_xor-lt (suc n) x y hx hy = omega (
  arith,
  pow-suc 2 n,
  bit_xor_step x y,
  differ-lt (x % 2) (y % 2) (omega arith) (omega arith),
  bit_xor-lt n (x / 2) (y / 2) (omega (arith, pow-suc 2 n)) (omega (arith, pow-suc 2 n)),
)

differ_zero : (x : ℕ) → differ x 0 ≡ x
differ_zero zero = refl
differ_zero (suc x) = refl

pub bit_xor-zero : (n x : ℕ) → x ≤ n → bit_xor x 0 ≡ x
bit_xor-zero n zero h = zero-bit_xor 0
bit_xor-zero zero (suc x) h = absurd (omega arith)
bit_xor-zero (suc n) (suc x) h = omega (
  arith,
  bit_xor_step (suc x) 0,
  differ_zero (suc x % 2),
  bit_xor-zero n (suc x / 2) (omega arith),
)

-- `h` with `n` zeros behind its digits
abbrev pub shift_up : ℕ → ℕ → ℕ
shift_up zero h = h
shift_up (suc n) h = 2 * shift_up n h

half_up : (q x : ℕ) → (2 * q + x) / 2 ≡ q + x / 2
half_up q x = omega arith

parity_up : (q x : ℕ) → (2 * q + x) % 2 ≡ x % 2
parity_up q x = omega arith

-- What lies above the digits of the second number stays.
pub bit_xor-high :
    (n h x y : ℕ)
    → x < 2 ^ n
    → y < 2 ^ n
    → bit_xor (shift_up n h + x) y ≡ shift_up n h + bit_xor x y
bit_xor-high zero h zero zero hx hy =
    omega (arith, bit_xor-zero (h + 0) (h + 0) (omega arith), bit_xor-zero 0 0 (omega arith))
bit_xor-high zero h (suc x) y hx hy = absurd (omega arith)
bit_xor-high zero h zero (suc y) hx hy = absurd (omega arith)
bit_xor-high (suc n) h x y hx hy = omega (
  arith,
  bit_xor_step (2 * shift_up n h + x) y,
  bit_xor_step x y,
  ap (λ q. bit_xor q (y / 2)) (half_up (shift_up n h) x),
  ap (λ d. differ d (y % 2)) (parity_up (shift_up n h) x),
  bit_xor-high n h (x / 2) (y / 2) (omega (arith, pow-suc 2 n)) (omega (arith, pow-suc 2 n)),
)
