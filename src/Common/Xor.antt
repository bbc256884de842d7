-- ===== src/Common/Xor.antt =====
-- The exclusive or of bytes, by a check of all pairs.
use Prim.Native.Nat.{ℕ, zero, suc, ◌<◌, bit_xor}
use mathlib.Core.Path.{◌≡◌, refl}
use mathlib.Core.Bool.{Bool, true, false, ◌&&◌}
use native.Mathlib.Omega.{arith}
use jornada_link.Common.Tests.{ltb, ◌==◌, if◌then◌else◌}

-- The test holds of every number below the bound.
unfoldable pub holds_on : (ℕ → Bool) → ℕ → Bool
holds_on test zero = true
holds_on test (suc count) = if test count then holds_on test count else false

pub holds_on-at :
    (test : ℕ → Bool) (count x : ℕ) → x < count → holds_on test count ≡ true → test x ≡ true
unfolding holds_on
holds_on-at test zero x lt all = absurd (omega arith)
holds_on-at test (suc count) x lt all = ground (arith, holds_on-at test count x)

xor_check : ℕ → ℕ → Bool
xor_check k x = bit_xor (bit_xor x k) k == x && ltb (bit_xor x k) 256

xor_table : holds_on (λ k. holds_on (λ x. xor_check k x) 256) 256 ≡ true
unfolding holds_on xor_check
xor_table = refl

xor_checked : (x k : ℕ) → x < 256 → k < 256 → xor_check k x ≡ true
xor_checked x k hx hk =
    holds_on-at (λ y. xor_check k y) 256 x hx
      (holds_on-at (λ j. holds_on (λ y. xor_check j y) 256) 256 k hk xor_table)

pub xor_self_inverse : (x k : ℕ) → x < 256 → k < 256 → bit_xor (bit_xor x k) k ≡ x
unfolding xor_check
xor_self_inverse x k hx hk = ground (arith, xor_checked x k hx hk)

pub xor-lt : (x k : ℕ) → x < 256 → k < 256 → bit_xor x k < 256
unfolding xor_check
xor-lt x k hx hk = ground (arith, xor_checked x k hx hk)
