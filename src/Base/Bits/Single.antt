-- ===== src/Base/Bits/Single.antt =====
-- Setting and clearing one bit of a 64-bit register: `x | (1 << j)` and `x & !(1 << j)`.
use Prim.Native.Nat.{ℕ, suc, ◌^◌, ◌<◌, bit_and, bit_or}
use mathlib.Core.Path.{◌≡◌}
use native.Mathlib.Nat.{pow-le-pow_right, pow-suc, one-le-pow}
use native.Mathlib.Omega.{arith}
use risc_v_business.Base.Tests.{◌==◌, if◌then◌else◌}
use risc_v_business.Base.Word.{not64, ◌<<<◌}
use risc_v_business.Base.Bits.Numeric.{
  bit, bit-lt, bit-pow_self, bit-pow_ne, bit-complement, bit_ext,
}
use risc_v_business.Base.Bits.Laws.{bit-bit_and, bit-bit_or, bit_and-lt, bit_or-lt}

pub one-shl : (j : ℕ) → j < 64 → 1 <<< j ≡ 2 ^ j
one-shl j h =
    omega (arith, pow-le-pow_right {n = 2} (omega arith) {i = suc j} {j = 64} h, pow-suc 2 j)

pub pow-lt : (j : ℕ) → j < 64 → 2 ^ j < 2 ^ 64
pow-lt j h = omega (
  arith,
  pow-le-pow_right {n = 2} (omega arith) {i = suc j} {j = 64} h,
  pow-suc 2 j,
  one-le-pow j 2,
)

-- Bit `k` after `x | (1 << j)`.
pub bit-set : (k j x : ℕ) → j < 64 → bit k (bit_or x (1 <<< j)) ≡ (if k == j then 1 else bit k x)
bit-set k j x h =
    ground (arith, one-shl j h, bit-bit_or k x (2 ^ j), bit-pow_self j, bit-pow_ne k j, bit-lt k x)

-- Bit `k` after `x & !(1 << j)`.
pub bit-clear :
    (k j x : ℕ)
    → k < 64
    → j < 64
    → bit k (bit_and x (not64 (1 <<< j))) ≡ (if k == j then 0 else bit k x)
bit-clear k j x hk h =
    rw (one-shl j h, bit-bit_and k x (not64 (2 ^ j)), bit-complement 64 k (2 ^ j) (pow-lt j h) hk)
      (ground (arith, bit-pow_self j, bit-pow_ne k j, bit-lt k x))

-- Clearing a bit that was just set, and was clear before, gives the word back.
pub clear-set :
    (j x : ℕ)
    → j < 64
    → x < 2 ^ 64
    → bit j x ≡ 0
    → bit_and (bit_or x (1 <<< j)) (not64 (1 <<< j)) ≡ x
clear-set j x h hx e =
    let word : bit_or x (1 <<< j) < 2 ^ 64 = bit_or-lt 64 x (1 <<< j) hx (omega arith) in
    bit_ext 64 (bit_and (bit_or x (1 <<< j)) (not64 (1 <<< j))) x
      (bit_and-lt 64 (bit_or x (1 <<< j)) (not64 (1 <<< j)) word) hx
      (λ k hk. rw (bit-clear k j (bit_or x (1 <<< j)) hk h, bit-set k j x h) (ground arith))
