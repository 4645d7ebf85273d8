-- ===== src/Base/Bits/Laws.antt =====
-- `&` and `|`, bit by bit.
use Prim.Native.Nat.{
  ℕ, zero, suc, ◌+◌, ◌-◌, ◌*◌, ◌/◌, ◌%◌, ◌^◌, ◌<◌, min, max, bit_and, bit_or, bit_xor, differ,
}
use mathlib.Core.Path.{◌≡◌, refl, ap, ap₂}
use native.Mathlib.Nat.{pow-suc, one-le-pow, mod_def, div-add-mod, div-div-eq-div-mul}
use native.Mathlib.Omega.{arith}
use risc_v_business.Base.Bits.Step.{
  bit_and_step, bit_or_step, bit_xor_step, bit_and-zero, zero-bit_and, zero-bit_or,
}
use mathlib.Core.Bool.{not}
use risc_v_business.Base.Tests.{◌==◌}
use risc_v_business.Base.Bits.Numeric.{bit, bit-suc, bit-zero, bit-lt}

pub bit-bit_and : (k a b : ℕ) → bit k (bit_and a b) ≡ min (bit k a) (bit k b)
bit-bit_and zero a b = omega (arith, bit_and_step a b)
bit-bit_and (suc k) a b =
    rw (bit-suc k (bit_and a b), bit-suc k a, bit-suc k b, ← bit-bit_and k (a / 2) (b / 2))
      (ap (bit k) (omega (arith, bit_and_step a b)))

pub bit-bit_or : (k a b : ℕ) → bit k (bit_or a b) ≡ max (bit k a) (bit k b)
bit-bit_or zero a b = omega (arith, bit_or_step a b)
bit-bit_or (suc k) a b =
    rw (bit-suc k (bit_or a b), bit-suc k a, bit-suc k b, ← bit-bit_or k (a / 2) (b / 2))
      (ap (bit k) (omega (arith, bit_or_step a b)))

mod-two_mul : (a m : ℕ) → a % (2 * m) ≡ a % 2 + 2 * (a / 2 % m)
mod-two_mul a m = omega (
  arith,
  mod_def a (2 * m),
  mod_def (a / 2) m,
  div-add-mod (a / 2) m,
  ap (λ (t : ℕ). 2 * m * t) (div-div-eq-div-mul a 2 m),
)

pub bit_and-one : (a : ℕ) → bit_and a 1 ≡ a % 2
bit_and-one a = omega (arith, bit_and_step a 1, bit_and_step (a / 2) 0, bit_and-zero (a / 2))

-- `&` and `|` stay within the width of their arguments.
pub bit_and-lt : (n a b : ℕ) → a < 2 ^ n → bit_and a b < 2 ^ n
bit_and-lt zero a b h =
    omega (arith, ap (λ t. bit_and t b) {x = a} {y = 0} (omega arith), zero-bit_and b)
bit_and-lt (suc n) a b h = omega (
  arith,
  bit_and_step a b,
  bit_and-lt n (a / 2) (b / 2) (omega (arith, pow-suc 2 n)),
  pow-suc 2 n,
)

pub bit_or-lt : (n a b : ℕ) → a < 2 ^ n → b < 2 ^ n → bit_or a b < 2 ^ n
bit_or-lt zero a b ha hb =
    omega
      (arith, ap₂ bit_or {x = a} {y = 0} {u = b} {v = 0} (omega arith) (omega arith), zero-bit_or 0)
bit_or-lt (suc n) a b ha hb = omega (
  arith,
  bit_or_step a b,
  bit_or-lt n (a / 2) (b / 2) (omega (arith, pow-suc 2 n)) (omega (arith, pow-suc 2 n)),
  pow-suc 2 n,
)

pub bit_and_three : (a : ℕ) → bit_and a 3 ≡ a % 4
bit_and_three a = omega (arith, bit_and_step a 3, bit_and-one (a / 2))

pub bit_and-not_one : (a : ℕ) → bit_and a (2 ^ 64 - 1 - 1) % 2 ≡ 0
bit_and-not_one a = omega (arith, bit_and_step a (2 ^ 64 - 1 - 1))

pub bit_and-not_three : (a : ℕ) → bit_and a (2 ^ 64 - 1 - 3) % 4 ≡ 0
bit_and-not_three a =
    omega (arith, bit_and_step a (2 ^ 64 - 1 - 3), bit_and_step (a / 2) ((2 ^ 64 - 1 - 3) / 2))

pub bit_and-pow : (k a : ℕ) → bit_and a (2 ^ k) ≡ bit k a * 2 ^ k
bit_and-pow zero a = omega (arith, bit_and-one a, bit-zero a)
bit_and-pow (suc k) a =
    let half : (2 ^ suc k) / 2 ≡ 2 ^ k = omega (arith, pow-suc 2 k) in
    omega (
      arith,
      bit_and_step a (2 ^ suc k),
      ap (bit_and (a / 2)) half,
      bit_and-pow k (a / 2),
      ap₂ (λ (x y : ℕ). x * y) (bit-suc k a) (pow-suc 2 k),
      pow-suc 2 k,
    )

-- A test of one bit under a mask.
pub bit_and-pow_zero : (k a : ℕ) → (bit_and a (2 ^ k) == 0) ≡ not (bit k a == 1)
bit_and-pow_zero k a = ground (arith, bit_and-pow k a, one-le-pow k 2 (omega arith), bit-lt k a)

pub bit_and-lt_right : (n a b : ℕ) → b < 2 ^ n → bit_and a b < 2 ^ n
bit_and-lt_right zero a b h =
    omega (arith, ap (bit_and a) {x = b} {y = 0} (omega arith), bit_and-zero a)
bit_and-lt_right (suc n) a b h = omega (
  arith,
  bit_and_step a b,
  bit_and-lt_right n (a / 2) (b / 2) (omega (arith, pow-suc 2 n)),
  pow-suc 2 n,
)

lt_pow : (n : ℕ) → n < 2 ^ n
lt_pow zero = omega arith
lt_pow (suc n) = omega (arith, lt_pow n, pow-suc 2 n)

differ_self : (d : ℕ) → d < 2 → differ d d ≡ 0
differ_self zero h = refl
differ_self (suc zero) h = refl
differ_self (suc (suc d)) h = absurd (omega (arith, h))

bit_xor_self_lt : (n a : ℕ) → a < 2 ^ n → bit_xor a a ≡ 0
bit_xor_self_lt zero a h = ap (λ t. bit_xor t t) {x = a} {y = 0} (omega arith)
bit_xor_self_lt (suc n) a h = omega (
  arith,
  bit_xor_step a a,
  differ_self (a % 2) (omega arith),
  bit_xor_self_lt n (a / 2) (omega (arith, h, pow-suc 2 n)),
)

pub bit_xor_self : (a : ℕ) → bit_xor a a ≡ 0
bit_xor_self a = bit_xor_self_lt a a (lt_pow a)
