-- ===== src/Base/Bits/Step.antt =====
-- The native bit operations are a recursion on digits whose fuel is the first number. What each
-- does to the lowest digit, with no fuel.
use Prim.Native.Nat.{
  ℕ, zero, suc, ◌+◌, ◌*◌, ◌/◌, ◌%◌, ◌≤◌, min, max, bit_and, bit_or, bit_xor, digits,
  bit_and-bitwise, bit_or-bitwise, bit_xor-bitwise, differ,
}
use mathlib.Core.Path.{◌≡◌, refl, ap}
use native.Mathlib.Omega.{arith}

module _ (last : ℕ → ℕ) (op : ℕ → ℕ → ℕ) where
  -- Any fuel from the first number on gives the same digits.
  enough : (f g a b : ℕ) → a ≤ f → a ≤ g → digits last op f a b ≡ digits last op g a b
  enough zero zero zero b p q = refl
  enough zero (suc g) zero b p q = refl
  enough (suc f) zero zero b p q = refl
  enough (suc f) (suc g) zero b p q = refl
  enough zero g (suc a) b p q = absurd (omega arith)
  enough (suc f) zero (suc a) b p q = absurd (omega arith)
  enough (suc f) (suc g) (suc a) b p q =
      ap (λ t. t * 2 + op (suc a % 2) (b % 2))
        (enough f g (suc a / 2) (b / 2) (omega arith) (omega arith))

  -- The lowest digits apart from the rest, where `last` has the same form.
  apart :
      ((n : ℕ) → last n ≡ last (n / 2) * 2 + op 0 (n % 2))
      → (x y : ℕ)
      → digits last op x x y ≡ digits last op (x / 2) (x / 2) (y / 2) * 2 + op (x % 2) (y % 2)
  apart h zero y = h y
  apart h (suc x) y =
      ap (λ t. t * 2 + op (suc x % 2) (y % 2))
        (enough x (suc x / 2) (suc x / 2) (y / 2) (omega arith) (omega arith))

pub bit_xor_step : (x y : ℕ) → bit_xor x y ≡ bit_xor (x / 2) (y / 2) * 2 + differ (x % 2) (y % 2)
bit_xor_step x y = simp bit_xor-bitwise (apart (λ n. n) differ (λ n. omega arith) x y)

pub bit_or_step : (x y : ℕ) → bit_or x y ≡ bit_or (x / 2) (y / 2) * 2 + max (x % 2) (y % 2)
bit_or_step x y = simp bit_or-bitwise (apart (λ n. n) max (λ n. omega arith) x y)

pub bit_and_step : (x y : ℕ) → bit_and x y ≡ bit_and (x / 2) (y / 2) * 2 + min (x % 2) (y % 2)
bit_and_step x y = simp bit_and-bitwise (apart (λ n. 0) min (λ n. omega arith) x y)

-- With no digit on the right, `&` gives nothing.
bit_and-zero_below : (f a : ℕ) → a ≤ f → bit_and a 0 ≡ 0
bit_and-zero_below zero a h = ap (λ t. bit_and t 0) {x = a} {y = 0} (omega arith)
bit_and-zero_below (suc f) zero h = refl
bit_and-zero_below (suc f) (suc a) h =
    omega (arith, bit_and_step (suc a) 0, bit_and-zero_below f (suc a / 2) (omega arith))

pub bit_and-zero : (a : ℕ) → bit_and a 0 ≡ 0
bit_and-zero a = bit_and-zero_below a a (omega arith)

pub zero-bit_and : (b : ℕ) → bit_and 0 b ≡ 0
zero-bit_and b = bit_and-bitwise 0 b

pub zero-bit_or : (b : ℕ) → bit_or 0 b ≡ b
zero-bit_or b = bit_or-bitwise 0 b
