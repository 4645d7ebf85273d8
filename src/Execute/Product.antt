-- ===== src/Execute/Product.antt =====
-- The multiplications of src/cpu/execute.rs against the product of natural numbers.
use native.Mathlib.Nat.{mul-le-mul}
use risc_v_business.Base.{
  ℕ, ◌+◌, ◌-◌, ◌*◌, ◌/◌, ◌%◌, ◌^◌, ◌<◌, ◌≤◌, ◌≡◌, ltb, if◌then◌else◌, arith, inl, inr, Bool-cases,
}
use risc_v_business.Execute.Alu.{widen, mul_value, mulh_value, mulhsu_value, mulhu_value}

-- The halves of a product of 128 bits that differs from `x` by multiples of 2 ^ 64 and of 2 ^ 128.
halves :
    (p t x k : ℕ)
    → x < 2 ^ 128
    → p + 2 ^ 64 * t ≡ x + 2 ^ 128 * k
    → ((p % 2 ^ 128 / 2 ^ 64 + t) % 2 ^ 64 ≡ x / 2 ^ 64) × (p % 2 ^ 128 % 2 ^ 64 ≡ x % 2 ^ 64)
halves p t x k hx e = (omega (arith, hx, e), omega (arith, hx, e))

-- What a signed reading takes from the upper half.
abbrev pub borrow : ℕ → ℕ → ℕ
borrow a b = if ltb a (2 ^ 63) then 0 else b

widen_both :
    (a b : ℕ)
    → (k : ℕ) × (widen a * widen b + 2 ^ 64 * (borrow a b + borrow b a) ≡ a * b + 2 ^ 128 * k)
widen_both a b = elim (Bool-cases (ltb a (2 ^ 63))) [
  | inl p ↦ elim (Bool-cases (ltb b (2 ^ 63))) [
    | inl q ↦ (0, rw (p, q) (omega arith))
    | inr q ↦ (a, rw (p, q) (omega arith))
  ]
  | inr p ↦ elim (Bool-cases (ltb b (2 ^ 63))) [
    | inl q ↦ (b, rw (p, q) (omega arith))
    | inr q ↦ (a + b + (2 ^ 64 - 1) * (2 ^ 64 - 1), rw (p, q) (omega arith))
  ]
]

widen_first : (a b : ℕ) → (k : ℕ) × (widen a * b + 2 ^ 64 * borrow a b ≡ a * b + 2 ^ 128 * k)
widen_first a b = elim (Bool-cases (ltb a (2 ^ 63))) [
  | inl p ↦ (0, rw p (omega arith))
  | inr p ↦ (b, rw p (omega arith))
]

product-lt : (a b : ℕ) → a < 2 ^ 64 → b < 2 ^ 64 → a * b < 2 ^ 128
product-lt a b ha hb =
    let h : a * b ≤ 0xFFFF_FFFF_FFFF_FFFF * 0xFFFF_FFFF_FFFF_FFFF =
      mul-le-mul {n₂ = 0xFFFF_FFFF_FFFF_FFFF} {m₂ = 0xFFFF_FFFF_FFFF_FFFF} (omega (arith, ha))
        (omega (arith, hb)) in
    omega (arith, h)

-- The upper half of the unsigned product, then its lower half: MULHU and MUL of two `u64` together
-- give the product.
pub mulhu-mul :
    (a b : ℕ) → a < 2 ^ 64 → b < 2 ^ 64 → mulhu_value a b * 2 ^ 64 + mul_value a b ≡ a * b
unfolding mulhu_value mul_value
mulhu-mul a b ha hb =
    let (k, e) = widen_both a b in
    let h =
      halves (widen a * widen b) (borrow a b + borrow b a) (a * b) k (product-lt a b ha hb) e in
    omega (arith, h.1)

-- MULH and MULHSU of two `u64` are MULHU less, modulo 2 ^ 64, the second operand where the first is
-- negative, and for MULH also the first operand where the second is negative.
pub mulh-mulhu :
    (a b : ℕ)
    → a < 2 ^ 64
    → b < 2 ^ 64
    → ((mulh_value a b + (borrow a b + borrow b a)) % 2 ^ 64 ≡ mulhu_value a b)
      × ((mulhsu_value a b + borrow a b) % 2 ^ 64 ≡ mulhu_value a b)
unfolding mulhu_value mulh_value mulhsu_value
mulh-mulhu a b ha hb =
    let hx = product-lt a b ha hb in
    let (k, e) = widen_both a b in
    let (j, d) = widen_first a b in
    (
      (halves (widen a * widen b) (borrow a b + borrow b a) (a * b) k hx e).0,
      (halves (widen a * b) (borrow a b) (a * b) j hx d).0,
    )
