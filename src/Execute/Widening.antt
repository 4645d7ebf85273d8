-- ===== src/Execute/Widening.antt =====
-- Division of src/cpu/execute.rs in a wider format than that of its operands.
use mathlib.Core.Path.{ap₂}
use native.Mathlib.Nat.{div-le_self, div-mul-le_self, mul-le-mul, mod-lt}
use risc_v_business.Base.{
  ℕ, ◌+◌, ◌-◌, ◌*◌, ◌/◌, ◌%◌, ◌^◌, ◌<◌, ◌≤◌, ◌≡◌, ◌≢◌, inl, inr, ap, ◌∙◌, Bool, Bool-cases, true,
  false, ltb, ◌==◌, ◌&&◌, if◌then◌else◌, arith, u32, u64, max_u64,
}
use risc_v_business.Execute.Alu.{sext, widen, negate, is_negative, magnitude, quotient, remainder}

pub widen-is_negative : (a : ℕ) → a < 2 ^ 64 → is_negative 128 (widen a) ≡ is_negative 64 a
widen-is_negative a h = ground (arith, h)

pub widen-magnitude : (a : ℕ) → a < 2 ^ 64 → magnitude 128 (widen a) ≡ magnitude 64 a
widen-magnitude a h = ground (arith, h)

pub sext-is_negative : (x : ℕ) → x < 2 ^ 32 → is_negative 64 (sext x 31) ≡ is_negative 32 x
unfolding sext
sext-is_negative x h = ground (arith, h)

pub sext-magnitude : (x : ℕ) → x < 2 ^ 32 → magnitude 64 (sext x 31) ≡ magnitude 32 x
unfolding sext
sext-magnitude x h = ground (arith, h)

-- A quotient of magnitudes, with the sign of two operands.
abbrev signed : ℕ → Bool → Bool → ℕ → ℕ
signed w s t q = if s then (if t then q else negate w q) else if t then negate w q else q

signed_128 : (s t : Bool) (q : ℕ) → q < 2 ^ 64 → u64 (signed 128 s t q) ≡ signed 64 s t q
signed_128 s t q h = ground (arith, h)

signed_64 : (s t : Bool) (q : ℕ) → q < 2 ^ 32 → u32 (signed 64 s t q) ≡ u32 (signed 32 s t q)
signed_64 s t q h = ground (arith, h)

magnitude-le : (a : ℕ) → a < 2 ^ 64 → magnitude 64 a ≤ 2 ^ 63
magnitude-le a h = ground (arith, h)

magnitude_32-le : (a : ℕ) → a < 2 ^ 32 → magnitude 32 a ≤ 2 ^ 31
magnitude_32-le a h = ground (arith, h)

-- The same division in two formats, of operands that have the same signs and magnitudes.
pub quotient-signed :
    (w v a b x y : ℕ)
    → is_negative w x ≡ is_negative v a
    → is_negative w y ≡ is_negative v b
    → magnitude w x ≡ magnitude v a
    → magnitude w y ≡ magnitude v b
    → quotient w x y ≡ signed w (is_negative v a) (is_negative v b) (magnitude v a / magnitude v b)
unfolding quotient
quotient-signed w v a b x y na nb ma mb =
    ap₂ (λ s t. signed w s t (magnitude w x / magnitude w y)) na nb
    ∙ ap₂ (λ m n. signed w (is_negative v a) (is_negative v b) (m / n)) ma mb

pub remainder-signed :
    (w v a b x y : ℕ)
    → is_negative w x ≡ is_negative v a
    → magnitude w x ≡ magnitude v a
    → magnitude w y ≡ magnitude v b
    → remainder w x y ≡ signed w (is_negative v a) false (magnitude v a % magnitude v b)
unfolding remainder
remainder-signed w v a b x y na ma mb =
    ap (λ s. signed w s false (magnitude w x % magnitude w y)) na
    ∙ ap₂ (λ m n. signed w (is_negative v a) false (m % n)) ma mb

magnitude-ne : (a : ℕ) → a < 2 ^ 64 → a ≢ 0 → magnitude 64 a ≢ 0
magnitude-ne a h n p = n (ground (arith, h, p))

-- A quotient that is as large as the least number comes from the least number and a divisor of
-- magnitude 1.
quotient-lt : (m n : ℕ) → m ≤ 2 ^ 63 → n ≢ 0 → n ≢ 1 → m / n < 2 ^ 63
quotient-lt m n h h0 h1 = omega (
  arith,
  h,
  div-mul-le_self m n,
  mul-le-mul {n₁ = m / n} {m₁ = 2} {n₂ = m / n} {m₂ = n} (omega arith) (omega (arith, h0, h1)),
)

signed-fits : (s t : Bool) (q : ℕ) → q < 2 ^ 63 → widen (u64 (signed 128 s t q)) ≡ signed 128 s t q
signed-fits s t q h = ground (arith, h)

opposite-fits :
    (s t : Bool) (q : ℕ)
    → s ≡ true
    → t ≡ false
    → q ≤ 2 ^ 63
    → widen (u64 (signed 128 s t q)) ≡ signed 128 s t q
opposite-fits s t q hs ht h = rw (hs, ht) (ground (arith, h))

module _ (a b : ℕ) (ha : a < 2 ^ 64) (hb : b < 2 ^ 64) where
  wide :
      quotient 128 (widen a) (widen b)
      ≡ signed 128 (is_negative 64 a) (is_negative 64 b) (magnitude 64 a / magnitude 64 b)
  wide =
      quotient-signed 128 64 a b (widen a) (widen b) (widen-is_negative a ha)
        (widen-is_negative b hb) (widen-magnitude a ha) (widen-magnitude b hb)

  pub u64-quotient : u64 (quotient 128 (widen a) (widen b)) ≡ quotient 64 a b
  unfolding quotient
  u64-quotient =
      ap u64 wide
      ∙ signed_128 (is_negative 64 a) (is_negative 64 b) (magnitude 64 a / magnitude 64 b)
          (omega (arith, div-le_self (magnitude 64 a) (magnitude 64 b), magnitude-le a ha))

  pub u64-remainder : b ≢ 0 → u64 (remainder 128 (widen a) (widen b)) ≡ remainder 64 a b
  unfolding remainder
  u64-remainder n =
      ap u64 (
        remainder-signed 128 64 a b (widen a) (widen b) (widen-is_negative a ha)
          (widen-magnitude a ha) (widen-magnitude b hb))
      ∙ signed_128 (is_negative 64 a) false (magnitude 64 a % magnitude 64 b) (
          omega (
            arith,
            mod-lt (magnitude 64 a) {m = magnitude 64 b} (omega (arith, magnitude-ne b hb n)),
            magnitude-le b hb,
          ))

  -- The quotient fits into 64 bits but for the least number by -1.
  pub quotient-fits :
      b ≢ 0
      → (a == 2 ^ 63 && b == max_u64) ≡ false
      → widen (u64 (quotient 128 (widen a) (widen b))) ≡ quotient 128 (widen a) (widen b)
  quotient-fits n g = rw wide (elim (Bool-cases (ltb (magnitude 64 a / magnitude 64 b) (2 ^ 63))) [
    | inl t ↦
        signed-fits (is_negative 64 a) (is_negative 64 b) (magnitude 64 a / magnitude 64 b)
          (ground (arith, t))
    | inr t ↦
        let big : 2 ^ 63 ≤ magnitude 64 a / magnitude 64 b = ground (arith, t) in
        let (na, nb) = overflow-signs big in
        opposite-fits (is_negative 64 a) (is_negative 64 b) (magnitude 64 a / magnitude 64 b) na nb
          (omega (arith, div-le_self (magnitude 64 a) (magnitude 64 b), magnitude-le a ha))
  ])
    where
      overflow-signs :
          2 ^ 63 ≤ magnitude 64 a / magnitude 64 b
          → (is_negative 64 a ≡ true) × (is_negative 64 b ≡ false)
      overflow-signs big =
          let le = magnitude-le a ha in
          let whole = div-le_self (magnitude 64 a) (magnitude 64 b) in
          let one : magnitude 64 b ≡ 1 = elim (Bool-cases (magnitude 64 b == 1)) [
            | inl o ↦ ground (arith, o)
            | inr o ↦ absurd (
                omega (
                  arith,
                  big,
                  quotient-lt (magnitude 64 a) (magnitude 64 b) le (magnitude-ne b hb n)
                      (ground (arith, o)),
                ))
          ] in
          let ea : a ≡ 2 ^ 63 = ground (arith, ha, big, whole, le) in
          let eb : b ≡ 1 = ground (arith, hb, one, ea, g) in
          (ground (arith, ea), ground (arith, eb))

-- The dividend that `cqo` makes of a 64-bit number.
abbrev pub dividend : ℕ → ℕ
dividend a = (if ltb a (2 ^ 63) then 0 else max_u64) * 2 ^ 64 + a

dividend-widen : (a : ℕ) → a < 2 ^ 64 → dividend a ≡ widen a
dividend-widen a h = ground (arith, h)

eq-true : (x y : ℕ) → x ≡ y → (x == y) ≡ true
eq-true x y p = ground (arith, p)

module _ (a b : ℕ) (ha : a < 2 ^ 64) (hb : b < 2 ^ 64) (n : (b == 0) ≡ false) where
  pub idiv-fits :
      (a == 2 ^ 63 && b == max_u64) ≡ false
      → (widen (u64 (quotient 128 (dividend a) (widen b))) == quotient 128 (dividend a) (widen b))
        ≡ true
  idiv-fits g =
      ap (λ x. widen (u64 (quotient 128 x (widen b))) == quotient 128 x (widen b))
        (dividend-widen a ha)
      ∙ eq-true (widen (u64 (quotient 128 (widen a) (widen b)))) (quotient 128 (widen a) (widen b))
          (quotient-fits a b ha hb (ground (arith, n)) g)

  pub idiv-quotient : u64 (quotient 128 (dividend a) (widen b)) ≡ quotient 64 a b
  idiv-quotient =
      ap (λ x. u64 (quotient 128 x (widen b))) (dividend-widen a ha) ∙ u64-quotient a b ha hb

  pub idiv-remainder : u64 (remainder 128 (dividend a) (widen b)) ≡ remainder 64 a b
  idiv-remainder =
      ap (λ x. u64 (remainder 128 x (widen b))) (dividend-widen a ha)
      ∙ u64-remainder a b ha hb (ground (arith, n))

-- Division of 32-bit numbers in 64 bits.
module _ (a b : ℕ) (ha : a < 2 ^ 32) (hb : b < 2 ^ 32) where
  pub u32-quotient : u32 (quotient 64 (sext a 31) (sext b 31)) ≡ u32 (quotient 32 a b)
  unfolding quotient
  u32-quotient =
      ap u32 (
        quotient-signed 64 32 a b (sext a 31) (sext b 31) (sext-is_negative a ha)
          (sext-is_negative b hb) (sext-magnitude a ha) (sext-magnitude b hb))
      ∙ signed_64 (is_negative 32 a) (is_negative 32 b) (magnitude 32 a / magnitude 32 b)
          (omega (arith, div-le_self (magnitude 32 a) (magnitude 32 b), magnitude_32-le a ha))

  pub u32-remainder :
      (b == 0) ≡ false → u32 (remainder 64 (sext a 31) (sext b 31)) ≡ u32 (remainder 32 a b)
  unfolding remainder
  u32-remainder n =
      ap u32 (
        remainder-signed 64 32 a b (sext a 31) (sext b 31) (sext-is_negative a ha)
          (sext-magnitude a ha) (sext-magnitude b hb))
      ∙ signed_64 (is_negative 32 a) false (magnitude 32 a % magnitude 32 b) (
          omega (
            arith,
            mod-lt (magnitude 32 a) {m = magnitude 32 b} (ground (arith, hb, n)),
            magnitude_32-le b hb,
          ))

-- The tests of a division on a sign-extended number.
pub sext-lt : (x : ℕ) → x < 2 ^ 32 → sext x 31 < 2 ^ 64
unfolding sext
sext-lt x h = ground (arith, h)

pub sext-zero : (x : ℕ) → x < 2 ^ 32 → (sext x 31 == 0) ≡ (x == 0)
unfolding sext
sext-zero x h = ground (arith, h)

pub sext-least : (x : ℕ) → x < 2 ^ 32 → (sext x 31 == 2 ^ 64 - 2 ^ 31) ≡ (x == 2 ^ 31)
unfolding sext
sext-least x h = ground (arith, h)

pub sext-max : (x : ℕ) → x < 2 ^ 32 → (sext x 31 == max_u64) ≡ (x == 2 ^ 32 - 1)
unfolding sext
sext-max x h = ground (arith, h)

pub sext-least_64 : (x : ℕ) → x < 2 ^ 32 → (sext x 31 == 2 ^ 63) ≡ false
unfolding sext
sext-least_64 x h = ground (arith, h)

pub u32-sext : (x : ℕ) → x < 2 ^ 32 → u32 (sext x 31) ≡ x
unfolding sext
u32-sext x h = ground (arith, h)

-- A quotient and a remainder of 32 bits need no cut.
pub quotient-small : (a b : ℕ) → a < 2 ^ 32 → b < 2 ^ 32 → u32 (quotient 32 a b) ≡ quotient 32 a b
unfolding quotient
quotient-small a b ha hb =
    ground (arith, ha, hb, div-le_self (magnitude 32 a) (magnitude 32 b), magnitude_32-le a ha)

pub remainder-small :
    (a b : ℕ)
    → a < 2 ^ 32
    → b < 2 ^ 32
    → (b == 0) ≡ false
    → u32 (remainder 32 a b) ≡ remainder 32 a b
unfolding remainder
remainder-small a b ha hb n = ground (
  arith,
  ha,
  mod-lt (magnitude 32 a) {m = magnitude 32 b} (ground (arith, hb, n)),
  magnitude_32-le b hb,
)
