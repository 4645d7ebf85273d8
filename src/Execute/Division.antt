-- ===== src/Execute/Division.antt =====
-- The divisions of src/cpu/execute.rs against the law of division.
use native.Mathlib.Nat.{div-add-mod', div-le_self, mod-lt}
use risc_v_business.Base.{
  ℕ, ◌+◌, ◌*◌, ◌/◌, ◌%◌, ◌^◌, ◌<◌, ◌≤◌, ◌≡◌, ◌≢◌, ◌==◌, if◌then◌else◌, arith, inl, inr, Bool,
  Bool-cases, true, false, ◌⊎◌, ap, refl,
}
use risc_v_business.Execute.Alu.{
  negate, is_negative, magnitude, quotient, remainder, div_value, rem_value,
}

-- A pattern of 64 bits and its negative add up to a multiple of 2 ^ 64.
negate_sum : (x : ℕ) → x < 2 ^ 64 → (e : ℕ) × (negate 64 x + x ≡ 2 ^ 64 * e)
negate_sum x h = elim (Bool-cases (x == 0)) [
  | inl z ↦ (0, ground (arith, z))
  | inr z ↦ (1, ground (arith, z, h))
]

negated_product : (x b : ℕ) → x < 2 ^ 64 → (k : ℕ) × (negate 64 x * b + x * b ≡ 2 ^ 64 * k)
negated_product x b h = let (e, s) = negate_sum x h in (e * b, omega (arith, ap (λ z. z * b) s))

-- How a pattern and its magnitude hang together, for each sign.
abbrev Signed : Bool → ℕ → ℕ → Type 0
Signed true a x = a + x ≡ 2 ^ 64
Signed false a x = a ≡ x

magnitude-Signed : (a : ℕ) → a < 2 ^ 64 → Signed (is_negative 64 a) a (magnitude 64 a)
magnitude-Signed a h = elim (Bool-cases (is_negative 64 a)) [
  | inl n ↦ rw n (ground (arith, h, n))
  | inr n ↦ rw n refl
]

magnitude-le : (a : ℕ) → a < 2 ^ 64 → magnitude 64 a ≤ 2 ^ 63
magnitude-le a h = ground (arith, h)

-- The law of division on magnitudes `x` and `y`, read with signs.
Signed-law :
    (na nb : Bool) (a b x y q r : ℕ)
    → Signed na a x
    → Signed nb b y
    → a < 2 ^ 64
    → q * y + r ≡ x
    → q < 2 ^ 64
    → r < 2 ^ 64
    → ((if na then (if nb then q else negate 64 q) else if nb then negate 64 q else q) * b
          + (if na then negate 64 r else r))
        % 2 ^ 64
      ≡ a
Signed-law true true a b x y q r sa sb ha law hq hr =
    let (e, nr) = negate_sum r hr in
    let pb : q * b + q * y ≡ q * 2 ^ 64 = omega (arith, ap (λ z. q * z) sb) in
    omega (arith, law, pb, nr, sa, ha)
Signed-law true false a b x y q r sa sb ha law hq hr =
    let (e, nr) = negate_sum r hr in
    let (k, nq) = negated_product q b hq in
    let pb : q * b ≡ q * y = ap (λ z. q * z) sb in omega (arith, law, pb, nr, nq, sa, ha)
Signed-law false true a b x y q r sa sb ha law hq hr =
    let (k, nq) = negated_product q b hq in
    let pb : q * b + q * y ≡ q * 2 ^ 64 = omega (arith, ap (λ z. q * z) sb) in
    omega (arith, law, pb, nq, sa, ha)
Signed-law false false a b x y q r sa sb ha law hq hr =
    let pb : q * b ≡ q * y = ap (λ z. q * z) sb in omega (arith, law, pb, sa, ha)

quotient-remainder :
    (a b : ℕ) → a < 2 ^ 64 → b < 2 ^ 64 → (quotient 64 a b * b + remainder 64 a b) % 2 ^ 64 ≡ a
unfolding quotient remainder
quotient-remainder a b ha hb =
    let x = magnitude 64 a in
    let y = magnitude 64 b in
    let law = div-add-mod' x y in
    let hx = magnitude-le a ha in
    Signed-law (is_negative 64 a) (is_negative 64 b) a b x y (x / y) (x % y) (magnitude-Signed a ha)
      (magnitude-Signed b hb) ha law (omega (arith, div-le_self x y, hx)) (omega (arith, law, hx))

-- A remainder of `a` by `b`: it is smaller than `b`, and is 0 or has the sign of `a`.
abbrev pub IsRemainder : ℕ → ℕ → ℕ → Type 0
IsRemainder a b r =
    (magnitude 64 r < magnitude 64 b) × ((r ≡ 0) ⊎ (is_negative 64 r ≡ is_negative 64 a))

remainder_size :
    (na : Bool) (r y : ℕ)
    → r < y
    → y ≤ 2 ^ 63
    → (magnitude 64 (if na then negate 64 r else r) < y)
      × (((if na then negate 64 r else r) ≡ 0)
          ⊎ (is_negative 64 (if na then negate 64 r else r) ≡ na))
remainder_size na r y h hy = ground (arith, h, hy)

remainder-IsRemainder :
    (a b : ℕ) → a < 2 ^ 64 → b < 2 ^ 64 → b ≢ 0 → IsRemainder a b (remainder 64 a b)
unfolding remainder
remainder-IsRemainder a b ha hb nz =
    let y = magnitude 64 b in
    let hy : 0 < y = ground (arith, hb, nz) in
    remainder_size (is_negative 64 a) (magnitude 64 a % y) y (mod-lt (magnitude 64 a) hy)
      (magnitude-le b hb)

-- DIV and REM of two `i64`, division by 0 and the quotient that overflows among them: the quotient
-- times the divisor plus the remainder is the dividend, modulo 2 ^ 64. The divisor is 0, or the
-- remainder is smaller than it in magnitude and is 0 or has the dividend's sign.
pub div-rem :
    (a b : ℕ)
    → a < 2 ^ 64
    → b < 2 ^ 64
    → ((div_value a b * b + rem_value a b) % 2 ^ 64 ≡ a)
      × ((b ≡ 0) ⊎ IsRemainder a b (rem_value a b))
unfolding div_value rem_value
div-rem a b ha hb = (
  ground (arith, quotient-remainder a b ha hb),
  elim (Bool-cases (b == 0)) [
    | inl z ↦ inl (ground (arith, z))
    | inr n ↦ inr (ground (arith, n, remainder-IsRemainder a b ha hb))
  ],
)
