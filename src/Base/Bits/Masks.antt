-- ===== src/Base/Bits/Masks.antt =====
-- Masks of low and of high bits, and `|` of numbers that have no bit in common.
use native.Mathlib.Nat.{pow-succ', one-le-pow, mod_def, div-add-mod, div-div-eq-div-mul}
use Prim.Native.Nat.{ℕ, zero, suc, ◌+◌, ◌-◌, ◌*◌, ◌/◌, ◌%◌, ◌^◌, ◌<◌, bit_and, bit_or}
use mathlib.Core.Path.{◌≡◌, sym, ap, ◌∙◌}
use native.Mathlib.Omega.{arith}
use risc_v_business.Base.Bits.Step.{bit_and_step, bit_or_step, bit_and-zero, zero-bit_or}

pub mod-mul_split : (a m v : ℕ) → v % (a * m) ≡ v % a + a * (v / a % m)
mod-mul_split a m v = omega (
  arith,
  mod_def v (a * m),
  mod_def (v / a) m,
  mod_def v a,
  div-add-mod v a,
  div-add-mod (v / a) m,
  ap (λ (t : ℕ). a * t) (div-add-mod (v / a) m),
  ap (λ (t : ℕ). a * m * t) (div-div-eq-div-mul v a m),
)

-- `2 ^ k - 1` is the mask of the low `k` bits.
pub bit_and-ones : (k a : ℕ) → bit_and a (2 ^ k - 1) ≡ a % 2 ^ k
bit_and-ones zero a = omega (arith, bit_and-zero a)
bit_and-ones (suc k) a =
    let e : (2 ^ suc k - 1) / 2 ≡ 2 ^ k - 1 =
      omega (arith, pow-succ' 2 k, one-le-pow k 2 (omega arith)) in
    omega (
      arith,
      bit_and_step a (2 ^ suc k - 1),
      ap (bit_and (a / 2)) e,
      bit_and-ones k (a / 2),
      ap (λ m. a % m) (pow-succ' 2 k) ∙ mod-mul_split 2 (2 ^ k) a,
      pow-succ' 2 k,
      one-le-pow k 2 (omega arith),
    )

-- `|` of a number of `k` bits and a multiple of `2 ^ k` adds them.
pub bit_or-join : (k a c : ℕ) → a < 2 ^ k → bit_or a (c * 2 ^ k) ≡ a + c * 2 ^ k
bit_or-join zero a c h =
    ap (λ t. bit_or t (c * 2 ^ 0)) {x = a} {y = 0} (omega (arith, h))
    ∙ (zero-bit_or (c * 2 ^ 0) ∙ omega (arith, h))
bit_or-join (suc k) a c h =
    let twice : c * 2 ^ suc k ≡ 2 * (c * 2 ^ k) = omega (arith, ap (λ t. c * t) (pow-succ' 2 k)) in
    let half : c * 2 ^ suc k / 2 ≡ c * 2 ^ k = omega (arith, twice) in
    omega (
      arith,
      h,
      twice,
      bit_or_step a (c * 2 ^ suc k),
      ap (bit_or (a / 2)) half,
      bit_or-join k (a / 2) c (omega (arith, h, pow-succ' 2 k)),
    )

-- `|` of a number and a multiple of `2 ^ k` leaves the low `k` bits.
pub bit_or-high : (k a c : ℕ) → bit_or a (c * 2 ^ k) ≡ a % 2 ^ k + bit_or (a / 2 ^ k) c * 2 ^ k
bit_or-high zero a c = omega (
  arith,
  ap (bit_or a) {x = c * 2 ^ 0} {y = c} (omega arith),
  ap (λ t. bit_or t c) {x = a / 2 ^ 0} {y = a} (omega arith),
)
bit_or-high (suc k) a c =
    let twice : c * 2 ^ suc k ≡ 2 * (c * 2 ^ k) = omega (arith, ap (λ t. c * t) (pow-succ' 2 k)) in
    let half : c * 2 ^ suc k / 2 ≡ c * 2 ^ k = omega (arith, twice) in
    let quotient : a / 2 / 2 ^ k ≡ a / 2 ^ suc k =
      div-div-eq-div-mul a 2 (2 ^ k) ∙ ap (λ t. a / t) (sym (pow-succ' 2 k)) in
    let top = bit_or (a / 2 ^ suc k) c in
    omega (
      arith,
      twice,
      bit_or_step a (c * 2 ^ suc k),
      ap (bit_or (a / 2)) half,
      bit_or-high k (a / 2) c,
      ap (λ t. bit_or t c * 2 ^ k) quotient,
      ap (λ m. a % m) (pow-succ' 2 k) ∙ mod-mul_split 2 (2 ^ k) a,
      ap (λ t. top * t) (pow-succ' 2 k),
    )

-- `(2 ^ n - 1) * 2 ^ k` is the mask of the `n` bits from bit `k`.
bit_and-high : (k n a : ℕ) → bit_and a ((2 ^ n - 1) * 2 ^ k) ≡ a / 2 ^ k % 2 ^ n * 2 ^ k
bit_and-high zero n a =
    ap (bit_and a) {x = (2 ^ n - 1) * 2 ^ 0} {y = 2 ^ n - 1} (omega arith)
    ∙ (bit_and-ones n a ∙ omega (arith, ap (λ t. t % 2 ^ n) {x = a / 2 ^ 0} {y = a} (omega arith)))
bit_and-high (suc k) n a =
    let ones = 2 ^ n - 1 in
    let field = a / 2 ^ suc k % 2 ^ n in
    let twice : ones * 2 ^ suc k ≡ 2 * (ones * 2 ^ k) =
      omega (arith, ap (λ t. ones * t) (pow-succ' 2 k)) in
    let half : ones * 2 ^ suc k / 2 ≡ ones * 2 ^ k = omega (arith, twice) in
    let quotient : a / 2 / 2 ^ k ≡ a / 2 ^ suc k =
      div-div-eq-div-mul a 2 (2 ^ k) ∙ ap (λ t. a / t) (sym (pow-succ' 2 k)) in
    omega (
      arith,
      twice,
      bit_and_step a (ones * 2 ^ suc k),
      ap (bit_and (a / 2)) half,
      bit_and-high k n (a / 2),
      ap (λ t. t % 2 ^ n * 2 ^ k) quotient,
      ap (λ t. field * t) (pow-succ' 2 k),
    )

-- The address of a page, and the offset in it.
pub bit_and-page : (a : ℕ) → a < 2 ^ 64 → bit_and a (2 ^ 64 - 1 - 0xFFF) + a % 4096 ≡ a
bit_and-page a h = omega (arith, bit_and-high 12 52 a, h)
