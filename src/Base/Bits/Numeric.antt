-- ===== src/Base/Bits/Numeric.antt =====
-- Bit `k` of a number, and the bits of powers, complements and remainders.
use Prim.Native.Nat.{ℕ, zero, suc, ◌+◌, ◌-◌, ◌*◌, ◌/◌, ◌%◌, ◌^◌, ◌≤◌, ◌<◌}
use mathlib.Core.Path.{◌≡◌, refl, sym, ◌∙◌, ap}
use mathlib.Core.Logic.{◌≢◌}
use native.Mathlib.Nat.{div-div-eq-div-mul, pow-suc, pow-succ', one-le-pow}
use native.Mathlib.Omega.{arith}
use risc_v_business.Base.Tests.{ltb, if◌then◌else◌}

abbrev pub bit : ℕ → ℕ → ℕ
bit k x = x / 2 ^ k % 2

pub bit-zero : (x : ℕ) → bit 0 x ≡ x % 2
bit-zero x = omega arith

pub bit-suc : (k x : ℕ) → bit (suc k) x ≡ bit k (x / 2)
bit-suc k x = rw (pow-succ', ← div-div-eq-div-mul)

pub bit-lt : (k x : ℕ) → bit k x < 2
bit-lt k x = omega arith

pub bit-of_zero : (k : ℕ) → bit k 0 ≡ 0
bit-of_zero zero = refl
bit-of_zero (suc k) = bit-suc k 0 ∙ bit-of_zero k

-- The only bit of `2 ^ j` is bit `j`.
pub bit-pow_self : (k : ℕ) → bit k (2 ^ k) ≡ 1
bit-pow_self zero = refl
bit-pow_self (suc k) =
    bit-suc k (2 ^ suc k) ∙ ap (bit k) (omega (arith, pow-suc 2 k)) ∙ bit-pow_self k

pub bit-pow_ne : (k j : ℕ) → k ≢ j → bit k (2 ^ j) ≡ 0
bit-pow_ne zero zero h = absurd (h refl)
bit-pow_ne zero (suc j) h = omega (arith, pow-suc 2 j)
bit-pow_ne (suc k) zero h = bit-suc k 1 ∙ bit-of_zero k
bit-pow_ne (suc k) (suc j) h =
    bit-suc k (2 ^ suc j)
    ∙ ap (bit k) (omega (arith, pow-suc 2 j))
    ∙ bit-pow_ne k j (λ e. h (ap suc e))

-- `!x` in `n` bits.
pub bit-complement : (n k x : ℕ) → x < 2 ^ n → k < n → bit k (2 ^ n - 1 - x) ≡ 1 - bit k x
bit-complement zero k x hx hk = absurd (omega arith)
bit-complement (suc n) zero x hx hk = omega (arith, pow-suc 2 n)
bit-complement (suc n) (suc k) x hx hk =
    bit-suc k (2 ^ suc n - 1 - x)
    ∙ ap (bit k) (omega (arith, pow-suc 2 n))
    ∙ bit-complement n k (x / 2) (omega (arith, pow-suc 2 n)) (omega arith)
    ∙ ap (λ t. 1 - t) (sym (bit-suc k x))

-- Below `2 ^ n` there is no bit from `n` on.
pub bit-eq_zero_of_lt : (n k x : ℕ) → x < 2 ^ n → n ≤ k → bit k x ≡ 0
bit-eq_zero_of_lt zero k x hx hk = ap (bit k) {y = 0} (omega arith) ∙ bit-of_zero k
bit-eq_zero_of_lt (suc n) zero x hx hk = absurd (omega arith)
bit-eq_zero_of_lt (suc n) (suc k) x hx hk =
    bit-suc k x ∙ bit-eq_zero_of_lt n k (x / 2) (omega (arith, pow-suc 2 n)) (omega arith)

-- A number below `2 ^ n` is given by its lowest `n` bits.
pub bit_ext : (n a b : ℕ) → a < 2 ^ n → b < 2 ^ n → ((k : ℕ) → k < n → bit k a ≡ bit k b) → a ≡ b
bit_ext zero a b ha hb h = omega arith
bit_ext (suc n) a b ha hb h =
    let halves : a / 2 ≡ b / 2 =
      bit_ext n (a / 2) (b / 2) (omega (arith, pow-suc 2 n)) (omega (arith, pow-suc 2 n))
        (λ k hk. sym (bit-suc k a) ∙ h (suc k) (omega arith) ∙ bit-suc k b) in
    omega (arith, h 0 (omega arith))

-- Conversely, a number with no bit from `n` on is below `2 ^ n`.
pub lt_of_no_bit : (m n x : ℕ) → x < 2 ^ m → ((k : ℕ) → n ≤ k → bit k x ≡ 0) → x < 2 ^ n
lt_of_no_bit zero n x hx h = omega (arith, one-le-pow n 2 (omega arith))
lt_of_no_bit (suc m) zero x hx h =
    let half : x / 2 < 2 ^ 0 =
      lt_of_no_bit m zero (x / 2) (omega (arith, pow-suc 2 m))
        (λ k hk. sym (bit-suc k x) ∙ h (suc k) (omega arith)) in
    omega (arith, h 0 (omega arith))
lt_of_no_bit (suc m) (suc n) x hx h =
    let half : x / 2 < 2 ^ n =
      lt_of_no_bit m n (x / 2) (omega (arith, pow-suc 2 m))
        (λ k hk. sym (bit-suc k x) ∙ h (suc k) (omega arith)) in
    omega (arith, pow-suc 2 n)

-- The bits of a word that is shifted up.
pub bit-mul_pow : (j k y : ℕ) → bit k (y * 2 ^ j) ≡ (if ltb k j then 0 else bit (k - j) y)
bit-mul_pow zero k y = ground (arith, ap (bit k) {x = y * 2 ^ 0} {y = y} (omega arith))
bit-mul_pow (suc j) zero y =
    let doubled : y * 2 ^ suc j ≡ y * 2 ^ j * 2 =
      omega (arith, ap (λ (p : ℕ). y * p) (pow-suc 2 j)) in
    ground (arith, doubled, bit-zero (y * 2 ^ suc j))
bit-mul_pow (suc j) (suc k) y =
    let doubled : y * 2 ^ suc j ≡ y * 2 ^ j * 2 =
      omega (arith, ap (λ (p : ℕ). y * p) (pow-suc 2 j)) in
    bit-suc k (y * 2 ^ suc j)
    ∙ (ap (bit k) {x = y * 2 ^ suc j / 2} {y = y * 2 ^ j} (omega (arith, doubled))
        ∙ (bit-mul_pow j k y ∙ ground arith))

-- The bits of two words side by side, the lower one of `n` bits.
pub bit-join :
    (n k a c : ℕ) → a < 2 ^ n → bit k (c * 2 ^ n + a) ≡ (if ltb k n then bit k a else bit (k - n) c)
bit-join zero k a c h = ground (arith, ap (bit k) {x = c * 2 ^ 0 + a} {y = c} (omega (arith, h)))
bit-join (suc n) zero a c h =
    let doubled : c * 2 ^ suc n ≡ c * 2 ^ n * 2 =
      omega (arith, ap (λ (p : ℕ). c * p) (pow-suc 2 n)) in
    ground (arith, doubled, bit-zero (c * 2 ^ suc n + a), bit-zero a)
bit-join (suc n) (suc k) a c h =
    let doubled : c * 2 ^ suc n ≡ c * 2 ^ n * 2 =
      omega (arith, ap (λ (p : ℕ). c * p) (pow-suc 2 n)) in
    bit-suc k (c * 2 ^ suc n + a)
    ∙ (ap (bit k) {x = (c * 2 ^ suc n + a) / 2} {y = c * 2 ^ n + a / 2} (omega (arith, doubled))
        ∙ (bit-join n k (a / 2) c (omega (arith, h, pow-suc 2 n)) ∙ ground (arith, bit-suc k a)))

pub bit-div_pow : (a k x : ℕ) → bit k (x / 2 ^ a) ≡ bit (k + a) x
bit-div_pow zero k x = ground (arith, ap (bit k) {x = x / 2 ^ 0} {y = x} (omega arith))
bit-div_pow (suc a) k x =
    ap (bit k) {x = x / 2 ^ suc a} {y = x / 2 / 2 ^ a} (rw (pow-succ', ← div-div-eq-div-mul))
    ∙ (bit-div_pow a k (x / 2)
        ∙ (sym (bit-suc (k + a) x)
            ∙ ap (λ i. bit i x) {x = suc (k + a)} {y = k + suc a} (omega arith)))

-- The low `n` bits.
pub bit-mod_pow : (n k x : ℕ) → bit k (x % 2 ^ n) ≡ (if ltb k n then bit k x else 0)
bit-mod_pow n k x =
    let low : x % 2 ^ n < 2 ^ n = omega (arith, one-le-pow n 2 (omega arith)) in
    ground (
      arith,
      low,
      bit-join n k (x % 2 ^ n) (x / 2 ^ n) low,
      ap (bit k) {x = x / 2 ^ n * 2 ^ n + x % 2 ^ n} {y = x} (omega arith),
      λ (h : n ≤ k). bit-eq_zero_of_lt n k (x % 2 ^ n) low h,
    )

pub bit-ones : (n k : ℕ) → bit k (2 ^ n - 1) ≡ (if ltb k n then 1 else 0)
bit-ones n k =
    let low : 2 ^ n - 1 < 2 ^ n = omega (arith, one-le-pow n 2 (omega arith)) in
    ground (
      arith,
      bit-of_zero k,
      one-le-pow n 2 (omega arith),
      λ (h : k < n). bit-complement n k 0 (omega (arith, one-le-pow n 2 (omega arith))) h,
      λ (h : n ≤ k). bit-eq_zero_of_lt n k (2 ^ n - 1) low h,
    )
