-- ===== src/Decode/Immediates.antt =====
-- The immediates of `decode` against the tables of the instruction formats.
use native.Mathlib.Omega.{arith}
use native.Mathlib.Nat.{one-le-pow}
use mathlib.Core.Path.{ap₂}
use risc_v_business.Base.{
  ℕ, zero, suc, ◌+◌, ◌-◌, ◌*◌, ◌/◌, ◌^◌, ◌<◌, ◌≤◌, ◌≡◌, ◌∙◌, ap, refl, ◌&&◌, ◌==◌, ltb, leb,
  if◌then◌else◌, bit, bit-lt, bit-bit_or, bit-bit_and, bit-join, bit-ones, bit-mod_pow, bit-mul_pow,
  bit-div_pow, bit-eq_zero_of_lt, bit_and, bit_or, ◌>>>◌, max,
}
use risc_v_business.Decode.{◌<<◌, arithmetic_shift, b_imm}

less_one : (a b : ℕ) → 1 ≤ a → (a - 1) * b ≡ a * b - b
less_one zero b h = absurd (omega (arith, h))
less_one (suc a) b h = grind arith

shl_bits :
    (k j y : ℕ) → bit k (y << j) ≡ (if ltb k 32 then (if ltb k j then 0 else bit (k - j) y) else 0)
shl_bits k j y = ground (arith, bit-mod_pow 32 k (y * 2 ^ j), bit-mul_pow j k y)

-- `w` bits of a word from bit `lo`, moved to bit `hi`.
field_bits :
    (k x lo w hi : ℕ)
    → bit k (bit_and (x >>> lo) (2 ^ w - 1) << hi)
      ≡ (if ltb k 32 && (leb hi k && ltb k (hi + w)) then bit (k - hi + lo) x else 0)
field_bits k x lo w hi = ground (
  arith,
  shl_bits k hi (bit_and (x >>> lo) (2 ^ w - 1)),
  bit-bit_and (k - hi) (x >>> lo) (2 ^ w - 1),
  bit-ones w (k - hi),
  bit-div_pow lo (k - hi) x,
  bit-lt (k - hi + lo) x,
)

-- A field moved down, by `d`.
lowered_bits :
    (k x d w hi : ℕ)
    → hi + w ≤ 32
    → bit k (bit_and (x >>> (hi + d)) (2 ^ w - 1) << hi)
      ≡ (if leb hi k && ltb k (hi + w) then bit (k + d) x else 0)
lowered_bits k x d w hi h = ground (
  arith,
  h,
  field_bits k x (hi + d) w hi,
  λ (g : hi ≤ k). ap (λ (j : ℕ). bit j x) {x = k - hi + (hi + d)} {y = k + d} (omega (arith, g)),
)

-- One bit moved.
one_bit :
    (k x lo hi : ℕ)
    → hi < 32
    → bit k (bit_and (x >>> lo) 1 << hi) ≡ (if k == hi then bit lo x else 0)
one_bit k x lo hi h = ground (
  arith,
  h,
  field_bits k x lo 1 hi,
  λ (g : k ≡ hi). ap (λ (j : ℕ). bit j x) {x = k - hi + lo} {y = lo} (omega (arith, g)),
)

-- Bit 31 alone, moved to bit `hi`.
sign_bits :
    (k hi x : ℕ)
    → x < 2 ^ 32
    → hi < 32
    → bit k ((x >>> 31) << hi) ≡ (if k == hi then bit 31 x else 0)
sign_bits k hi x hx h = ground (
  arith,
  h,
  shl_bits k hi (x >>> 31),
  bit-div_pow 31 (k - hi) x,
  λ (j : 32 ≤ k - hi + 31). bit-eq_zero_of_lt 32 (k - hi + 31) x hx j,
)

-- An arithmetic shift repeats bit 31: the word that is left is of `w` bits, and `n` ones go above it.
asr_bits :
    (x w s n k : ℕ)
    → x < 2 ^ 32
    → x / 2 ^ s < 2 ^ w
    → 2 ^ 64 ≡ 2 ^ n * 2 ^ w
    → 32 ≡ w + s
    → 64 ≡ n + w
    → k < 64
    → bit k (arithmetic_shift x s) ≡ (if ltb k w then bit (k + s) x else bit 31 x)
asr_bits x w s n k hx hw hn es en hk =
    let one : 1 ≤ 2 ^ n = one-le-pow n 2 (omega arith) in
    let filled : x / 2 ^ s + (2 ^ 64 - 2 ^ (32 - s)) ≡ (2 ^ n - 1) * 2 ^ w + x / 2 ^ s = omega (
      arith,
      hn,
      one,
      ap (λ (e : ℕ). 2 ^ e) {x = 32 - s} {y = w} (omega (arith, es)),
      less_one (2 ^ n) (2 ^ w) one,
    ) in
    ground (
      arith,
      ap (bit k) filled,
      bit-join w k (x / 2 ^ s) (2 ^ n - 1) hw,
      bit-ones n (k - w),
      bit-div_pow s k x,
      λ (h : 32 ≤ k + s). bit-eq_zero_of_lt 32 (k + s) x hx h,
    )

-- `raw` of `b_imm`, and the table of its bits.
abbrev raw_branch : ℕ → ℕ
raw_branch inst =
    bit_or
      (bit_or (bit_or ((inst >>> 31) << 12) (bit_and (inst >>> 7) 0x1 << 11))
        (bit_and (inst >>> 25) 0x3f << 5))
      (bit_and (inst >>> 8) 0xf << 1)

raw_branch_bits :
    (inst k : ℕ)
    → inst < 2 ^ 32
    → bit k (raw_branch inst) ≡ (
        if k == 0
        then 0
        else if ltb k 5
        then bit (k + 7) inst
        else if ltb k 11
        then bit (k + 20) inst
        else if k == 11
        then bit 7 inst
        else if k == 12
        then bit 31 inst
        else 0)
raw_branch_bits inst k h =
    let sign = (inst >>> 31) << 12 in
    let top = bit_and (inst >>> 7) 0x1 << 11 in
    let middle = bit_and (inst >>> 25) 0x3f << 5 in
    let low = bit_and (inst >>> 8) 0xf << 1 in
    bit-bit_or k (bit_or (bit_or sign top) middle) low
    ∙ (ap₂ max
          (bit-bit_or k (bit_or sign top) middle
            ∙ ap₂ max
                (bit-bit_or k sign top
                  ∙ ap₂ max (sign_bits k 12 inst h (omega arith))
                      (one_bit k inst 7 11 (omega arith)))
                (lowered_bits k inst 20 6 5 (omega arith)))
          (lowered_bits k inst 7 4 1 (omega arith))
        ∙ ground arith)

-- The offset of a branch, from a 32-bit word: the sign in bit 31, then bit 7, bits 30 to 25, bits 11 to 8, and a clear
-- bit 0; bits 12 and above all repeat the sign.
pub b_imm_bits :
    (inst k : ℕ)
    → inst < 2 ^ 32
    → k < 64
    → bit k (b_imm inst) ≡ (
        if k == 0
        then 0
        else if ltb k 5
        then bit (k + 7) inst
        else if ltb k 11
        then bit (k + 20) inst
        else if k == 11
        then bit 7 inst
        else bit 31 inst)
unfolding b_imm
b_imm_bits inst k hi hk =
    let raw = raw_branch inst in
    let x = raw << 19 in
    asr_bits x 13 19 51 k (omega arith) (omega arith) refl refl refl hk
    ∙ ground (
      arith,
      shl_bits (k + 19) 19 raw,
      shl_bits 31 19 raw,
      raw_branch_bits inst k hi,
      raw_branch_bits inst 12 hi,
    )
