-- ===== src/Execute/Alu.antt =====
-- The values that the arithmetic instructions compute, src/cpu/execute.rs. An `i64` or `i32` is the
-- pattern that it has as a `u64` or `u32`.
use risc_v_business.Base.{
  ℕ, ◌+◌, ◌-◌, ◌*◌, ◌/◌, ◌%◌, ◌^◌, Bool, true, false, ◌&&◌, ltb, ◌==◌, if◌then◌else◌, u32, u64,
  max_u64, ◌>>>◌, ◌<<<◌, asr64,
}

-- Sign extension from the given bit.
unfoldable pub sext : ℕ → ℕ → ℕ
sext val bit = asr64 (val <<< (63 - bit)) (63 - bit)

-- `b as u64`.
abbrev pub as_number : Bool → ℕ
as_number true = 1
as_number false = 0

-- Signed comparison of patterns of `w + 1` bits: the sign bit turned around.
abbrev pub biased : ℕ → ℕ → ℕ
biased w x = (x + 2 ^ w) % 2 ^ (w + 1)

unfoldable pub signed_lt : ℕ → ℕ → Bool
signed_lt a b = ltb (biased 63 a) (biased 63 b)

-- `(a as i32) < (b as i32)` of two `u64`.
unfoldable pub signed_lt_w : ℕ → ℕ → Bool
signed_lt_w a b = ltb (biased 31 (u32 a)) (biased 31 (u32 b))

-- The `*W` shifts: to the left in 64 bits, to the right in 32.
abbrev pub shift_left_w : ℕ → ℕ → ℕ
shift_left_w a k = sext (a <<< k) 31

abbrev pub shift_right_w : ℕ → ℕ → ℕ
shift_right_w a k = sext (u32 a >>> k) 31

-- `(a as i32) >> k`, as the pattern that the cast to `u64` gives.
abbrev pub asr32 : ℕ → ℕ → ℕ
asr32 a k = asr64 (sext (u32 a) 31) k

abbrev pub shift_signed_w : ℕ → ℕ → ℕ
shift_signed_w a k = sext (asr32 a k) 31

-- `x as i64 as i128`, as a pattern of 128 bits.
abbrev pub widen : ℕ → ℕ
widen x = if ltb x (2 ^ 63) then x else x + (2 ^ 128 - 2 ^ 64)

-- `a * b` of two `i128` that do not overflow.
abbrev pub times : ℕ → ℕ → ℕ
times a b = a * b % 2 ^ 128

unfoldable pub mul_value : ℕ → ℕ → ℕ
mul_value a b = u64 (times (widen a) (widen b))

unfoldable pub mulh_value : ℕ → ℕ → ℕ
mulh_value a b = times (widen a) (widen b) >>> 64

unfoldable pub mulhsu_value : ℕ → ℕ → ℕ
mulhsu_value a b = times (widen a) b >>> 64

unfoldable pub mulhu_value : ℕ → ℕ → ℕ
mulhu_value a b = a * b >>> 64

unfoldable pub mulw_value : ℕ → ℕ → ℕ
mulw_value a b = sext (u32 (u32 a * u32 b)) 31

-- `-x` of a pattern of `w` bits.
abbrev pub negate : ℕ → ℕ → ℕ
negate w x = (2 ^ w - x) % 2 ^ w

abbrev pub is_negative : ℕ → ℕ → Bool
is_negative w x = ltb (2 ^ (w - 1) - 1) x

abbrev pub magnitude : ℕ → ℕ → ℕ
magnitude w x = if is_negative w x then negate w x else x

-- `a / b` and `a % b` of signed numbers, which round to 0 and leave the remainder the sign of `a`.
unfoldable pub quotient : ℕ → ℕ → ℕ → ℕ
quotient w a b =
    let q = magnitude w a / magnitude w b in
    if is_negative w a
    then (if is_negative w b then q else negate w q)
    else if is_negative w b
    then negate w q
    else q

unfoldable pub remainder : ℕ → ℕ → ℕ → ℕ
remainder w a b = let r = magnitude w a % magnitude w b in if is_negative w a then negate w r else r

unfoldable pub div_value : ℕ → ℕ → ℕ
div_value a b =
    if b == 0 then max_u64 else if a == 2 ^ 63 && b == max_u64 then 2 ^ 63 else quotient 64 a b

unfoldable pub divu_value : ℕ → ℕ → ℕ
divu_value a b = if b == 0 then max_u64 else a / b

unfoldable pub rem_value : ℕ → ℕ → ℕ
rem_value a b = if b == 0 then a else if a == 2 ^ 63 && b == max_u64 then 0 else remainder 64 a b

unfoldable pub remu_value : ℕ → ℕ → ℕ
remu_value a b = if b == 0 then a else a % b

unfoldable pub divw_value : ℕ → ℕ → ℕ
divw_value a b =
    if u32 b == 0
    then max_u64
    else if u32 a == 2 ^ 31 && u32 b == 2 ^ 32 - 1
    then sext (2 ^ 31) 31
    else sext (quotient 32 (u32 a) (u32 b)) 31

unfoldable pub divuw_value : ℕ → ℕ → ℕ
divuw_value a b = if u32 b == 0 then max_u64 else sext (u32 a / u32 b) 31

unfoldable pub remw_value : ℕ → ℕ → ℕ
remw_value a b =
    if u32 b == 0
    then sext (u32 a) 31
    else if u32 a == 2 ^ 31 && u32 b == 2 ^ 32 - 1
    then 0
    else sext (remainder 32 (u32 a) (u32 b)) 31

unfoldable pub remuw_value : ℕ → ℕ → ℕ
remuw_value a b = if u32 b == 0 then sext (u32 a) 31 else sext (u32 a % u32 b) 31
