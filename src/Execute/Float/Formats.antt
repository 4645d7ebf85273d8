-- ===== src/Execute/Float/Formats.antt =====
-- Floats of src/cpu/execute.rs as bit patterns: their formats and classes, and the arithmetic of the
-- host, which is a parameter.
use risc_v_business.Base.{
  ℕ, ◌+◌, ◌-◌, ◌^◌, Bool, not, ◌&&◌, ltb, leb, ◌==◌, if◌then◌else◌, bit_and, ◌<<<◌,
}

-- The layout of a format: the sign bit, the pattern of infinity, the bit that makes a NaN quiet, the
-- least normal pattern.
pub record Format : Type 0 where
  pub sign : ℕ
  pub infinity : ℕ
  pub quiet : ℕ
  pub min_normal : ℕ

abbrev pub single : Format
single = record { sign = 2 ^ 31; infinity = 0x7F80_0000; quiet = 22; min_normal = 2 ^ 23 }

abbrev pub double : Format
double = record { sign = 2 ^ 63; infinity = 0x7FF0_0000_0000_0000; quiet = 51; min_normal = 2 ^ 52 }

-- What the host does on the patterns of a format. A cast to an integer gives the `u64` that the
-- source ends with, and one from an integer takes the `u64` that it starts from.
pub record Host : Type 0 where
  pub add : ℕ → ℕ → ℕ
  pub sub : ℕ → ℕ → ℕ
  pub mul : ℕ → ℕ → ℕ
  pub div : ℕ → ℕ → ℕ
  pub min : ℕ → ℕ → ℕ
  pub max : ℕ → ℕ → ℕ
  pub sqrt : ℕ → ℕ
  pub mul_add : ℕ → ℕ → ℕ → ℕ
  pub to_i32 : ℕ → ℕ
  pub to_u32 : ℕ → ℕ
  pub to_i64 : ℕ → ℕ
  pub to_u64 : ℕ → ℕ
  pub from_i32 : ℕ → ℕ
  pub from_u32 : ℕ → ℕ
  pub from_i64 : ℕ → ℕ
  pub from_u64 : ℕ → ℕ

pub record Floats : Type 0 where
  pub f32 : Host
  pub f64 : Host
  pub narrow : ℕ → ℕ
  pub widen : ℕ → ℕ

-- The methods of a float, and its comparisons.
abbrev pub unsigned : Format → ℕ → ℕ
unsigned f v = if ltb v f.sign then v else v - f.sign

abbrev pub is_sign_negative : Format → ℕ → Bool
is_sign_negative f v = leb f.sign v

abbrev pub is_nan : Format → ℕ → Bool
is_nan f v = ltb f.infinity (unsigned f v)

abbrev pub is_zero : Format → ℕ → Bool
is_zero f v = unsigned f v == 0

abbrev pub is_subnormal : Format → ℕ → Bool
is_subnormal f v = ltb 0 (unsigned f v) && ltb (unsigned f v) f.min_normal

abbrev pub is_normal : Format → ℕ → Bool
is_normal f v = leb f.min_normal (unsigned f v) && ltb (unsigned f v) f.infinity

abbrev pub negated : Format → ℕ → ℕ
negated f v = if ltb v f.sign then v + f.sign else v - f.sign

-- The place of a pattern in the order of the floats, in which the two zeros are one.
abbrev pub place : Format → ℕ → ℕ
place f v = if ltb v f.sign then f.sign + v else f.sign - unsigned f v

abbrev pub is_ordered : Format → ℕ → ℕ → Bool
is_ordered f a b = not (is_nan f a) && not (is_nan f b)

abbrev pub float_le : Format → ℕ → ℕ → Bool
float_le f a b = is_ordered f a b && leb (place f a) (place f b)

abbrev pub float_lt : Format → ℕ → ℕ → Bool
float_lt f a b = is_ordered f a b && ltb (place f a) (place f b)

abbrev pub float_eq : Format → ℕ → ℕ → Bool
float_eq f a b = is_ordered f a b && place f a == place f b

unfoldable pub fmin : Format → Host → ℕ → ℕ → ℕ
fmin f h a b =
    if is_nan f a
    then b
    else if is_nan f b
    then a
    else if (is_zero f a && is_zero f b) && is_sign_negative f a
    then a
    else h.min a b

unfoldable pub fmax : Format → Host → ℕ → ℕ → ℕ
fmax f h a b =
    if is_nan f a
    then b
    else if is_nan f b
    then a
    else if (is_zero f a && is_zero f b) && is_sign_negative f b
    then a
    else h.max a b

unfoldable pub fclass : Format → ℕ → ℕ
fclass f v =
    if is_nan f v
    then (if bit_and v (1 <<< f.quiet) == 0 then 1 <<< 8 else 1 <<< 9)
    else if v == f.sign + f.infinity
    then 1 <<< 0
    else if is_sign_negative f v && is_normal f v
    then 1 <<< 1
    else if is_sign_negative f v && is_subnormal f v
    then 1 <<< 2
    else if is_sign_negative f v
    then 1 <<< 3
    else if is_subnormal f v
    then 1 <<< 5
    else if is_normal f v
    then 1 <<< 6
    else if v == f.infinity
    then 1 <<< 7
    else 1 <<< 4
