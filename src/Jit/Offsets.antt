-- ===== src/Jit/Offsets.antt =====
-- The offsets of src/jit.rs against those of the decoder, src/cpu/decode.rs.
use mathlib.Core.Path.{ap₂}
use risc_v_business.Base.{
  ℕ, ◌-◌, ◌/◌, ◌^◌, ◌<◌, ◌≡◌, sym, ap, ◌∙◌, arith, bit_and, bit_or, bit_and-one, bit_and-lt_right,
  bit_or-lt, bit_or-high, ◌>>>◌, ◌<<<◌,
}
use risc_v_business.Decode.{◌<<◌}
use risc_v_business.Decode.Compressed.{extend, jump_offset, branch_offset}
use risc_v_business.Jit.{sign_ext, rvc_j_imm, rvc_b_imm}

-- A field of at most three bits, moved in 32 bits and in 64.
abbrev Same : ℕ → ℕ → ℕ → Type 0
Same top x y = (x ≡ y) × (x < 2 ^ top)

abbrev Field : ℕ → ℕ → ℕ → ℕ → ℕ → Type 0
Field r a b k top = Same top (bit_and (r >>> a) b << k) (bit_and (r >>> a) b <<< k)

or-Same :
    {x y x' y' : ℕ} (top : ℕ) → Same top x x' → Same top y y' → Same top (bit_or x y) (bit_or x' y')
or-Same {x = x} {y = y} top h k = (ap₂ bit_or h.0 k.0, bit_or-lt top x y h.1 k.1)

jump_12 : (r : ℕ) → Field r 12 1 11 12
jump_12 r =
    let h = bit_and-lt_right 1 (r >>> 12) 1 (omega arith) in (omega (arith, h), omega (arith, h))

jump_11 : (r : ℕ) → Field r 11 1 4 12
jump_11 r =
    let h = bit_and-lt_right 1 (r >>> 11) 1 (omega arith) in (omega (arith, h), omega (arith, h))

jump_9 : (r : ℕ) → Field r 9 3 8 12
jump_9 r =
    let h = bit_and-lt_right 2 (r >>> 9) 3 (omega arith) in (omega (arith, h), omega (arith, h))

jump_8 : (r : ℕ) → Field r 8 1 10 12
jump_8 r =
    let h = bit_and-lt_right 1 (r >>> 8) 1 (omega arith) in (omega (arith, h), omega (arith, h))

jump_7 : (r : ℕ) → Field r 7 1 6 12
jump_7 r =
    let h = bit_and-lt_right 1 (r >>> 7) 1 (omega arith) in (omega (arith, h), omega (arith, h))

jump_6 : (r : ℕ) → Field r 6 1 7 12
jump_6 r =
    let h = bit_and-lt_right 1 (r >>> 6) 1 (omega arith) in (omega (arith, h), omega (arith, h))

jump_3 : (r : ℕ) → Field r 3 7 1 12
jump_3 r =
    let h = bit_and-lt_right 3 (r >>> 3) 7 (omega arith) in (omega (arith, h), omega (arith, h))

jump_2 : (r : ℕ) → Field r 2 1 5 12
jump_2 r =
    let h = bit_and-lt_right 1 (r >>> 2) 1 (omega arith) in (omega (arith, h), omega (arith, h))

branch_12 : (r : ℕ) → Field r 12 1 8 9
branch_12 r =
    let h = bit_and-lt_right 1 (r >>> 12) 1 (omega arith) in (omega (arith, h), omega (arith, h))

branch_10 : (r : ℕ) → Field r 10 3 3 9
branch_10 r =
    let h = bit_and-lt_right 2 (r >>> 10) 3 (omega arith) in (omega (arith, h), omega (arith, h))

branch_5 : (r : ℕ) → Field r 5 3 6 9
branch_5 r =
    let h = bit_and-lt_right 2 (r >>> 5) 3 (omega arith) in (omega (arith, h), omega (arith, h))

branch_3 : (r : ℕ) → Field r 3 3 1 9
branch_3 r =
    let h = bit_and-lt_right 2 (r >>> 3) 3 (omega arith) in (omega (arith, h), omega (arith, h))

branch_2 : (r : ℕ) → Field r 2 1 5 9
branch_2 r =
    let h = bit_and-lt_right 1 (r >>> 2) 1 (omega arith) in (omega (arith, h), omega (arith, h))

-- The two ways to extend a sign.
extend_jump : (raw : ℕ) → raw < 2 ^ 12 → extend raw 11 0x7ff ≡ sign_ext raw 12
unfolding extend sign_ext
extend_jump raw h = ground (
  arith,
  h,
  bit_and-one (raw >>> 11),
  bit_or-high 11 raw (2 ^ 53 - 1),
  λ (p : raw / 2 ^ 11 ≡ 1). ap (λ t. bit_or t (2 ^ 53 - 1)) p,
)

extend_branch : (raw : ℕ) → raw < 2 ^ 9 → extend raw 8 0xff ≡ sign_ext raw 9
unfolding extend sign_ext
extend_branch raw h = ground (
  arith,
  h,
  bit_and-one (raw >>> 8),
  bit_or-high 8 raw (2 ^ 56 - 1),
  λ (p : raw / 2 ^ 8 ≡ 1). ap (λ t. bit_or t (2 ^ 56 - 1)) p,
)

-- The compiler reads the offsets of compressed jumps and branches as the decoder does, from any
-- instruction word.
pub rvc_offsets_agree : (r : ℕ) → (rvc_j_imm r ≡ jump_offset r) × (rvc_b_imm r ≡ branch_offset r)
unfolding rvc_j_imm rvc_b_imm jump_offset branch_offset
rvc_offsets_agree r =
    let j =
      (or-Same 12
        (or-Same 12
          (or-Same 12
            (or-Same 12
              (or-Same 12 (or-Same 12 (or-Same 12 (jump_12 r) (jump_11 r)) (jump_9 r)) (jump_8 r))
              (jump_7 r))
            (jump_6 r))
          (jump_3 r))
        (jump_2 r)) in
    let b =
      (or-Same 9
        (or-Same 9 (or-Same 9 (or-Same 9 (branch_12 r) (branch_10 r)) (branch_5 r)) (branch_3 r))
        (branch_2 r)) in
    (
      ap (λ t. sign_ext t 12) (sym j.0) ∙ sym (extend_jump _ j.1),
      ap (λ t. sign_ext t 9) (sym b.0) ∙ sym (extend_branch _ b.1),
    )
