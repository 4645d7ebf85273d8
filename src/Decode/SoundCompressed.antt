-- ===== src/Decode/SoundCompressed.antt =====
-- Decoding a 16-bit instruction ends in an instruction whose registers exist, or in the
-- illegal-instruction error.
use native.Mathlib.Omega.{arith}
use risc_v_business.Base.{ℕ, ◌<◌, ◌≢◌, bit_and, bit_and-lt_right, ◌>>>◌}
use risc_v_business.Decode.Compressed.{
  rp, decode_rvc, quadrant_0, quadrant_1, quadrant_2, upper, arithmetic_c, jump_or_add,
}
use risc_v_business.Decode.Range.{IsSound}

rp-lt : (w shift : ℕ) → rp w shift < 32
unfolding rp
rp-lt w shift = omega (arith, bit_and-lt_right 3 (w >>> shift) 0x7 (omega arith))

quadrant_0-IsSound : (w funct3 : ℕ) → IsSound (quadrant_0 w funct3)
unfolding quadrant_0
quadrant_0-IsSound w funct3 = ground (arith, rp-lt w 2, rp-lt w 7)

upper-IsSound : (w rd : ℕ) → rd < 32 → IsSound (upper w rd)
unfolding upper
upper-IsSound w rd h = ground arith

arithmetic_c-IsSound : (w : ℕ) → IsSound (arithmetic_c w)
unfolding arithmetic_c
arithmetic_c-IsSound w =
    ground (arith, rp-lt w 2, rp-lt w 7, bit_and-lt_right 2 (w >>> 10) 0x3 (omega arith))

quadrant_1-IsSound : (w funct3 : ℕ) → IsSound (quadrant_1 w funct3)
unfolding quadrant_1
quadrant_1-IsSound w funct3 =
    let rd = bit_and (w >>> 7) 0x1f in
    let h : rd < 32 = bit_and-lt_right 5 (w >>> 7) 0x1f (omega arith) in
    ground (arith, h, rp-lt w 7, upper-IsSound w rd h, arithmetic_c-IsSound w)

jump_or_add-IsSound :
    (w bit12 rd rs2 : ℕ) → rd < 32 → rs2 < 32 → IsSound (jump_or_add w bit12 rd rs2)
unfolding jump_or_add
jump_or_add-IsSound w bit12 rd rs2 h h2 = ground arith

quadrant_2-IsSound : (w funct3 : ℕ) → IsSound (quadrant_2 w funct3)
unfolding quadrant_2
quadrant_2-IsSound w funct3 =
    let rd = bit_and (w >>> 7) 0x1f in
    let rs2 = bit_and (w >>> 2) 0x1f in
    let h : rd < 32 = bit_and-lt_right 5 (w >>> 7) 0x1f (omega arith) in
    let h2 : rs2 < 32 = bit_and-lt_right 5 (w >>> 2) 0x1f (omega arith) in
    ground (arith, h, h2, jump_or_add-IsSound w (bit_and (w >>> 12) 1) rd rs2 h h2)

-- `decode_rvc` of a half-word whose low two bits are not both set, which is what the hart calls it
-- with, ends in an instruction whose register operands are below 32, or in the illegal-instruction
-- error; neither `unreachable!` is reached.
pub decode_rvc-IsSound : (w : ℕ) → bit_and w 0x3 ≢ 3 → IsSound (decode_rvc w)
unfolding decode_rvc
decode_rvc-IsSound w h =
    let funct3 = bit_and (w >>> 13) 0x7 in
    ground (
      arith,
      h,
      bit_and-lt_right 2 w 0x3 (omega arith),
      quadrant_0-IsSound w funct3,
      quadrant_1-IsSound w funct3,
      quadrant_2-IsSound w funct3,
    )
