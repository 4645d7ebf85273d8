-- ===== src/Decode/Compressed.antt =====
-- The 16-bit instructions: `decode_rvc` of src/cpu/decode.rs, one function for each quadrant and for
-- each of the larger arms.
use risc_v_business.Base.{
  ℕ, ◌+◌, bit_and, bit_or, not64, not, ◌&&◌, ◌==◌, if◌then◌else◌, ◌>>>◌, ok, panic,
}
use risc_v_business.Decode.{
  Decoded, illegal, ◌<<◌, add, addi, addiw, addw, and, andi, beq, bne, ebreak, fld, fsd, jal, jalr,
  ld, lui, lw, or, sd, slli, srai, srli, sub, subw, sw, xor,
}

-- The compressed register field at `shift`: x8 to x15.
unfoldable pub rp : ℕ → ℕ → ℕ
rp w shift = 8 + bit_and (w >>> shift) 0x7

-- `raw` with the bits above `mask` set when bit `sign` is: `raw | !mask`.
unfoldable pub extend : ℕ → ℕ → ℕ → ℕ
extend raw sign mask = if bit_and (raw >>> sign) 1 == 1 then bit_or raw (not64 mask) else raw

-- The offsets and immediates of the formats.
unfoldable pub stack_offset : ℕ → ℕ
stack_offset w =
    bit_or
      (bit_or (bit_or (bit_and (w >>> 6) 1 << 2) (bit_and (w >>> 5) 1 << 3))
        (bit_and (w >>> 11) 3 << 4))
      (bit_and (w >>> 7) 0xf << 6)

unfoldable pub double_offset : ℕ → ℕ
double_offset w = bit_or (bit_and (w >>> 10) 7 << 3) (bit_and (w >>> 5) 3 << 6)

unfoldable pub word_offset : ℕ → ℕ
word_offset w =
    bit_or (bit_or (bit_and (w >>> 6) 1 << 2) (bit_and (w >>> 10) 7 << 3))
      (bit_and (w >>> 5) 1 << 6)

unfoldable pub six_bits : ℕ → ℕ
six_bits w = bit_or (bit_and (w >>> 12) 1 << 5) (bit_and (w >>> 2) 0x1f)

unfoldable pub imm6 : ℕ → ℕ
imm6 w = extend (six_bits w) 5 0x3f

unfoldable pub stack_adjust : ℕ → ℕ
stack_adjust w =
    let raw =
      bit_or
        (bit_or
          (bit_or (bit_or (bit_and (w >>> 12) 1 << 9) (bit_and (w >>> 3) 3 << 7))
            (bit_and (w >>> 5) 1 << 6))
          (bit_and (w >>> 2) 1 << 5))
        (bit_and (w >>> 6) 1 << 4) in
    extend raw 9 0x3ff

unfoldable pub upper_imm : ℕ → ℕ
upper_imm w =
    let raw = bit_or (bit_and (w >>> 12) 1 << 17) (bit_and (w >>> 2) 0x1f << 12) in
    extend raw 17 0x3ffff

unfoldable pub jump_offset : ℕ → ℕ
jump_offset w =
    let high =
      bit_or
        (bit_or (bit_or (bit_and (w >>> 12) 1 << 11) (bit_and (w >>> 11) 1 << 4))
          (bit_and (w >>> 9) 3 << 8))
        (bit_and (w >>> 8) 1 << 10) in
    let raw =
      bit_or
        (bit_or (bit_or (bit_or high (bit_and (w >>> 7) 1 << 6)) (bit_and (w >>> 6) 1 << 7))
          (bit_and (w >>> 3) 7 << 1))
        (bit_and (w >>> 2) 1 << 5) in
    extend raw 11 0x7ff

unfoldable pub branch_offset : ℕ → ℕ
branch_offset w =
    let raw =
      bit_or
        (bit_or
          (bit_or (bit_or (bit_and (w >>> 12) 1 << 8) (bit_and (w >>> 10) 3 << 3))
            (bit_and (w >>> 5) 3 << 6))
          (bit_and (w >>> 3) 3 << 1))
        (bit_and (w >>> 2) 1 << 5) in
    extend raw 8 0xff

unfoldable pub double_from_stack : ℕ → ℕ
double_from_stack w =
    bit_or (bit_or (bit_and (w >>> 12) 1 << 5) (bit_and (w >>> 5) 3 << 3))
      (bit_and (w >>> 2) 7 << 6)

unfoldable pub word_from_stack : ℕ → ℕ
word_from_stack w =
    bit_or (bit_or (bit_and (w >>> 12) 1 << 5) (bit_and (w >>> 4) 7 << 2))
      (bit_and (w >>> 2) 3 << 6)

unfoldable pub double_to_stack : ℕ → ℕ
double_to_stack w = bit_or (bit_and (w >>> 10) 7 << 3) (bit_and (w >>> 7) 7 << 6)

unfoldable pub word_to_stack : ℕ → ℕ
word_to_stack w = bit_or (bit_and (w >>> 9) 0xf << 2) (bit_and (w >>> 7) 3 << 6)

unfoldable pub quadrant_0 : ℕ → ℕ → Decoded
quadrant_0 w funct3 =
    let rd_p = rp w 2 in
    let rs1_p = rp w 7 in
    let uimm = stack_offset w in
    if funct3 == 0
    then if uimm == 0 then illegal w else ok (addi rd_p 2 uimm)
    else if funct3 == 1
    then ok (fld rd_p rs1_p (double_offset w))
    else if funct3 == 2
    then ok (lw rd_p rs1_p (word_offset w))
    else if funct3 == 3
    then ok (ld rd_p rs1_p (double_offset w))
    else if funct3 == 5
    then ok (fsd rs1_p (rp w 2) (double_offset w))
    else if funct3 == 6
    then ok (sw rs1_p (rp w 2) (word_offset w))
    else if funct3 == 7
    then ok (sd rs1_p (rp w 2) (double_offset w))
    else illegal w

-- C.ADDI16SP, C.LUI and the reserved encoding.
unfoldable pub upper : ℕ → ℕ → Decoded
upper w rd_rs1 =
    if rd_rs1 == 2
    then if stack_adjust w == 0 then illegal w else ok (addi 2 2 (stack_adjust w))
    else if not (rd_rs1 == 0)
    then if upper_imm w == 0 then illegal w else ok (lui rd_rs1 (upper_imm w))
    else illegal w

-- `funct3` 4 of quadrant 1.
unfoldable pub arithmetic_c : ℕ → Decoded
arithmetic_c w =
    let funct2 = bit_and (w >>> 10) 0x3 in
    let rd_p = rp w 7 in
    let rs2_p = rp w 2 in
    let shamt = six_bits w in
    let bit12 = bit_and (w >>> 12) 1 in
    let funct = bit_and (w >>> 5) 0x3 in
    if funct2 == 0
    then ok (srli rd_p rd_p shamt)
    else if funct2 == 1
    then ok (srai rd_p rd_p shamt)
    else if funct2 == 2
    then ok (andi rd_p rd_p (imm6 w))
    else if funct2 == 3
    then if bit12 == 0 && funct == 0
      then ok (sub rd_p rd_p rs2_p)
      else if bit12 == 0 && funct == 1
      then ok (xor rd_p rd_p rs2_p)
      else if bit12 == 0 && funct == 2
      then ok (or rd_p rd_p rs2_p)
      else if bit12 == 0 && funct == 3
      then ok (and rd_p rd_p rs2_p)
      else if bit12 == 1 && funct == 0
      then ok (subw rd_p rd_p rs2_p)
      else if bit12 == 1 && funct == 1
      then ok (addw rd_p rd_p rs2_p)
      else illegal w
    else panic

unfoldable pub quadrant_1 : ℕ → ℕ → Decoded
quadrant_1 w funct3 =
    let rd_rs1 = bit_and (w >>> 7) 0x1f in
    if funct3 == 0
    then ok (addi rd_rs1 rd_rs1 (imm6 w))
    else if funct3 == 1
    then if rd_rs1 == 0 then illegal w else ok (addiw rd_rs1 rd_rs1 (imm6 w))
    else if funct3 == 2
    then ok (addi rd_rs1 0 (imm6 w))
    else if funct3 == 3
    then upper w rd_rs1
    else if funct3 == 4
    then arithmetic_c w
    else if funct3 == 5
    then ok (jal 0 (jump_offset w))
    else if funct3 == 6
    then ok (beq (rp w 7) 0 (branch_offset w))
    else if funct3 == 7
    then ok (bne (rp w 7) 0 (branch_offset w))
    else illegal w

-- C.JR, C.MV, C.EBREAK, C.JALR and C.ADD.
unfoldable pub jump_or_add : ℕ → ℕ → ℕ → ℕ → Decoded
jump_or_add w bit12 rd_rs1 rs2 =
    if bit12 == 0 && (rs2 == 0 && not (rd_rs1 == 0))
    then ok (jalr 0 rd_rs1 0)
    else if bit12 == 0 && not (rs2 == 0)
    then ok (add rd_rs1 0 rs2)
    else if bit12 == 1 && (rd_rs1 == 0 && rs2 == 0)
    then ok ebreak
    else if bit12 == 1 && (rs2 == 0 && not (rd_rs1 == 0))
    then ok (jalr 1 rd_rs1 0)
    else if bit12 == 1 && (not (rd_rs1 == 0) && not (rs2 == 0))
    then ok (add rd_rs1 rd_rs1 rs2)
    else illegal w

unfoldable pub quadrant_2 : ℕ → ℕ → Decoded
quadrant_2 w funct3 =
    let rd_rs1 = bit_and (w >>> 7) 0x1f in
    let rs2 = bit_and (w >>> 2) 0x1f in
    if funct3 == 0
    then ok (slli rd_rs1 rd_rs1 (six_bits w))
    else if funct3 == 1
    then ok (fld rd_rs1 2 (double_from_stack w))
    else if funct3 == 2
    then if rd_rs1 == 0 then illegal w else ok (lw rd_rs1 2 (word_from_stack w))
    else if funct3 == 3
    then if rd_rs1 == 0 then illegal w else ok (ld rd_rs1 2 (double_from_stack w))
    else if funct3 == 4
    then jump_or_add w (bit_and (w >>> 12) 1) rd_rs1 rs2
    else if funct3 == 5
    then ok (fsd 2 rs2 (double_to_stack w))
    else if funct3 == 6
    then ok (sw 2 rs2 (word_to_stack w))
    else if funct3 == 7
    then ok (sd 2 rs2 (double_to_stack w))
    else illegal w

unfoldable pub decode_rvc : ℕ → Decoded
decode_rvc w =
    let quad = bit_and w 0x3 in
    let funct3 = bit_and (w >>> 13) 0x7 in
    if quad == 0
    then quadrant_0 w funct3
    else if quad == 1
    then quadrant_1 w funct3
    else if quad == 2
    then quadrant_2 w funct3
    else panic
