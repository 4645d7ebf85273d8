-- ===== src/Decode/Integer.antt =====
-- The integer arithmetic of `decode`, src/cpu/decode.rs: opcodes 0x33, 0x3B, 0x13 and 0x1B.
use risc_v_business.Base.{ℕ, bit_and, ◌&&◌, ◌==◌, if◌then◌else◌, ◌>>>◌, ok, panic}
use risc_v_business.Decode.{
  Decoded, illegal, i_imm, add, addi, addiw, addw, and, andi, div, divu, divuw, divw, mul, mulh,
  mulhsu, mulhu, mulw, or, ori, rem, remu, remuw, remw, sll, slli, slliw, sllw, slt, slti, sltiu,
  sltu, sra, srai, sraiw, sraw, srl, srli, srliw, srlw, sub, subw, xor, xori,
}

unfoldable pub register_op : ℕ → ℕ → ℕ → ℕ → ℕ → ℕ → Decoded
register_op inst funct3 funct7 rd rs1 rs2 =
    if funct3 == 0x0 && funct7 == 0x00
    then ok (add rd rs1 rs2)
    else if funct3 == 0x0 && funct7 == 0x20
    then ok (sub rd rs1 rs2)
    else if funct3 == 0x1 && funct7 == 0x00
    then ok (sll rd rs1 rs2)
    else if funct3 == 0x2 && funct7 == 0x00
    then ok (slt rd rs1 rs2)
    else if funct3 == 0x3 && funct7 == 0x00
    then ok (sltu rd rs1 rs2)
    else if funct3 == 0x4 && funct7 == 0x00
    then ok (xor rd rs1 rs2)
    else if funct3 == 0x5 && funct7 == 0x00
    then ok (srl rd rs1 rs2)
    else if funct3 == 0x5 && funct7 == 0x20
    then ok (sra rd rs1 rs2)
    else if funct3 == 0x6 && funct7 == 0x00
    then ok (or rd rs1 rs2)
    else if funct3 == 0x7 && funct7 == 0x00
    then ok (and rd rs1 rs2)
    else if funct3 == 0x0 && funct7 == 0x01
    then ok (mul rd rs1 rs2)
    else if funct3 == 0x1 && funct7 == 0x01
    then ok (mulh rd rs1 rs2)
    else if funct3 == 0x2 && funct7 == 0x01
    then ok (mulhsu rd rs1 rs2)
    else if funct3 == 0x3 && funct7 == 0x01
    then ok (mulhu rd rs1 rs2)
    else if funct3 == 0x4 && funct7 == 0x01
    then ok (div rd rs1 rs2)
    else if funct3 == 0x5 && funct7 == 0x01
    then ok (divu rd rs1 rs2)
    else if funct3 == 0x6 && funct7 == 0x01
    then ok (rem rd rs1 rs2)
    else if funct3 == 0x7 && funct7 == 0x01
    then ok (remu rd rs1 rs2)
    else illegal inst

unfoldable pub register_op_w : ℕ → ℕ → ℕ → ℕ → ℕ → ℕ → Decoded
register_op_w inst funct3 funct7 rd rs1 rs2 =
    if funct3 == 0x0 && funct7 == 0x00
    then ok (addw rd rs1 rs2)
    else if funct3 == 0x0 && funct7 == 0x20
    then ok (subw rd rs1 rs2)
    else if funct3 == 0x1 && funct7 == 0x00
    then ok (sllw rd rs1 rs2)
    else if funct3 == 0x5 && funct7 == 0x00
    then ok (srlw rd rs1 rs2)
    else if funct3 == 0x5 && funct7 == 0x20
    then ok (sraw rd rs1 rs2)
    else if funct3 == 0x0 && funct7 == 0x01
    then ok (mulw rd rs1 rs2)
    else if funct3 == 0x4 && funct7 == 0x01
    then ok (divw rd rs1 rs2)
    else if funct3 == 0x5 && funct7 == 0x01
    then ok (divuw rd rs1 rs2)
    else if funct3 == 0x6 && funct7 == 0x01
    then ok (remw rd rs1 rs2)
    else if funct3 == 0x7 && funct7 == 0x01
    then ok (remuw rd rs1 rs2)
    else illegal inst

-- The I-type arithmetic; all eight values of a three-bit `funct3` have an arm.
unfoldable pub arithmetic : ℕ → ℕ → ℕ → ℕ → Decoded
arithmetic inst funct3 rd rs1 =
    let imm = i_imm inst in
    let shamt = bit_and (inst >>> 20) 0x3f in
    if funct3 == 0x0
    then ok (addi rd rs1 imm)
    else if funct3 == 0x2
    then ok (slti rd rs1 imm)
    else if funct3 == 0x3
    then ok (sltiu rd rs1 imm)
    else if funct3 == 0x4
    then ok (xori rd rs1 imm)
    else if funct3 == 0x6
    then ok (ori rd rs1 imm)
    else if funct3 == 0x7
    then ok (andi rd rs1 imm)
    else if funct3 == 0x1
    then ok (slli rd rs1 shamt)
    else if funct3 == 0x5
    then if bit_and (inst >>> 30) 1 == 0 then ok (srli rd rs1 shamt) else ok (srai rd rs1 shamt)
    else panic

unfoldable pub arithmetic_w : ℕ → ℕ → ℕ → ℕ → Decoded
arithmetic_w inst funct3 rd rs1 =
    let shamt = bit_and (inst >>> 20) 0x1f in
    if funct3 == 0x0
    then ok (addiw rd rs1 (i_imm inst))
    else if funct3 == 0x1
    then ok (slliw rd rs1 shamt)
    else if funct3 == 0x5
    then if bit_and (inst >>> 30) 1 == 0 then ok (srliw rd rs1 shamt) else ok (sraiw rd rs1 shamt)
    else illegal inst
