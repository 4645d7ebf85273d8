-- ===== src/Decode/Full.antt =====
-- The 32-bit instructions: `decode` of src/cpu/decode.rs.
use risc_v_business.Base.{ℕ, bit_and, ◌||◌, ◌==◌, if◌then◌else◌, ◌>>>◌, ok}
use risc_v_business.Decode.{
  Decoded, illegal, i_imm, s_imm, b_imm, u_imm, j_imm, reg, auipc, fence, fma, jal, jalr, lui,
  op_fp,
}
use risc_v_business.Decode.Integer.{register_op, register_op_w, arithmetic, arithmetic_w}
use risc_v_business.Decode.Memory.{load, store, float_load, float_store, atomic}
use risc_v_business.Decode.Control.{branch, system}

unfoldable pub decode : ℕ → Decoded
decode inst =
    let opcode = bit_and inst 0x7f in
    let funct3 = bit_and (inst >>> 12) 0x7 in
    let funct7 = bit_and (inst >>> 25) 0x7f in
    let rd = reg inst 7 in
    let rs1 = reg inst 15 in
    let rs2 = reg inst 20 in
    if opcode == 0x33
    then register_op inst funct3 funct7 rd rs1 rs2
    else if opcode == 0x3B
    then register_op_w inst funct3 funct7 rd rs1 rs2
    else if opcode == 0x13
    then arithmetic inst funct3 rd rs1
    else if opcode == 0x1B
    then arithmetic_w inst funct3 rd rs1
    else if opcode == 0x03
    then load inst funct3 rd rs1 (i_imm inst)
    else if opcode == 0x07
    then float_load inst funct3 rd rs1
    else if opcode == 0x27
    then float_store inst funct3 rs1 rs2
    else if opcode == 0x53
    then ok (op_fp funct7 rs2 rs1 funct3 rd)
    else if (opcode == 0x43 || opcode == 0x47) || (opcode == 0x4B || opcode == 0x4F)
    then ok (fma opcode (bit_and (inst >>> 25) 0x3) (bit_and (inst >>> 27) 0x1F) rs2 rs1 rd)
    else if opcode == 0x23
    then store inst funct3 rs1 rs2 (s_imm inst)
    else if opcode == 0x63
    then branch inst funct3 rs1 rs2 (b_imm inst)
    else if opcode == 0x6F
    then ok (jal rd (j_imm inst))
    else if opcode == 0x67
    then ok (jalr rd rs1 (i_imm inst))
    else if opcode == 0x37
    then ok (lui rd (u_imm inst))
    else if opcode == 0x17
    then ok (auipc rd (u_imm inst))
    else if opcode == 0x2F
    then atomic inst (bit_and (inst >>> 27) 0x1f) (bit_and funct3 0x1 == 1) rd rs1 rs2
    else if opcode == 0x0F
    then ok fence
    else if opcode == 0x73
    then system inst funct3 rd rs1
    else illegal inst
