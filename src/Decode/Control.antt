-- ===== src/Decode/Control.antt =====
-- The branches and the system opcode of `decode`, src/cpu/decode.rs: opcodes 0x63 and 0x73.
use risc_v_business.Base.{ℕ, bit_and, u16, ◌&&◌, ◌==◌, if◌then◌else◌, ◌>>>◌, ok}
use risc_v_business.Decode.{
  Decoded, illegal, beq, bge, bgeu, blt, bltu, bne, csrrc, csrrci, csrrs, csrrsi, csrrw, csrrwi,
  ebreak, ecall, mret, sfence_vma, sret, wfi,
}

unfoldable pub branch : ℕ → ℕ → ℕ → ℕ → ℕ → Decoded
branch inst funct3 rs1 rs2 imm =
    if funct3 == 0x0
    then ok (beq rs1 rs2 imm)
    else if funct3 == 0x1
    then ok (bne rs1 rs2 imm)
    else if funct3 == 0x4
    then ok (blt rs1 rs2 imm)
    else if funct3 == 0x5
    then ok (bge rs1 rs2 imm)
    else if funct3 == 0x6
    then ok (bltu rs1 rs2 imm)
    else if funct3 == 0x7
    then ok (bgeu rs1 rs2 imm)
    else illegal inst

-- `funct3` 0 of the system opcode.
unfoldable pub privileged : ℕ → ℕ → ℕ → ℕ → Decoded
privileged inst csr rd rs1 =
    if csr == 0x000 && (rs1 == 0 && rd == 0)
    then ok ecall
    else if csr == 0x001 && (rs1 == 0 && rd == 0)
    then ok ebreak
    else if csr == 0x102 && (rs1 == 0 && rd == 0)
    then ok sret
    else if csr == 0x302 && (rs1 == 0 && rd == 0)
    then ok mret
    else if csr == 0x105 && (rs1 == 0 && rd == 0)
    then ok wfi
    else if rd == 0 && (csr >>> 5) == 0x09
    then ok sfence_vma
    else illegal inst

unfoldable pub system : ℕ → ℕ → ℕ → ℕ → Decoded
system inst funct3 rd rs1 =
    let csr = u16 (bit_and (inst >>> 20) 0xfff) in
    if funct3 == 0x0
    then privileged inst csr rd rs1
    else if funct3 == 0x1
    then ok (csrrw rd rs1 csr)
    else if funct3 == 0x2
    then ok (csrrs rd rs1 csr)
    else if funct3 == 0x3
    then ok (csrrc rd rs1 csr)
    else if funct3 == 0x5
    then ok (csrrwi rd rs1 csr)
    else if funct3 == 0x6
    then ok (csrrsi rd rs1 csr)
    else if funct3 == 0x7
    then ok (csrrci rd rs1 csr)
    else illegal inst
