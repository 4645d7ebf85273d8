-- ===== src/Decode/Range.antt =====
-- The register operands of an instruction, and the range that `Cpu`'s arrays of 32 registers ask for.
use risc_v_business.Base.{ℕ, ◌<◌, ok, err, panic, hang}
use risc_v_business.Decode.{
  Instruction, Decoded, add, sub, sll, slt, sltu, xor, srl, sra, or, and, mul, mulh, mulhsu, mulhu,
  div, divu, rem, remu, mulw, divw, divuw, remw, remuw, lr_d, lr_w, sc_d, sc_w, amoswap_d,
  amoswap_w, amoadd_d, amoadd_w, amoxor_d, amoxor_w, amoand_d, amoand_w, amoor_d, amoor_w, amomin_d,
  amomin_w, amomax_d, amomax_w, amominu_d, amominu_w, amomaxu_d, amomaxu_w, addw, subw, sllw, srlw,
  sraw, addi, slti, sltiu, xori, ori, andi, slli, srli, srai, addiw, slliw, srliw, sraiw, lb, lh,
  lw, ld, lbu, lhu, lwu, sb, sh, sw, sd, beq, bne, blt, bge, bltu, bgeu, jal, jalr, lui, auipc,
  fence, ecall, ebreak, mret, sret, wfi, sfence_vma, csrrw, csrrs, csrrc, csrrwi, csrrsi, csrrci,
  flw, fld, fsw, fsd, op_fp, fma,
}

abbrev Two : ℕ → ℕ → Type 0
Two a b = (a < 32) × (b < 32)

abbrev Three : ℕ → ℕ → ℕ → Type 0
Three a b c = (a < 32) × ((b < 32) × (c < 32))

-- Each register operand, of the integers or of the floats, is below 32.
abbrev pub InRange : Instruction → Type 0
InRange (add rd rs1 rs2) = Three rd rs1 rs2
InRange (sub rd rs1 rs2) = Three rd rs1 rs2
InRange (sll rd rs1 rs2) = Three rd rs1 rs2
InRange (slt rd rs1 rs2) = Three rd rs1 rs2
InRange (sltu rd rs1 rs2) = Three rd rs1 rs2
InRange (xor rd rs1 rs2) = Three rd rs1 rs2
InRange (srl rd rs1 rs2) = Three rd rs1 rs2
InRange (sra rd rs1 rs2) = Three rd rs1 rs2
InRange (or rd rs1 rs2) = Three rd rs1 rs2
InRange (and rd rs1 rs2) = Three rd rs1 rs2
InRange (mul rd rs1 rs2) = Three rd rs1 rs2
InRange (mulh rd rs1 rs2) = Three rd rs1 rs2
InRange (mulhsu rd rs1 rs2) = Three rd rs1 rs2
InRange (mulhu rd rs1 rs2) = Three rd rs1 rs2
InRange (div rd rs1 rs2) = Three rd rs1 rs2
InRange (divu rd rs1 rs2) = Three rd rs1 rs2
InRange (rem rd rs1 rs2) = Three rd rs1 rs2
InRange (remu rd rs1 rs2) = Three rd rs1 rs2
InRange (mulw rd rs1 rs2) = Three rd rs1 rs2
InRange (divw rd rs1 rs2) = Three rd rs1 rs2
InRange (divuw rd rs1 rs2) = Three rd rs1 rs2
InRange (remw rd rs1 rs2) = Three rd rs1 rs2
InRange (remuw rd rs1 rs2) = Three rd rs1 rs2
InRange (lr_d rd rs1) = Two rd rs1
InRange (lr_w rd rs1) = Two rd rs1
InRange (sc_d rd rs1 rs2) = Three rd rs1 rs2
InRange (sc_w rd rs1 rs2) = Three rd rs1 rs2
InRange (amoswap_d rd rs1 rs2) = Three rd rs1 rs2
InRange (amoswap_w rd rs1 rs2) = Three rd rs1 rs2
InRange (amoadd_d rd rs1 rs2) = Three rd rs1 rs2
InRange (amoadd_w rd rs1 rs2) = Three rd rs1 rs2
InRange (amoxor_d rd rs1 rs2) = Three rd rs1 rs2
InRange (amoxor_w rd rs1 rs2) = Three rd rs1 rs2
InRange (amoand_d rd rs1 rs2) = Three rd rs1 rs2
InRange (amoand_w rd rs1 rs2) = Three rd rs1 rs2
InRange (amoor_d rd rs1 rs2) = Three rd rs1 rs2
InRange (amoor_w rd rs1 rs2) = Three rd rs1 rs2
InRange (amomin_d rd rs1 rs2) = Three rd rs1 rs2
InRange (amomin_w rd rs1 rs2) = Three rd rs1 rs2
InRange (amomax_d rd rs1 rs2) = Three rd rs1 rs2
InRange (amomax_w rd rs1 rs2) = Three rd rs1 rs2
InRange (amominu_d rd rs1 rs2) = Three rd rs1 rs2
InRange (amominu_w rd rs1 rs2) = Three rd rs1 rs2
InRange (amomaxu_d rd rs1 rs2) = Three rd rs1 rs2
InRange (amomaxu_w rd rs1 rs2) = Three rd rs1 rs2
InRange (addw rd rs1 rs2) = Three rd rs1 rs2
InRange (subw rd rs1 rs2) = Three rd rs1 rs2
InRange (sllw rd rs1 rs2) = Three rd rs1 rs2
InRange (srlw rd rs1 rs2) = Three rd rs1 rs2
InRange (sraw rd rs1 rs2) = Three rd rs1 rs2
InRange (addi rd rs1 imm) = Two rd rs1
InRange (slti rd rs1 imm) = Two rd rs1
InRange (sltiu rd rs1 imm) = Two rd rs1
InRange (xori rd rs1 imm) = Two rd rs1
InRange (ori rd rs1 imm) = Two rd rs1
InRange (andi rd rs1 imm) = Two rd rs1
InRange (slli rd rs1 shamt) = Two rd rs1
InRange (srli rd rs1 shamt) = Two rd rs1
InRange (srai rd rs1 shamt) = Two rd rs1
InRange (addiw rd rs1 imm) = Two rd rs1
InRange (slliw rd rs1 shamt) = Two rd rs1
InRange (srliw rd rs1 shamt) = Two rd rs1
InRange (sraiw rd rs1 shamt) = Two rd rs1
InRange (lb rd rs1 imm) = Two rd rs1
InRange (lh rd rs1 imm) = Two rd rs1
InRange (lw rd rs1 imm) = Two rd rs1
InRange (ld rd rs1 imm) = Two rd rs1
InRange (lbu rd rs1 imm) = Two rd rs1
InRange (lhu rd rs1 imm) = Two rd rs1
InRange (lwu rd rs1 imm) = Two rd rs1
InRange (sb rs1 rs2 imm) = Two rs1 rs2
InRange (sh rs1 rs2 imm) = Two rs1 rs2
InRange (sw rs1 rs2 imm) = Two rs1 rs2
InRange (sd rs1 rs2 imm) = Two rs1 rs2
InRange (beq rs1 rs2 imm) = Two rs1 rs2
InRange (bne rs1 rs2 imm) = Two rs1 rs2
InRange (blt rs1 rs2 imm) = Two rs1 rs2
InRange (bge rs1 rs2 imm) = Two rs1 rs2
InRange (bltu rs1 rs2 imm) = Two rs1 rs2
InRange (bgeu rs1 rs2 imm) = Two rs1 rs2
InRange (jal rd imm) = rd < 32
InRange (jalr rd rs1 imm) = Two rd rs1
InRange (lui rd imm) = rd < 32
InRange (auipc rd imm) = rd < 32
InRange fence = Unit
InRange ecall = Unit
InRange ebreak = Unit
InRange mret = Unit
InRange sret = Unit
InRange wfi = Unit
InRange sfence_vma = Unit
InRange (csrrw rd rs1 csr) = Two rd rs1
InRange (csrrs rd rs1 csr) = Two rd rs1
InRange (csrrc rd rs1 csr) = Two rd rs1
InRange (csrrwi rd uimm csr) = rd < 32
InRange (csrrsi rd uimm csr) = rd < 32
InRange (csrrci rd uimm csr) = rd < 32
InRange (flw fd rs1 imm) = Two fd rs1
InRange (fld fd rs1 imm) = Two fd rs1
InRange (fsw rs1 fs2 imm) = Two rs1 fs2
InRange (fsd rs1 fs2 imm) = Two rs1 fs2
InRange (op_fp funct7 rs2 rs1 rm rd) = Three rs2 rs1 rd
InRange (fma opcode fmt rs3 rs2 rs1 rd) = (rs3 < 32) × Three rs2 rs1 rd

-- What decoding may end in: an instruction with its registers in range, or the error.
abbrev pub IsSound : Decoded → Type 0
IsSound (ok i) = InRange i
IsSound (err e) = Unit
IsSound panic = ⊥
IsSound hang = ⊥
