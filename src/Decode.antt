-- ===== src/Decode.antt =====
-- Decoding instructions, src/cpu/decode.rs: the instructions and the immediates of the formats.
-- An `i64` immediate is the pattern that it has as a `u64`.
pub mod Integer
pub mod Memory
pub mod Control
pub mod Full
pub mod Range
pub mod Sound
pub mod SoundCompressed
pub mod Immediates
pub mod Compressed
mod Tests
use risc_v_business.Base.{
  ℕ, ◌+◌, ◌-◌, ◌*◌, ◌/◌, ◌%◌, ◌^◌, bit_and, bit_or, u32, ltb, if◌then◌else◌, ◌>>>◌, Exit, err,
}

pub data Instruction : Type 0 where
  add sub sll slt sltu xor srl sra : (rd rs1 rs2 : ℕ) → Instruction
  or and mul mulh mulhsu mulhu div divu : (rd rs1 rs2 : ℕ) → Instruction
  rem remu mulw divw divuw remw remuw : (rd rs1 rs2 : ℕ) → Instruction
  lr_d lr_w : (rd rs1 : ℕ) → Instruction
  sc_d sc_w amoswap_d amoswap_w amoadd_d amoadd_w amoxor_d amoxor_w : (rd rs1 rs2 : ℕ) → Instruction
  amoand_d amoand_w amoor_d amoor_w amomin_d amomin_w amomax_d amomax_w :
      (rd rs1 rs2 : ℕ) → Instruction
  amominu_d amominu_w amomaxu_d amomaxu_w addw subw sllw srlw : (rd rs1 rs2 : ℕ) → Instruction
  sraw : (rd rs1 rs2 : ℕ) → Instruction
  addi slti sltiu xori ori andi : (rd rs1 imm : ℕ) → Instruction
  slli srli srai : (rd rs1 shamt : ℕ) → Instruction
  addiw : (rd rs1 imm : ℕ) → Instruction
  slliw srliw sraiw : (rd rs1 shamt : ℕ) → Instruction
  lb lh lw ld lbu lhu lwu : (rd rs1 imm : ℕ) → Instruction
  sb sh sw sd beq bne blt bge : (rs1 rs2 imm : ℕ) → Instruction
  bltu bgeu : (rs1 rs2 imm : ℕ) → Instruction
  jal : (rd imm : ℕ) → Instruction
  jalr : (rd rs1 imm : ℕ) → Instruction
  lui auipc : (rd imm : ℕ) → Instruction
  fence ecall ebreak mret sret wfi sfence_vma : Instruction
  csrrw csrrs csrrc : (rd rs1 csr : ℕ) → Instruction
  csrrwi csrrsi csrrci : (rd uimm csr : ℕ) → Instruction
  flw fld : (fd rs1 imm : ℕ) → Instruction
  fsw fsd : (rs1 fs2 imm : ℕ) → Instruction
  op_fp : (funct7 rs2 rs1 rm rd : ℕ) → Instruction
  fma : (opcode fmt rs3 rs2 rs1 rd : ℕ) → Instruction

-- `IllegalInstruction(inst)`.
pub record IllegalInstruction : Type 0 where
  pub inst : ℕ

abbrev pub Decoded : Type 0
Decoded = Exit IllegalInstruction Instruction

abbrev pub illegal : ℕ → Decoded
illegal inst = err (record { inst = inst })

-- `x << k` in a `u32`, for `k < 32`.
infixl 60 ◌<<◌
abbrev pub ◌<<◌ : ℕ → ℕ → ℕ
x << k = u32 (x * 2 ^ k)

-- `((x as i32) >> k) as i64`, as a pattern.
abbrev pub arithmetic_shift : ℕ → ℕ → ℕ
arithmetic_shift x k = if ltb x (2 ^ 31) then x / 2 ^ k else x / 2 ^ k + (2 ^ 64 - 2 ^ (32 - k))

unfoldable pub i_imm : ℕ → ℕ
i_imm inst = arithmetic_shift inst 20

unfoldable pub s_imm : ℕ → ℕ
s_imm inst =
    let raw = bit_or ((inst >>> 25) << 5) (bit_and (inst >>> 7) 0x1f) in
    arithmetic_shift (raw << 20) 20

unfoldable pub b_imm : ℕ → ℕ
b_imm inst =
    let raw =
      bit_or
        (bit_or (bit_or ((inst >>> 31) << 12) (bit_and (inst >>> 7) 0x1 << 11))
          (bit_and (inst >>> 25) 0x3f << 5))
        (bit_and (inst >>> 8) 0xf << 1) in
    arithmetic_shift (raw << 19) 19

unfoldable pub u_imm : ℕ → ℕ
u_imm inst = arithmetic_shift (bit_and inst 0xFFFF_F000) 0

unfoldable pub j_imm : ℕ → ℕ
j_imm inst =
    let raw =
      bit_or
        (bit_or (bit_or ((inst >>> 31) << 20) (bit_and inst 0x000F_F000))
          (bit_and (inst >>> 20) 0x1 << 11))
        (bit_and (inst >>> 21) 0x3ff << 1) in
    arithmetic_shift (raw << 11) 11

unfoldable pub reg : ℕ → ℕ → ℕ
reg inst lo = bit_and (inst >>> lo) 0x1f
