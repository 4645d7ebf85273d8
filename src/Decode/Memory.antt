-- ===== src/Decode/Memory.antt =====
-- The loads, stores and atomics of `decode`, src/cpu/decode.rs: opcodes 0x03, 0x07, 0x27, 0x23 and
-- 0x2F.
use risc_v_business.Base.{ℕ, Bool, not, ◌&&◌, ◌==◌, if◌then◌else◌, ok}
use risc_v_business.Decode.{
  Decoded, illegal, i_imm, s_imm, amoadd_d, amoadd_w, amoand_d, amoand_w, amomax_d, amomax_w,
  amomaxu_d, amomaxu_w, amomin_d, amomin_w, amominu_d, amominu_w, amoor_d, amoor_w, amoswap_d,
  amoswap_w, amoxor_d, amoxor_w, fld, flw, fsd, fsw, lb, lbu, ld, lh, lhu, lr_d, lr_w, lw, lwu, sb,
  sc_d, sc_w, sd, sh, sw,
}

unfoldable pub load : ℕ → ℕ → ℕ → ℕ → ℕ → Decoded
load inst funct3 rd rs1 imm =
    if funct3 == 0x0
    then ok (lb rd rs1 imm)
    else if funct3 == 0x1
    then ok (lh rd rs1 imm)
    else if funct3 == 0x2
    then ok (lw rd rs1 imm)
    else if funct3 == 0x3
    then ok (ld rd rs1 imm)
    else if funct3 == 0x4
    then ok (lbu rd rs1 imm)
    else if funct3 == 0x5
    then ok (lhu rd rs1 imm)
    else if funct3 == 0x6
    then ok (lwu rd rs1 imm)
    else illegal inst

unfoldable pub store : ℕ → ℕ → ℕ → ℕ → ℕ → Decoded
store inst funct3 rs1 rs2 imm =
    if funct3 == 0x0
    then ok (sb rs1 rs2 imm)
    else if funct3 == 0x1
    then ok (sh rs1 rs2 imm)
    else if funct3 == 0x2
    then ok (sw rs1 rs2 imm)
    else if funct3 == 0x3
    then ok (sd rs1 rs2 imm)
    else illegal inst

unfoldable pub float_load : ℕ → ℕ → ℕ → ℕ → Decoded
float_load inst funct3 rd rs1 =
    let imm = i_imm inst in
    if funct3 == 0x2
    then ok (flw rd rs1 imm)
    else if funct3 == 0x3
    then ok (fld rd rs1 imm)
    else illegal inst

unfoldable pub float_store : ℕ → ℕ → ℕ → ℕ → Decoded
float_store inst funct3 rs1 rs2 =
    let imm = s_imm inst in
    if funct3 == 0x2
    then ok (fsw rs1 rs2 imm)
    else if funct3 == 0x3
    then ok (fsd rs1 rs2 imm)
    else illegal inst

unfoldable pub atomic : ℕ → ℕ → Bool → ℕ → ℕ → ℕ → Decoded
atomic inst funct5 is_double rd rs1 rs2 =
    if funct5 == 0x02 && is_double
    then ok (lr_d rd rs1)
    else if funct5 == 0x02 && not is_double
    then ok (lr_w rd rs1)
    else if funct5 == 0x03 && is_double
    then ok (sc_d rd rs1 rs2)
    else if funct5 == 0x03 && not is_double
    then ok (sc_w rd rs1 rs2)
    else if funct5 == 0x01 && is_double
    then ok (amoswap_d rd rs1 rs2)
    else if funct5 == 0x01 && not is_double
    then ok (amoswap_w rd rs1 rs2)
    else if funct5 == 0x00 && is_double
    then ok (amoadd_d rd rs1 rs2)
    else if funct5 == 0x00 && not is_double
    then ok (amoadd_w rd rs1 rs2)
    else if funct5 == 0x04 && is_double
    then ok (amoxor_d rd rs1 rs2)
    else if funct5 == 0x04 && not is_double
    then ok (amoxor_w rd rs1 rs2)
    else if funct5 == 0x0C && is_double
    then ok (amoand_d rd rs1 rs2)
    else if funct5 == 0x0C && not is_double
    then ok (amoand_w rd rs1 rs2)
    else if funct5 == 0x08 && is_double
    then ok (amoor_d rd rs1 rs2)
    else if funct5 == 0x08 && not is_double
    then ok (amoor_w rd rs1 rs2)
    else if funct5 == 0x10 && is_double
    then ok (amomin_d rd rs1 rs2)
    else if funct5 == 0x10 && not is_double
    then ok (amomin_w rd rs1 rs2)
    else if funct5 == 0x14 && is_double
    then ok (amomax_d rd rs1 rs2)
    else if funct5 == 0x14 && not is_double
    then ok (amomax_w rd rs1 rs2)
    else if funct5 == 0x18 && is_double
    then ok (amominu_d rd rs1 rs2)
    else if funct5 == 0x18 && not is_double
    then ok (amominu_w rd rs1 rs2)
    else if funct5 == 0x1C && is_double
    then ok (amomaxu_d rd rs1 rs2)
    else if funct5 == 0x1C && not is_double
    then ok (amomaxu_w rd rs1 rs2)
    else illegal inst
