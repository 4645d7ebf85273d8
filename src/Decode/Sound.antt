-- ===== src/Decode/Sound.antt =====
-- Decoding ends in an instruction whose registers exist, or in the illegal-instruction error.
use native.Mathlib.Omega.{arith}
use risc_v_business.Base.{ℕ, ◌<◌, Bool, u16, ◌==◌, bit_and, bit_and-lt_right, ◌>>>◌}
use risc_v_business.Decode.{reg, i_imm, s_imm, b_imm}
use risc_v_business.Decode.Integer.{register_op, register_op_w, arithmetic, arithmetic_w}
use risc_v_business.Decode.Memory.{load, store, float_load, float_store, atomic}
use risc_v_business.Decode.Control.{branch, privileged, system}
use risc_v_business.Decode.Full.{decode}
use risc_v_business.Decode.Range.{IsSound}

reg-lt : (inst lo : ℕ) → reg inst lo < 32
unfolding reg
reg-lt inst lo = bit_and-lt_right 5 (inst >>> lo) 0x1f (omega arith)

register_op-IsSound :
    (inst funct3 funct7 rd rs1 rs2 : ℕ)
    → rd < 32
    → rs1 < 32
    → rs2 < 32
    → IsSound (register_op inst funct3 funct7 rd rs1 rs2)
unfolding register_op
register_op-IsSound inst funct3 funct7 rd rs1 rs2 h h1 h2 = ground arith

register_op_w-IsSound :
    (inst funct3 funct7 rd rs1 rs2 : ℕ)
    → rd < 32
    → rs1 < 32
    → rs2 < 32
    → IsSound (register_op_w inst funct3 funct7 rd rs1 rs2)
unfolding register_op_w
register_op_w-IsSound inst funct3 funct7 rd rs1 rs2 h h1 h2 = ground arith

arithmetic-IsSound :
    (inst funct3 rd rs1 : ℕ)
    → funct3 < 8
    → rd < 32
    → rs1 < 32
    → IsSound (arithmetic inst funct3 rd rs1)
unfolding arithmetic
arithmetic-IsSound inst funct3 rd rs1 h3 h h1 = ground arith

arithmetic_w-IsSound :
    (inst funct3 rd rs1 : ℕ) → rd < 32 → rs1 < 32 → IsSound (arithmetic_w inst funct3 rd rs1)
unfolding arithmetic_w
arithmetic_w-IsSound inst funct3 rd rs1 h h1 = ground arith

load-IsSound :
    (inst funct3 rd rs1 imm : ℕ) → rd < 32 → rs1 < 32 → IsSound (load inst funct3 rd rs1 imm)
unfolding load
load-IsSound inst funct3 rd rs1 imm h h1 = ground arith

float_load-IsSound :
    (inst funct3 rd rs1 : ℕ) → rd < 32 → rs1 < 32 → IsSound (float_load inst funct3 rd rs1)
unfolding float_load
float_load-IsSound inst funct3 rd rs1 h h1 = ground arith

store-IsSound :
    (inst funct3 rs1 rs2 imm : ℕ) → rs1 < 32 → rs2 < 32 → IsSound (store inst funct3 rs1 rs2 imm)
unfolding store
store-IsSound inst funct3 rs1 rs2 imm h h1 = ground arith

float_store-IsSound :
    (inst funct3 rs1 rs2 : ℕ) → rs1 < 32 → rs2 < 32 → IsSound (float_store inst funct3 rs1 rs2)
unfolding float_store
float_store-IsSound inst funct3 rs1 rs2 h h1 = ground arith

branch-IsSound :
    (inst funct3 rs1 rs2 imm : ℕ) → rs1 < 32 → rs2 < 32 → IsSound (branch inst funct3 rs1 rs2 imm)
unfolding branch
branch-IsSound inst funct3 rs1 rs2 imm h h1 = ground arith

atomic-IsSound :
    (inst funct5 : ℕ) (d : Bool) (rd rs1 rs2 : ℕ)
    → rd < 32
    → rs1 < 32
    → rs2 < 32
    → IsSound (atomic inst funct5 d rd rs1 rs2)
unfolding atomic
atomic-IsSound inst funct5 d rd rs1 rs2 h h1 h2 = ground arith

privileged-IsSound : (inst csr rd rs1 : ℕ) → IsSound (privileged inst csr rd rs1)
unfolding privileged
privileged-IsSound inst csr rd rs1 = ground arith

system-IsSound : (inst funct3 rd rs1 : ℕ) → rd < 32 → rs1 < 32 → IsSound (system inst funct3 rd rs1)
unfolding system
system-IsSound inst funct3 rd rs1 h h1 =
    ground (arith, privileged-IsSound inst (u16 (bit_and (inst >>> 20) 0xfff)) rd rs1)

-- `decode` of any word ends in an instruction whose register operands are below 32, or in the
-- illegal-instruction error; its `unreachable!` is not reached.
pub decode-IsSound : (inst : ℕ) → IsSound (decode inst)
unfolding decode
decode-IsSound inst =
    let funct3 = bit_and (inst >>> 12) 0x7 in
    let funct7 = bit_and (inst >>> 25) 0x7f in
    let rd = reg inst 7 in
    let rs1 = reg inst 15 in
    let rs2 = reg inst 20 in
    let hd : rd < 32 = reg-lt inst 7 in
    let h1 : rs1 < 32 = reg-lt inst 15 in
    let h2 : rs2 < 32 = reg-lt inst 20 in
    ground (
      arith,
      hd,
      h1,
      h2,
      bit_and-lt_right 5 (inst >>> 27) 0x1F (omega arith),
      register_op-IsSound inst funct3 funct7 rd rs1 rs2 hd h1 h2,
      register_op_w-IsSound inst funct3 funct7 rd rs1 rs2 hd h1 h2,
      arithmetic-IsSound inst funct3 rd rs1 (bit_and-lt_right 3 (inst >>> 12) 0x7 (omega arith)) hd
          h1,
      arithmetic_w-IsSound inst funct3 rd rs1 hd h1,
      load-IsSound inst funct3 rd rs1 (i_imm inst) hd h1,
      float_load-IsSound inst funct3 rd rs1 hd h1,
      store-IsSound inst funct3 rs1 rs2 (s_imm inst) h1 h2,
      float_store-IsSound inst funct3 rs1 rs2 h1 h2,
      branch-IsSound inst funct3 rs1 rs2 (b_imm inst) h1 h2,
      atomic-IsSound inst (bit_and (inst >>> 27) 0x1f) (bit_and funct3 0x1 == 1) rd rs1 rs2 hd h1
          h2,
      system-IsSound inst funct3 rd rs1 hd h1,
    )
