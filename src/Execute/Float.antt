-- ===== src/Execute/Float.antt =====
-- The floating-point instructions, src/cpu/execute.rs: OP-FP and the fused multiply-add. A float is
-- its bit pattern. The arithmetic of `f32` and `f64` is the host's and a parameter.
pub mod Formats
use risc_v_business.Base.{
  ℕ, ◌+◌, ◌-◌, ◌^◌, Bool, not, ◌&&◌, ltb, leb, ◌==◌, if◌then◌else◌, get_or, set, bit_and, bit_or,
  bit_xor, u32, not64, ◌>>>◌, ◌<<<◌,
}
use risc_v_business.Cpu.{Cpu, set_reg, deliver_trap}
use risc_v_business.Execute.{Arm, done, next_pc}
use risc_v_business.Execute.Alu.{sext, as_number}
pub use risc_v_business.Execute.Float.Formats.{Host, Floats}
use risc_v_business.Execute.Float.Formats.{
  Format, single, double, negated, float_le, float_lt, float_eq, fmin, fmax, fclass,
}

-- A single in a register of 64 bits has ones above it; what has not is read as a NaN.
unfoldable pub unboxed : ℕ → ℕ
unboxed v = if (v >>> 32) == 0xFFFF_FFFF then u32 v else 0x7FC0_0000

unfoldable pub boxed : ℕ → ℕ
boxed v = bit_or 0xFFFF_FFFF_0000_0000 v

-- What an OP-FP instruction comes to: a value for a float register or for an integer register, or a
-- trap, before or after the mark that the float registers have changed.
pub data Outcome : Type 0 where
  to_float to_integer : ℕ → Outcome
  trap_unmarked trap_marked : Outcome

abbrev pub sign_bits : ℕ → ℕ → ℕ → ℕ → (ℕ → Outcome) → Outcome
sign_bits rm a b sign inject =
    if rm == 0
    then inject (bit_and b sign)
    else if rm == 1
    then inject (bit_and (not64 b) sign)
    else if rm == 2
    then inject (bit_and (bit_xor a b) sign)
    else trap_unmarked

unfoldable pub sign_inject_s : ℕ → ℕ → ℕ → Outcome
sign_inject_s rm a b =
    sign_bits rm a b 0x8000_0000
      λ sign. to_float (bit_or (bit_or 0xFFFF_FFFF_0000_0000 (bit_and a 0x7FFF_FFFF)) sign)

unfoldable pub sign_inject_d : ℕ → ℕ → ℕ → Outcome
sign_inject_d rm a b =
    sign_bits rm a b 0x8000_0000_0000_0000
      λ sign. to_float (bit_or (bit_and a 0x7FFF_FFFF_FFFF_FFFF) sign)

unfoldable pub min_max : ℕ → ℕ → ℕ → Outcome
min_max rm least greatest =
    if rm == 0 then to_float least else if rm == 1 then to_float greatest else trap_marked

unfoldable pub compare : Format → ℕ → ℕ → ℕ → Outcome
compare f rm a b =
    if rm == 0
    then to_integer (as_number (float_le f a b))
    else if rm == 1
    then to_integer (as_number (float_lt f a b))
    else if rm == 2
    then to_integer (as_number (float_eq f a b))
    else trap_unmarked

unfoldable pub to_integer_cast : Host → ℕ → ℕ → Outcome
to_integer_cast h kind a =
    if kind == 0
    then to_integer (h.to_i32 a)
    else if kind == 1
    then to_integer (h.to_u32 a)
    else if kind == 2
    then to_integer (h.to_i64 a)
    else if kind == 3
    then to_integer (h.to_u64 a)
    else trap_unmarked

unfoldable pub from_integer_cast : Host → (ℕ → ℕ) → ℕ → ℕ → Outcome
from_integer_cast h box kind x =
    if kind == 0
    then to_float (box (h.from_i32 x))
    else if kind == 1
    then to_float (box (h.from_u32 x))
    else if kind == 2
    then to_float (box (h.from_i64 x))
    else if kind == 3
    then to_float (box (h.from_u64 x))
    else trap_unmarked

unfoldable pub move_or_class : ℕ → ℕ → ℕ → Outcome
move_or_class rm moved class =
    if rm == 0 then to_integer moved else if rm == 1 then to_integer class else trap_marked

-- The table of OP-FP. `a` and `b` are the float registers `rs1` and `rs2`, `x` the integer register
-- `rs1`; `rs2` is also the kind of a cast.
unfoldable pub op_fp_outcome : Floats → ℕ → ℕ → ℕ → ℕ → ℕ → ℕ → Outcome
op_fp_outcome fl funct7 rs2 rm a b x =
    let sa = unboxed a in
    let sb = unboxed b in
    if funct7 == 0x00
    then to_float (boxed (fl.f32.add sa sb))
    else if funct7 == 0x01
    then to_float (fl.f64.add a b)
    else if funct7 == 0x04
    then to_float (boxed (fl.f32.sub sa sb))
    else if funct7 == 0x05
    then to_float (fl.f64.sub a b)
    else if funct7 == 0x08
    then to_float (boxed (fl.f32.mul sa sb))
    else if funct7 == 0x09
    then to_float (fl.f64.mul a b)
    else if funct7 == 0x0C
    then to_float (boxed (fl.f32.div sa sb))
    else if funct7 == 0x0D
    then to_float (fl.f64.div a b)
    else if funct7 == 0x2C
    then to_float (boxed (fl.f32.sqrt sa))
    else if funct7 == 0x2D
    then to_float (fl.f64.sqrt a)
    else if funct7 == 0x10
    then sign_inject_s rm a b
    else if funct7 == 0x11
    then sign_inject_d rm a b
    else if funct7 == 0x14
    then min_max rm (boxed (fmin single fl.f32 sa sb)) (boxed (fmax single fl.f32 sa sb))
    else if funct7 == 0x15
    then min_max rm (fmin double fl.f64 a b) (fmax double fl.f64 a b)
    else if funct7 == 0x20
    then to_float (boxed (fl.narrow a))
    else if funct7 == 0x21
    then to_float (fl.widen sa)
    else if funct7 == 0x50
    then compare single rm sa sb
    else if funct7 == 0x51
    then compare double rm a b
    else if funct7 == 0x60
    then to_integer_cast fl.f32 rs2 sa
    else if funct7 == 0x61
    then to_integer_cast fl.f64 rs2 a
    else if funct7 == 0x68
    then from_integer_cast fl.f32 boxed rs2 x
    else if funct7 == 0x69
    then from_integer_cast fl.f64 (λ v. v) rs2 x
    else if funct7 == 0x70
    then move_or_class rm (sext (u32 a) 31) (fclass single sa)
    else if funct7 == 0x71
    then move_or_class rm a (fclass double a)
    else if funct7 == 0x78
    then to_float (bit_or 0xFFFF_FFFF_0000_0000 (bit_and x 0xFFFF_FFFF))
    else if funct7 == 0x79
    then to_float x
    else trap_marked

-- The four fused operations of a format.
abbrev pub fused : Host → Format → (ℕ → ℕ) → ℕ → ℕ → ℕ → ℕ → Outcome
fused h f box opcode a b c =
    if opcode == 0x43
    then to_float (box (h.mul_add a b c))
    else if opcode == 0x47
    then to_float (box (h.mul_add a b (negated f c)))
    else if opcode == 0x4B
    then to_float (box (h.mul_add (negated f a) b c))
    else if opcode == 0x4F
    then to_float (box (h.mul_add (negated f a) b (negated f c)))
    else trap_marked

unfoldable pub fma_outcome : Floats → ℕ → ℕ → ℕ → ℕ → ℕ → Outcome
fma_outcome fl opcode fmt a b c =
    if fmt == 0
    then fused fl.f32 single boxed opcode (unboxed a) (unboxed b) (unboxed c)
    else if fmt == 1
    then fused fl.f64 double (λ v. v) opcode a b c
    else trap_marked

module _ {F : Type 0} where
  abbrev pub freg : Cpu F → ℕ → ℕ
  freg c n = get_or c.fregs n 0

  abbrev pub set_freg : Cpu F → ℕ → ℕ → Cpu F
  set_freg c n val = record c { fregs = set c.fregs n val }

  -- FS = Dirty.
  unfoldable pub mark : Cpu F → Cpu F
  mark c = record c { csr = record c.csr { mstatus = bit_or c.csr.mstatus 0x6000 } }

  unfoldable pub finish : ℕ → Cpu F → Outcome → Cpu F
  finish rd c (to_float v) = record (mark (set_freg c rd v)) { pc = next_pc c }
  finish rd c (to_integer v) = record (mark (set_reg c rd v)) { pc = next_pc c }
  finish rd c trap_unmarked = deliver_trap c 2 0
  finish rd c trap_marked = mark (deliver_trap c 2 0)

  unfoldable pub op_fp : Floats → (funct7 rs2 rs1 rm rd : ℕ) → Arm F
  op_fp fl funct7 rs2 rs1 rm rd = done λ c.
      finish rd c (op_fp_outcome fl funct7 rs2 rm (freg c rs1) (freg c rs2) (get_or c.regs rs1 0))

  unfoldable pub fma : Floats → (opcode fmt rs3 rs2 rs1 rd : ℕ) → Arm F
  fma fl opcode fmt rs3 rs2 rs1 rd =
      done λ c. finish rd c (fma_outcome fl opcode fmt (freg c rs1) (freg c rs2) (freg c rs3))
