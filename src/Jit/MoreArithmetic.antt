-- ===== src/Jit/MoreArithmetic.antt =====
-- The other compiled arithmetic of src/jit.rs: constants, the product of words and the divisions.
use mathlib.Core.Path.{ap₂}
use risc_v_business.Base.{ℕ, ◌*◌, ◌^◌, ◌<◌, ◌≡◌, refl, ap, ◌∙◌, arith, u32, wrapping_add}
use risc_v_business.VirtioBlk.{Disk}
use risc_v_business.Decode
use risc_v_business.Cpu.{Cpu, reg}
use risc_v_business.Execute.Alu.{
  sext, mulw_value, div_value, rem_value, divu_value, remu_value, divw_value, remw_value,
  divuw_value, remuw_value,
}
use risc_v_business.Jit.Asm.Run.{step, run}
use risc_v_business.Jit.Arms.{emit, emit_words, emit_divisions, emit_memory, emit_jumps}
use risc_v_business.Jit.Division.{div-Computes, rem-Computes, divu-Computes, remu-Computes}
use risc_v_business.Jit.WordDivision.{divw-Computes, remw-Computes, divuw-Computes, remuw-Computes}
use risc_v_business.Jit.Equivalence.{ZeroKept, slot-reg}
use risc_v_business.Jit.Shapes.{
  Gives, iw_op, constant_op, signed_64-Gives, signed_32-Gives, unsigned_64-Gives, unsigned_32-Gives,
}

again : (x : ℕ) → u32 (u32 x) ≡ u32 x
again x = omega arith

mulw_low : (a b : ℕ) → sext (u32 (u32 (u32 (u32 a) * u32 b))) 31 ≡ mulw_value a b
unfolding mulw_value
mulw_low a b =
    ap (λ x. sext x 31)
      (again (u32 (u32 a) * u32 b)
        ∙ ap (λ x. u32 (x * u32 b)) {x = u32 (u32 a)} {y = u32 a} (omega arith))

module _ {F : Type 0} (D : Disk F) (rounds clobbered : ℕ) (c : Cpu F) where
  pub lui-Gives : (rd i pc : ℕ) → Gives D rounds clobbered c (emit (Decode.lui rd i) pc).0 rd i
  unfolding emit emit_words emit_divisions emit_memory emit_jumps
  lui-Gives rd i pc = constant_op D rounds clobbered c rd i

  pub auipc-Gives :
      (rd i pc : ℕ)
      → Gives D rounds clobbered c (emit (Decode.auipc rd i) pc).0 rd (wrapping_add pc i)
  unfolding emit emit_words emit_divisions emit_memory emit_jumps
  auipc-Gives rd i pc = constant_op D rounds clobbered c rd (wrapping_add pc i)

  module _ (zero_kept : ZeroKept c) (bounded : (r : ℕ) → reg c r < 2 ^ 64) where
    pub mulw-Gives :
        (rd rs1 rs2 pc : ℕ)
        → Gives D rounds clobbered c
            (emit (Decode.mulw rd rs1 rs2) pc).0
            rd
            (mulw_value (reg c rs1) (reg c rs2))
    unfolding emit emit_words emit_divisions emit_memory emit_jumps run step
    mulw-Gives rd rs1 rs2 pc = iw_op D rounds clobbered c zero_kept rd rs1 _ _ λ y w st e f. (
      _,
      (
        ap₂ (λ x y. sext (u32 (u32 (u32 x * u32 y))) 31) e (slot-reg c rs2 zero_kept)
            ∙ mulw_low (reg c rs1) (reg c rs2),
        record { leads = λ rest. refl },
      ),
    )

    pub div-Gives :
        (rd rs1 rs2 pc : ℕ)
        → Gives D rounds clobbered c
            (emit (Decode.div rd rs1 rs2) pc).0
            rd
            (div_value (reg c rs1) (reg c rs2))
    unfolding emit emit_words emit_divisions emit_memory emit_jumps
    div-Gives rd rs1 rs2 pc =
        signed_64-Gives D rounds clobbered c zero_kept rd rs1 rs2 _ _ _ _
          (div-Computes D rounds clobbered c (reg c rs1) (reg c rs2) (bounded rs1) (bounded rs2))

    pub rem-Gives :
        (rd rs1 rs2 pc : ℕ)
        → Gives D rounds clobbered c
            (emit (Decode.rem rd rs1 rs2) pc).0
            rd
            (rem_value (reg c rs1) (reg c rs2))
    unfolding emit emit_words emit_divisions emit_memory emit_jumps
    rem-Gives rd rs1 rs2 pc =
        signed_64-Gives D rounds clobbered c zero_kept rd rs1 rs2 _ _ _ _
          (rem-Computes D rounds clobbered c (reg c rs1) (reg c rs2) (bounded rs1) (bounded rs2))

    pub divu-Gives :
        (rd rs1 rs2 pc : ℕ)
        → Gives D rounds clobbered c
            (emit (Decode.divu rd rs1 rs2) pc).0
            rd
            (divu_value (reg c rs1) (reg c rs2))
    unfolding emit emit_words emit_divisions emit_memory emit_jumps
    divu-Gives rd rs1 rs2 pc =
        unsigned_64-Gives D rounds clobbered c zero_kept rd rs1 rs2 _ _ _
          (divu-Computes D rounds clobbered c (reg c rs1) (reg c rs2) (bounded rs1) (bounded rs2))

    pub remu-Gives :
        (rd rs1 rs2 pc : ℕ)
        → Gives D rounds clobbered c
            (emit (Decode.remu rd rs1 rs2) pc).0
            rd
            (remu_value (reg c rs1) (reg c rs2))
    unfolding emit emit_words emit_divisions emit_memory emit_jumps
    remu-Gives rd rs1 rs2 pc =
        unsigned_64-Gives D rounds clobbered c zero_kept rd rs1 rs2 _ _ _
          (remu-Computes D rounds clobbered c (reg c rs1) (reg c rs2) (bounded rs1) (bounded rs2))

    pub divw-Gives :
        (rd rs1 rs2 pc : ℕ)
        → Gives D rounds clobbered c
            (emit (Decode.divw rd rs1 rs2) pc).0
            rd
            (divw_value (reg c rs1) (reg c rs2))
    unfolding emit emit_words emit_divisions emit_memory emit_jumps
    divw-Gives rd rs1 rs2 pc =
        signed_32-Gives D rounds clobbered c zero_kept rd rs1 rs2 _ _ _ _
          (divw-Computes D rounds clobbered c (reg c rs1) (reg c rs2))

    pub remw-Gives :
        (rd rs1 rs2 pc : ℕ)
        → Gives D rounds clobbered c
            (emit (Decode.remw rd rs1 rs2) pc).0
            rd
            (remw_value (reg c rs1) (reg c rs2))
    unfolding emit emit_words emit_divisions emit_memory emit_jumps
    remw-Gives rd rs1 rs2 pc =
        signed_32-Gives D rounds clobbered c zero_kept rd rs1 rs2 _ _ _ _
          (remw-Computes D rounds clobbered c (reg c rs1) (reg c rs2))

    pub divuw-Gives :
        (rd rs1 rs2 pc : ℕ)
        → Gives D rounds clobbered c
            (emit (Decode.divuw rd rs1 rs2) pc).0
            rd
            (divuw_value (reg c rs1) (reg c rs2))
    unfolding emit emit_words emit_divisions emit_memory emit_jumps
    divuw-Gives rd rs1 rs2 pc =
        unsigned_32-Gives D rounds clobbered c zero_kept rd rs1 rs2 _ _ _
          (divuw-Computes D rounds clobbered c (reg c rs1) (reg c rs2))

    pub remuw-Gives :
        (rd rs1 rs2 pc : ℕ)
        → Gives D rounds clobbered c
            (emit (Decode.remuw rd rs1 rs2) pc).0
            rd
            (remuw_value (reg c rs1) (reg c rs2))
    unfolding emit emit_words emit_divisions emit_memory emit_jumps
    remuw-Gives rd rs1 rs2 pc =
        unsigned_32-Gives D rounds clobbered c zero_kept rd rs1 rs2 _ _ _
          (remuw-Computes D rounds clobbered c (reg c rs1) (reg c rs2))
