-- ===== src/Jit/Arithmetic.antt =====
-- The compiled arithmetic of src/jit.rs, divisions apart, against what the interpreter computes.
use mathlib.Core.Path.{ap₂}
use risc_v_business.Base.{
  ℕ, ◌*◌, ◌%◌, ◌^◌, ◌<◌, ◌≡◌, refl, ap, ◌∙◌, ltb, arith, u32, bit_and, bit_or, bit_xor,
  bit_and-ones, wrapping_add, wrapping_sub, ◌<<<◌, ◌>>>◌, asr64,
}
use risc_v_business.VirtioBlk.{Disk}
use risc_v_business.Decode
use risc_v_business.Cpu.{Cpu, reg}
use risc_v_business.Execute.Alu.{
  sext, signed_lt, as_number, mul_value, mulh_value, mulhu_value, widen, times,
}
use risc_v_business.Jit.Asm.{Condition}
use risc_v_business.Jit.Asm.Run.{step, run}
use risc_v_business.Jit.Arms.{emit, emit_words, emit_divisions, emit_memory, emit_jumps}
use risc_v_business.Jit.Equivalence.{ZeroKept}
use risc_v_business.Jit.Shapes.{Gives, set_low_byte-low, r_op, i_op, compare_op}
use risc_v_business.Execute.Product.{mulhu-mul}

-- Only the low 32 bits count for a sign extension from bit 31.
pub sext-u32 : (x : ℕ) → sext (u32 x) 31 ≡ sext x 31
unfolding sext
sext-u32 x = ap (λ t. asr64 t 32) (omega arith)

-- What the host makes of the counts of shifts.
count_64 : (x y : ℕ) → x ≡ y → bit_and x (sext 63 31) % 2 ^ 8 % 64 ≡ bit_and y 0x3f
unfolding sext
count_64 x y p = omega (arith, ap (λ t. bit_and t 63) p, bit_and-ones 6 y)

product_low : (a b : ℕ) → a < 2 ^ 64 → b < 2 ^ 64 → a * b % 2 ^ 64 ≡ mul_value a b
unfolding mul_value mulhu_value
product_low a b ha hb = omega (arith, mulhu-mul a b ha hb)

module _ {F : Type 0} (D : Disk F) (rounds clobbered : ℕ) (c : Cpu F) (zero_kept : ZeroKept c)
    (bounded : (r : ℕ) → reg c r < 2 ^ 64) where
  pub add-Gives :
      (rd rs1 rs2 pc : ℕ)
      → Gives D rounds clobbered c
          (emit (Decode.add rd rs1 rs2) pc).0
          rd
          (wrapping_add (reg c rs1) (reg c rs2))
  unfolding emit emit_words emit_divisions emit_memory emit_jumps run step
  add-Gives rd rs1 rs2 pc =
      r_op D rounds clobbered c zero_kept rd rs1 rs2 _ _
        λ w st e f. (_, (ap₂ wrapping_add e f, record { leads = λ rest. refl }))

  pub sub-Gives :
      (rd rs1 rs2 pc : ℕ)
      → Gives D rounds clobbered c
          (emit (Decode.sub rd rs1 rs2) pc).0
          rd
          (wrapping_sub (reg c rs1) (reg c rs2))
  unfolding emit emit_words emit_divisions emit_memory emit_jumps run step
  sub-Gives rd rs1 rs2 pc =
      r_op D rounds clobbered c zero_kept rd rs1 rs2 _ _
        λ w st e f. (_, (ap₂ wrapping_sub e f, record { leads = λ rest. refl }))

  pub and-Gives :
      (rd rs1 rs2 pc : ℕ)
      → Gives D rounds clobbered c
          (emit (Decode.and rd rs1 rs2) pc).0
          rd
          (bit_and (reg c rs1) (reg c rs2))
  unfolding emit emit_words emit_divisions emit_memory emit_jumps run step
  and-Gives rd rs1 rs2 pc =
      r_op D rounds clobbered c zero_kept rd rs1 rs2 _ _
        λ w st e f. (_, (ap₂ bit_and e f, record { leads = λ rest. refl }))

  pub or-Gives :
      (rd rs1 rs2 pc : ℕ)
      → Gives D rounds clobbered c
          (emit (Decode.or rd rs1 rs2) pc).0
          rd
          (bit_or (reg c rs1) (reg c rs2))
  unfolding emit emit_words emit_divisions emit_memory emit_jumps run step
  or-Gives rd rs1 rs2 pc =
      r_op D rounds clobbered c zero_kept rd rs1 rs2 _ _
        λ w st e f. (_, (ap₂ bit_or e f, record { leads = λ rest. refl }))

  pub xor-Gives :
      (rd rs1 rs2 pc : ℕ)
      → Gives D rounds clobbered c
          (emit (Decode.xor rd rs1 rs2) pc).0
          rd
          (bit_xor (reg c rs1) (reg c rs2))
  unfolding emit emit_words emit_divisions emit_memory emit_jumps run step
  xor-Gives rd rs1 rs2 pc =
      r_op D rounds clobbered c zero_kept rd rs1 rs2 _ _
        λ w st e f. (_, (ap₂ bit_xor e f, record { leads = λ rest. refl }))

  pub sll-Gives :
      (rd rs1 rs2 pc : ℕ)
      → Gives D rounds clobbered c
          (emit (Decode.sll rd rs1 rs2) pc).0
          rd
          (◌<<<◌ (reg c rs1) (bit_and (reg c rs2) 0x3f))
  unfolding emit emit_words emit_divisions emit_memory emit_jumps run step
  sll-Gives rd rs1 rs2 pc =
      r_op D rounds clobbered c zero_kept rd rs1 rs2 _ _
        λ w st e f. (_, (ap₂ ◌<<<◌ e (count_64 _ _ f), record { leads = λ rest. refl }))

  pub srl-Gives :
      (rd rs1 rs2 pc : ℕ)
      → Gives D rounds clobbered c
          (emit (Decode.srl rd rs1 rs2) pc).0
          rd
          (◌>>>◌ (reg c rs1) (bit_and (reg c rs2) 0x3f))
  unfolding emit emit_words emit_divisions emit_memory emit_jumps run step
  srl-Gives rd rs1 rs2 pc =
      r_op D rounds clobbered c zero_kept rd rs1 rs2 _ _
        λ w st e f. (_, (ap₂ ◌>>>◌ e (count_64 _ _ f), record { leads = λ rest. refl }))

  pub sra-Gives :
      (rd rs1 rs2 pc : ℕ)
      → Gives D rounds clobbered c
          (emit (Decode.sra rd rs1 rs2) pc).0
          rd
          (asr64 (reg c rs1) (bit_and (reg c rs2) 0x3f))
  unfolding emit emit_words emit_divisions emit_memory emit_jumps run step
  sra-Gives rd rs1 rs2 pc =
      r_op D rounds clobbered c zero_kept rd rs1 rs2 _ _
        λ w st e f. (_, (ap₂ asr64 e (count_64 _ _ f), record { leads = λ rest. refl }))

  pub slt-Gives :
      (rd rs1 rs2 pc : ℕ)
      → Gives D rounds clobbered c
          (emit (Decode.slt rd rs1 rs2) pc).0
          rd
          (as_number (signed_lt (reg c rs1) (reg c rs2)))
  unfolding emit emit_words emit_divisions emit_memory emit_jumps
  slt-Gives rd rs1 rs2 pc = compare_op D rounds clobbered c zero_kept Condition.l rd rs1 rs2

  pub sltu-Gives :
      (rd rs1 rs2 pc : ℕ)
      → Gives D rounds clobbered c
          (emit (Decode.sltu rd rs1 rs2) pc).0
          rd
          (as_number (ltb (reg c rs1) (reg c rs2)))
  unfolding emit emit_words emit_divisions emit_memory emit_jumps
  sltu-Gives rd rs1 rs2 pc = compare_op D rounds clobbered c zero_kept Condition.b rd rs1 rs2

  pub addi-Gives :
      (rd rs1 i pc : ℕ)
      → sext (u32 i) 31 ≡ i
      → Gives D rounds clobbered c
          (emit (Decode.addi rd rs1 i) pc).0
          rd
          (wrapping_add (reg c rs1) i)
  unfolding emit emit_words emit_divisions emit_memory emit_jumps run step
  addi-Gives rd rs1 i pc h =
      i_op D rounds clobbered c zero_kept rd rs1 _ _
        λ y w st e f. (_, (ap₂ wrapping_add e h, record { leads = λ rest. refl }))

  pub andi-Gives :
      (rd rs1 i pc : ℕ)
      → sext (u32 i) 31 ≡ i
      → Gives D rounds clobbered c (emit (Decode.andi rd rs1 i) pc).0 rd (bit_and (reg c rs1) i)
  unfolding emit emit_words emit_divisions emit_memory emit_jumps run step
  andi-Gives rd rs1 i pc h =
      i_op D rounds clobbered c zero_kept rd rs1 _ _
        λ y w st e f. (_, (ap₂ bit_and e h, record { leads = λ rest. refl }))

  pub ori-Gives :
      (rd rs1 i pc : ℕ)
      → sext (u32 i) 31 ≡ i
      → Gives D rounds clobbered c (emit (Decode.ori rd rs1 i) pc).0 rd (bit_or (reg c rs1) i)
  unfolding emit emit_words emit_divisions emit_memory emit_jumps run step
  ori-Gives rd rs1 i pc h =
      i_op D rounds clobbered c zero_kept rd rs1 _ _
        λ y w st e f. (_, (ap₂ bit_or e h, record { leads = λ rest. refl }))

  pub xori-Gives :
      (rd rs1 i pc : ℕ)
      → sext (u32 i) 31 ≡ i
      → Gives D rounds clobbered c (emit (Decode.xori rd rs1 i) pc).0 rd (bit_xor (reg c rs1) i)
  unfolding emit emit_words emit_divisions emit_memory emit_jumps run step
  xori-Gives rd rs1 i pc h =
      i_op D rounds clobbered c zero_kept rd rs1 _ _
        λ y w st e f. (_, (ap₂ bit_xor e h, record { leads = λ rest. refl }))

  pub slti-Gives :
      (rd rs1 i pc : ℕ)
      → sext (u32 i) 31 ≡ i
      → Gives D rounds clobbered c
          (emit (Decode.slti rd rs1 i) pc).0
          rd
          (as_number (signed_lt (reg c rs1) i))
  unfolding emit emit_words emit_divisions emit_memory emit_jumps run step
  slti-Gives rd rs1 i pc h = i_op D rounds clobbered c zero_kept rd rs1 _ _ λ y w st e f. (
    _,
    (
      set_low_byte-low _ _ ∙ ap₂ (λ x z. as_number (signed_lt x z)) e h,
      record { leads = λ rest. refl },
    ),
  )

  pub sltiu-Gives :
      (rd rs1 i pc : ℕ)
      → sext (u32 i) 31 ≡ i
      → Gives D rounds clobbered c
          (emit (Decode.sltiu rd rs1 i) pc).0
          rd
          (as_number (ltb (reg c rs1) i))
  unfolding emit emit_words emit_divisions emit_memory emit_jumps run step
  sltiu-Gives rd rs1 i pc h = i_op D rounds clobbered c zero_kept rd rs1 _ _ λ y w st e f. (
    _,
    (set_low_byte-low _ _ ∙ ap₂ (λ x z. as_number (ltb x z)) e h, record { leads = λ rest. refl }),
  )

  pub slli-Gives :
      (rd rs1 k pc : ℕ)
      → k < 64
      → Gives D rounds clobbered c (emit (Decode.slli rd rs1 k) pc).0 rd (◌<<<◌ (reg c rs1) k)
  unfolding emit emit_words emit_divisions emit_memory emit_jumps run step
  slli-Gives rd rs1 k pc h =
      i_op D rounds clobbered c zero_kept rd rs1 _ _
        λ y w st e f. (_, (ap₂ ◌<<<◌ e (omega (arith, h)), record { leads = λ rest. refl }))

  pub srli-Gives :
      (rd rs1 k pc : ℕ)
      → k < 64
      → Gives D rounds clobbered c (emit (Decode.srli rd rs1 k) pc).0 rd (◌>>>◌ (reg c rs1) k)
  unfolding emit emit_words emit_divisions emit_memory emit_jumps run step
  srli-Gives rd rs1 k pc h =
      i_op D rounds clobbered c zero_kept rd rs1 _ _
        λ y w st e f. (_, (ap₂ ◌>>>◌ e (omega (arith, h)), record { leads = λ rest. refl }))

  pub srai-Gives :
      (rd rs1 k pc : ℕ)
      → k < 64
      → Gives D rounds clobbered c (emit (Decode.srai rd rs1 k) pc).0 rd (asr64 (reg c rs1) k)
  unfolding emit emit_words emit_divisions emit_memory emit_jumps run step
  srai-Gives rd rs1 k pc h =
      i_op D rounds clobbered c zero_kept rd rs1 _ _
        λ y w st e f. (_, (ap₂ asr64 e (omega (arith, h)), record { leads = λ rest. refl }))

  pub mul-Gives :
      (rd rs1 rs2 pc : ℕ)
      → Gives D rounds clobbered c
          (emit (Decode.mul rd rs1 rs2) pc).0
          rd
          (mul_value (reg c rs1) (reg c rs2))
  unfolding emit emit_words emit_divisions emit_memory emit_jumps run step
  mul-Gives rd rs1 rs2 pc = r_op D rounds clobbered c zero_kept rd rs1 rs2 _ _ λ w st e f. (
    _,
    (
      ap₂ (λ x y. x * y % 2 ^ 64) e f ∙ product_low _ _ (bounded rs1) (bounded rs2),
      record { leads = λ rest. refl },
    ),
  )

  pub mulh-Gives :
      (rd rs1 rs2 pc : ℕ)
      → Gives D rounds clobbered c
          (emit (Decode.mulh rd rs1 rs2) pc).0
          rd
          (mulh_value (reg c rs1) (reg c rs2))
  unfolding emit emit_words emit_divisions emit_memory emit_jumps run step mulh_value
  mulh-Gives rd rs1 rs2 pc = r_op D rounds clobbered c zero_kept rd rs1 rs2 _ _ λ w st e f.
      (_, (ap₂ (λ x y. times (widen x) (widen y) >>> 64) e f, record { leads = λ rest. refl }))

  pub mulhu-Gives :
      (rd rs1 rs2 pc : ℕ)
      → Gives D rounds clobbered c
          (emit (Decode.mulhu rd rs1 rs2) pc).0
          rd
          (mulhu_value (reg c rs1) (reg c rs2))
  unfolding emit emit_words emit_divisions emit_memory emit_jumps run step mulhu_value
  mulhu-Gives rd rs1 rs2 pc =
      r_op D rounds clobbered c zero_kept rd rs1 rs2 _ _
        λ w st e f. (_, (ap₂ (λ x y. x * y >>> 64) e f, record { leads = λ rest. refl }))
