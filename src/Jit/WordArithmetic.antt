-- ===== src/Jit/WordArithmetic.antt =====
-- The compiled 32-bit arithmetic of src/jit.rs against what the interpreter computes.
use mathlib.Core.Path.{ap₂}
use risc_v_business.Base.{
  ℕ, ◌+◌, ◌*◌, ◌/◌, ◌%◌, ◌^◌, ◌<◌, ◌≡◌, refl, ap, ◌∙◌, arith, u32, bit_and, bit_and-ones,
  wrapping_add, wrapping_sub, ◌<<<◌, ◌>>>◌, asr64,
}
use risc_v_business.VirtioBlk.{Disk}
use risc_v_business.Decode
use risc_v_business.Cpu.{Cpu, reg}
use risc_v_business.Execute.Alu.{sext, shift_left_w, shift_right_w, shift_signed_w}
use risc_v_business.Jit.Asm.Run.{step, run}
use risc_v_business.Jit.Arms.{emit, emit_words, emit_divisions, emit_memory, emit_jumps}
use risc_v_business.Jit.Equivalence.{ZeroKept}
use risc_v_business.Jit.Shapes.{Gives, w_op, iw_op}
use risc_v_business.Jit.Arithmetic.{sext-u32}

low_mul : (a p : ℕ) → u32 (u32 a * p) ≡ u32 (a * p)
low_mul a p =
    omega (arith, ap (λ z. z * p) {x = a} {y = u32 a + 2 ^ 32 * (a / 2 ^ 32)} (omega arith))

-- What the host makes of the counts of shifts.
count_32 : (x y : ℕ) → x ≡ u32 y → bit_and (u32 x) (u32 (sext 31 31)) % 2 ^ 8 % 32 ≡ bit_and y 0x1f
unfolding sext
count_32 x y p =
    omega (arith, ap (λ t. bit_and (u32 t) 31) p, bit_and-ones 5 y, bit_and-ones 5 (u32 (u32 y)))

same_low : (x y : ℕ) → u32 x ≡ u32 y → sext (u32 x) 31 ≡ sext y 31
same_low x y p = ap (λ t. sext t 31) p ∙ sext-u32 y

-- The 32-bit shifts, on registers that hold the lower halves.
shl_w_value :
    (x a j k : ℕ) → x ≡ u32 a → j ≡ k → sext (u32 (u32 (u32 x <<< j))) 31 ≡ shift_left_w a k
shl_w_value x a j k p q =
    ap₂ (λ x j. sext (u32 (u32 (u32 x <<< j))) 31) p q
    ∙ same_low (u32 (u32 (u32 a) <<< k)) (a <<< k) (
        omega (
          arith,
          ap (λ z. u32 (z * 2 ^ k)) {x = u32 (u32 a)} {y = u32 a} (omega arith),
          low_mul a (2 ^ k),
        ))

shr_w_value : (x a j k : ℕ) → x ≡ u32 a → j ≡ k → sext (u32 (u32 x >>> j)) 31 ≡ shift_right_w a k
shr_w_value x a j k p q =
    ap₂ (λ x j. sext (u32 (u32 x >>> j)) 31) p q
    ∙ (sext-u32 (u32 (u32 a) >>> k)
        ∙ ap (λ z. sext (z >>> k) 31) {x = u32 (u32 a)} {y = u32 a} (omega arith))

sar_w_value :
    (x a j k : ℕ)
    → x ≡ u32 a
    → j ≡ k
    → sext (u32 (u32 (asr64 (sext (u32 x) 31) j))) 31 ≡ shift_signed_w a k
sar_w_value x a j k p q =
    ap₂ (λ x j. sext (u32 (u32 (asr64 (sext (u32 x) 31) j))) 31) p q
    ∙ (same_low (u32 (asr64 (sext (u32 (u32 a)) 31) k)) (asr64 (sext (u32 (u32 a)) 31) k)
          (omega arith)
        ∙ ap (λ z. sext (asr64 (sext z 31) k) 31) {x = u32 (u32 a)} {y = u32 a} (omega arith))

module _ {F : Type 0} (D : Disk F) (rounds clobbered : ℕ) (c : Cpu F) (zero_kept : ZeroKept c)
    (bounded : (r : ℕ) → reg c r < 2 ^ 64) where
  pub addw-Gives :
      (rd rs1 rs2 pc : ℕ)
      → Gives D rounds clobbered c
          (emit (Decode.addw rd rs1 rs2) pc).0
          rd
          (sext (wrapping_add (reg c rs1) (reg c rs2)) 31)
  unfolding emit emit_words emit_divisions emit_memory emit_jumps run step
  addw-Gives rd rs1 rs2 pc = w_op D rounds clobbered c zero_kept rd rs1 rs2 _ _ λ w st e f. (
    _,
    (same_low _ _ (omega (arith, e, f, bounded rs1, bounded rs2)), record { leads = λ rest. refl }),
  )

  pub subw-Gives :
      (rd rs1 rs2 pc : ℕ)
      → Gives D rounds clobbered c
          (emit (Decode.subw rd rs1 rs2) pc).0
          rd
          (sext (wrapping_sub (reg c rs1) (reg c rs2)) 31)
  unfolding emit emit_words emit_divisions emit_memory emit_jumps run step
  subw-Gives rd rs1 rs2 pc = w_op D rounds clobbered c zero_kept rd rs1 rs2 _ _ λ w st e f. (
    _,
    (same_low _ _ (omega (arith, e, f, bounded rs1, bounded rs2)), record { leads = λ rest. refl }),
  )

  pub sllw-Gives :
      (rd rs1 rs2 pc : ℕ)
      → Gives D rounds clobbered c
          (emit (Decode.sllw rd rs1 rs2) pc).0
          rd
          (shift_left_w (reg c rs1) (bit_and (reg c rs2) 0x1f))
  unfolding emit emit_words emit_divisions emit_memory emit_jumps run step
  sllw-Gives rd rs1 rs2 pc =
      w_op D rounds clobbered c zero_kept rd rs1 rs2 _ _
        λ w st e f. (_, (shl_w_value _ _ _ _ e (count_32 _ _ f), record { leads = λ rest. refl }))

  pub srlw-Gives :
      (rd rs1 rs2 pc : ℕ)
      → Gives D rounds clobbered c
          (emit (Decode.srlw rd rs1 rs2) pc).0
          rd
          (shift_right_w (reg c rs1) (bit_and (reg c rs2) 0x1f))
  unfolding emit emit_words emit_divisions emit_memory emit_jumps run step
  srlw-Gives rd rs1 rs2 pc =
      w_op D rounds clobbered c zero_kept rd rs1 rs2 _ _
        λ w st e f. (_, (shr_w_value _ _ _ _ e (count_32 _ _ f), record { leads = λ rest. refl }))

  pub sraw-Gives :
      (rd rs1 rs2 pc : ℕ)
      → Gives D rounds clobbered c
          (emit (Decode.sraw rd rs1 rs2) pc).0
          rd
          (shift_signed_w (reg c rs1) (bit_and (reg c rs2) 0x1f))
  unfolding emit emit_words emit_divisions emit_memory emit_jumps run step
  sraw-Gives rd rs1 rs2 pc =
      w_op D rounds clobbered c zero_kept rd rs1 rs2 _ _
        λ w st e f. (_, (sar_w_value _ _ _ _ e (count_32 _ _ f), record { leads = λ rest. refl }))

  pub addiw-Gives :
      (rd rs1 i pc : ℕ)
      → sext (u32 i) 31 ≡ i
      → Gives D rounds clobbered c
          (emit (Decode.addiw rd rs1 i) pc).0
          rd
          (sext (wrapping_add (reg c rs1) i) 31)
  unfolding emit emit_words emit_divisions emit_memory emit_jumps run step
  addiw-Gives rd rs1 i pc h =
      iw_op D rounds clobbered c zero_kept rd rs1 _ _
        λ y w st e f. (_, (same_low _ _ (omega (arith, e, h)), record { leads = λ rest. refl }))

  pub slliw-Gives :
      (rd rs1 k pc : ℕ)
      → k < 32
      → Gives D rounds clobbered c
          (emit (Decode.slliw rd rs1 k) pc).0
          rd
          (shift_left_w (reg c rs1) k)
  unfolding emit emit_words emit_divisions emit_memory emit_jumps run step
  slliw-Gives rd rs1 k pc h =
      iw_op D rounds clobbered c zero_kept rd rs1 _ _ λ y w st e f.
        (_, (shl_w_value _ _ _ _ e (omega (arith, h)), record { leads = λ rest. refl }))

  pub srliw-Gives :
      (rd rs1 k pc : ℕ)
      → k < 32
      → Gives D rounds clobbered c
          (emit (Decode.srliw rd rs1 k) pc).0
          rd
          (shift_right_w (reg c rs1) k)
  unfolding emit emit_words emit_divisions emit_memory emit_jumps run step
  srliw-Gives rd rs1 k pc h =
      iw_op D rounds clobbered c zero_kept rd rs1 _ _ λ y w st e f.
        (_, (shr_w_value _ _ _ _ e (omega (arith, h)), record { leads = λ rest. refl }))

  pub sraiw-Gives :
      (rd rs1 k pc : ℕ)
      → k < 32
      → Gives D rounds clobbered c
          (emit (Decode.sraiw rd rs1 k) pc).0
          rd
          (shift_signed_w (reg c rs1) k)
  unfolding emit emit_words emit_divisions emit_memory emit_jumps run step
  sraiw-Gives rd rs1 k pc h =
      iw_op D rounds clobbered c zero_kept rd rs1 _ _ λ y w st e f.
        (_, (sar_w_value _ _ _ _ e (omega (arith, h)), record { leads = λ rest. refl }))
