-- ===== src/Jit/Emit.antt =====
-- The emitters of src/jit.rs for 32-bit instructions: the assembly that `compile` writes for each.
use risc_v_business.Base.{ℕ, ◌-◌, ◌*◌, ◌^◌, ◌==◌, if◌then◌else◌, List, [], ◌∷◌, ◌++◌, u32, max_u64}
use risc_v_business.Jit.Asm.{
  Width, w64, w32, rax, rcx, rdx, Operand, slot, imm, Binary, Condition, Callout, Op, mov_load,
  movsx_load, mov_store, mov_imm, mov, binary, cmp, test, set_al, movzx_al, movsxd, cqo, div_rcx,
  idiv_rcx, div_ecx, mov_rsi_slot, add_rsi, mov_rdi_r14, mov_r15_rdi, mov_r14_rsi, mov_pc, call,
  push_r15, push_r14, pop_r14, pop_r15, sub_rsp_8, add_rsp_8, jmp, label, jcc, ret,
}

-- The labels. A jump goes to the next place that has its label, so that they may be the same in every
-- instruction.
abbrev pub not_zero : ℕ
not_zero = 0

abbrev pub no_overflow : ℕ
no_overflow = 1

abbrev pub done : ℕ
done = 2

abbrev pub fault : ℕ
fault = 3

abbrev pub skip_fault : ℕ
skip_fault = 4

abbrev pub taken : ℕ
taken = 5

-- What becomes of a block at an instruction: it goes on behind it, it has ended, or the instruction is
-- not compiled.
pub data Effect : Type 0 where
  seq terminal unhandled : Effect

-- The place of a register behind r15.
abbrev pub off : ℕ → ℕ
off r = r * 8

-- `if rd != 0 { mov QWORD [r15 + rd_off], rax }`.
unfoldable pub store_rd : ℕ → List Op
store_rd rd = if rd == 0 then [] else mov_store (off rd) rax ∷ []

abbrev pub emit_prologue : List Op
emit_prologue = push_r15 ∷ push_r14 ∷ sub_rsp_8 ∷ mov_r15_rdi ∷ mov_r14_rsi ∷ []

unfoldable pub emit_return : ℕ → List Op
emit_return next_pc = add_rsp_8 ∷ pop_r14 ∷ pop_r15 ∷ mov_imm rax next_pc ∷ ret ∷ []

unfoldable pub emit_slow_path : List Op
emit_slow_path = add_rsp_8 ∷ pop_r14 ∷ pop_r15 ∷ mov_imm rax max_u64 ∷ ret ∷ []

unfoldable pub emit_fault_return : ℕ → List Op
emit_fault_return fault_pc =
    mov_imm rax fault_pc ∷ mov_pc ∷ add_rsp_8 ∷ pop_r14 ∷ pop_r15 ∷ mov_imm rax max_u64 ∷ ret ∷ []

unfoldable pub emit_load : (rd rs1 offset width guest_pc : ℕ) → List Op
emit_load rd rs1 offset width guest_pc =
    (mov_rsi_slot (off rs1)
      ∷ add_rsi (u32 offset)
      ∷ mov_rdi_r14
      ∷ call (Callout.load width)
      ∷ cmp rax (imm (2 ^ 32 - 1))
      ∷ jcc Condition.e fault
      ∷ [])
    ++ (store_rd rd
        ++ (jmp skip_fault ∷ label fault ∷ emit_fault_return guest_pc ++ label skip_fault ∷ []))

unfoldable pub emit_store : (rs1 rs2 offset width guest_pc : ℕ) → List Op
emit_store rs1 rs2 offset width guest_pc =
    (mov_rsi_slot (off rs1)
      ∷ add_rsi (u32 offset)
      ∷ mov_load w64 rdx (off rs2)
      ∷ mov_rdi_r14
      ∷ call (Callout.store width)
      ∷ cmp rax (imm (2 ^ 32 - 1))
      ∷ jcc Condition.e fault
      ∷ jmp skip_fault
      ∷ label fault
      ∷ [])
    ++ (emit_fault_return guest_pc ++ label skip_fault ∷ [])

unfoldable pub emit_r_op : (rd rs1 rs2 : ℕ) → List Op → List Op
emit_r_op rd rs1 rs2 op =
    (mov_load w64 rax (off rs1) ∷ mov_load w64 rcx (off rs2) ∷ op) ++ store_rd rd

unfoldable pub emit_i_op : (rd rs1 : ℕ) → List Op → List Op
emit_i_op rd rs1 op = (mov_load w64 rax (off rs1) ∷ op) ++ store_rd rd

unfoldable pub emit_w_op : (rd rs1 rs2 : ℕ) → List Op → List Op
emit_w_op rd rs1 rs2 op =
    (mov_load w32 rax (off rs1) ∷ mov_load w32 rcx (off rs2) ∷ op ++ movsxd rax ∷ []) ++ store_rd rd

-- The immediate forms of 32 bits.
unfoldable pub emit_iw_op : (rd rs1 : ℕ) → Op → List Op
emit_iw_op rd rs1 op = (mov_load w32 rax (off rs1) ∷ op ∷ movsxd rax ∷ []) ++ store_rd rd

unfoldable pub against_rs2 : Condition → (rd rs1 rs2 : ℕ) → List Op
against_rs2 c rd rs1 rs2 =
    (mov_load w64 rax (off rs1) ∷ cmp rax (slot (off rs2)) ∷ set_al c ∷ movzx_al ∷ [])
    ++ store_rd rd

-- A block that ends in a branch.
unfoldable pub emit_branch : Condition → (rs1 rs2 taken_pc fall_pc : ℕ) → List Op
emit_branch c rs1 rs2 taken_pc fall_pc =
    (mov_load w64 rax (off rs1) ∷ cmp rax (slot (off rs2)) ∷ jcc c taken ∷ [])
    ++ (emit_return fall_pc ++ (label taken ∷ emit_return taken_pc))

unfoldable pub emit_jalr : (rd rs1 offset link_pc : ℕ) → List Op
emit_jalr rd rs1 offset link_pc =
    (mov_load w64 rcx (off rs1) ∷ [])
    ++ ((if rd == 0 then [] else mov_imm rax link_pc ∷ mov_store (off rd) rax ∷ [])
        ++ (binary Binary.add w64 rcx (imm (u32 offset))
            ∷ binary Binary.and w64 rcx (imm (2 ^ 32 - 2))
            ∷ add_rsp_8
            ∷ pop_r14
            ∷ pop_r15
            ∷ mov rax rcx
            ∷ ret
            ∷ []))

-- The tests that come before a division: `zero_case` is what a division by 0 does, `overflow` what the
-- least number by -1 does, `least` the least number.
abbrev pub guarded_division : (least : ℕ) → (zero_case overflow divide : List Op) → List Op
guarded_division least zero_case overflow divide =
    (test w64 rcx ∷ jcc Condition.ne not_zero ∷ zero_case)
    ++ ((jmp done
          ∷ label not_zero
          ∷ mov_imm rdx least
          ∷ cmp rax (Operand.reg rdx)
          ∷ jcc Condition.ne no_overflow
          ∷ cmp rcx (imm (2 ^ 32 - 1))
          ∷ jcc Condition.ne no_overflow
          ∷ overflow)
        ++ ((jmp done ∷ label no_overflow ∷ cqo ∷ idiv_rcx ∷ divide) ++ label done ∷ []))

abbrev pub unsigned_division : Width → (zero_case divide : List Op) → List Op
unsigned_division w zero_case divide =
    (test w rcx ∷ jcc Condition.ne not_zero ∷ zero_case)
    ++ ((jmp done ∷ label not_zero ∷ divide) ++ label done ∷ [])

unfoldable pub signed_64 : (rd rs1 rs2 : ℕ) → (zero_case overflow divide : List Op) → List Op
signed_64 rd rs1 rs2 zero_case overflow divide =
    (mov_load w64 rax (off rs1)
      ∷ mov_load w64 rcx (off rs2)
      ∷ guarded_division (2 ^ 63) zero_case overflow divide)
    ++ store_rd rd

unfoldable pub signed_32 : (rd rs1 rs2 : ℕ) → (zero_case overflow divide : List Op) → List Op
signed_32 rd rs1 rs2 zero_case overflow divide =
    (movsx_load 32 rax (off rs1)
      ∷ movsx_load 32 rcx (off rs2)
      ∷ guarded_division (2 ^ 64 - 2 ^ 31) zero_case overflow divide)
    ++ store_rd rd

unfoldable pub unsigned_64 : (rd rs1 rs2 : ℕ) → (zero_case divide : List Op) → List Op
unsigned_64 rd rs1 rs2 zero_case divide =
    (mov_load w64 rax (off rs1)
      ∷ mov_load w64 rcx (off rs2)
      ∷ unsigned_division w64 zero_case
          (binary Binary.xor w64 rdx (Operand.reg rdx) ∷ div_rcx ∷ divide))
    ++ store_rd rd

unfoldable pub unsigned_32 : (rd rs1 rs2 : ℕ) → (zero_case divide : List Op) → List Op
unsigned_32 rd rs1 rs2 zero_case divide =
    (mov_load w32 rax (off rs1)
      ∷ mov_load w32 rcx (off rs2)
      ∷ unsigned_division w32 zero_case
          (binary Binary.xor w32 rdx (Operand.reg rdx) ∷ div_ecx ∷ divide))
    ++ store_rd rd

-- A load with its sign, which is spread out in the register afterwards.
unfoldable pub spread : (bits rd : ℕ) → List Op
spread bits rd = if rd == 0 then [] else movsx_load bits rax (off rd) ∷ mov_store (off rd) rax ∷ []

-- A constant for a register.
unfoldable pub emit_constant : (rd value : ℕ) → List Op
emit_constant rd value = if rd == 0 then [] else mov_imm rax value ∷ mov_store (off rd) rax ∷ []
