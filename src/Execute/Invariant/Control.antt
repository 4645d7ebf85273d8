-- ===== src/Execute/Invariant/Control.antt =====
-- The arms of `execute`, src/cpu/execute.rs, that reach no memory, through the invariant of the hart:
-- branches and jumps, floats, system instructions and control registers.
use risc_v_business.Base.{
  ℕ, ◌≡◌, Bool, true, false, not, ◌&&◌, ◌||◌, if◌then◌else◌, ◌==◌, length-set, arith, bit_and-one,
  wrapping_add,
}
use risc_v_business.Csr
use risc_v_business.Cpu.{Cpu, reg, set_reg, deliver_trap, csr_read, csr_write}
use risc_v_business.Cpu.System
use risc_v_business.Cpu.System.{
  CsrOp, csr_value, is_swap, satp_address, traps_vm, next, note_root, csr_access,
}
use risc_v_business.Cpu.Invariant.{
  IsEven, WellFormed, set_reg-WellFormed, csr_write-WellFormed, deliver_trap-WellFormed,
}
use risc_v_business.Execute.{done, modify, next_pc}
use risc_v_business.Execute.Float
use risc_v_business.Execute.Float.{
  Floats, Outcome, to_float, to_integer, trap_unmarked, trap_marked, mark, set_freg, finish,
}
use risc_v_business.Execute.Full.{is_odd, branch, jump}
use risc_v_business.Execute.Keeps.{Keeps, set_pc-WellFormed, next_pc-IsEven}

is_odd-IsEven : (target : ℕ) → is_odd target ≡ false → IsEven target
is_odd-IsEven target h = ground (arith, bit_and-one target, h)

module _ {F : Type 0} where
  pub set_freg-WellFormed : (c : Cpu F) (n val : ℕ) → WellFormed c → WellFormed (set_freg c n val)
  set_freg-WellFormed c n val h = ground (arith, length-set c.fregs n val)

  pub mark-WellFormed : (c : Cpu F) → WellFormed c → WellFormed (mark c)
  unfolding mark
  mark-WellFormed c h = h

  next-WellFormed : (c : Cpu F) → WellFormed c → WellFormed (next c)
  next-WellFormed c h = set_pc-WellFormed c (next_pc c) (next_pc-IsEven c h) h

  pub next-Keeps : Keeps (done {F = F} next)
  next-Keeps = record { kept = next-WellFormed }

  pub branch-Keeps : (taken : Bool) (imm : ℕ) → Keeps (branch {F = F} taken imm)
  unfolding branch
  branch-Keeps taken imm = record {
    kept = λ c h.
        let t = wrapping_add c.pc imm in
        ground (
          arith,
          deliver_trap-WellFormed c 0 t h,
          next-WellFormed c h,
          λ (e : is_odd t ≡ false). set_pc-WellFormed c t (is_odd-IsEven t e) h,
        );
  }

  pub jump-Keeps : (rd target : ℕ) → Keeps (jump {F = F} rd target)
  unfolding jump
  jump-Keeps rd t = record {
    kept = λ c h. ground (
      arith,
      deliver_trap-WellFormed c 0 t h,
      λ (e : is_odd t ≡ false).
          set_pc-WellFormed (set_reg c rd (next_pc c)) t (is_odd-IsEven t e)
            (set_reg-WellFormed c rd (next_pc c) h),
    );
  }

  finish-WellFormed : (rd : ℕ) (c : Cpu F) (o : Outcome) → WellFormed c → WellFormed (finish rd c o)
  unfolding finish mark
  finish-WellFormed rd c (to_float v) h =
      set_pc-WellFormed (set_freg c rd v) (next_pc c) (next_pc-IsEven c h)
        (set_freg-WellFormed c rd v h)
  finish-WellFormed rd c (to_integer v) h =
      set_pc-WellFormed (set_reg c rd v) (next_pc c) (next_pc-IsEven c h)
        (set_reg-WellFormed c rd v h)
  finish-WellFormed rd c trap_unmarked h = deliver_trap-WellFormed c 2 0 h
  finish-WellFormed rd c trap_marked h = deliver_trap-WellFormed c 2 0 h

  pub op_fp-Keeps :
      (fl : Floats) (funct7 rs2 rs1 rm rd : ℕ) → Keeps (Float.op_fp {F = F} fl funct7 rs2 rs1 rm rd)
  unfolding Float.op_fp
  op_fp-Keeps fl funct7 rs2 rs1 rm rd = record { kept = λ c h. finish-WellFormed rd c _ h }

  pub fma-Keeps :
      (fl : Floats) (opcode fmt rs3 rs2 rs1 rd : ℕ)
      → Keeps (Float.fma {F = F} fl opcode fmt rs3 rs2 rs1 rd)
  unfolding Float.fma
  fma-Keeps fl opcode fmt rs3 rs2 rs1 rd = record { kept = λ c h. finish-WellFormed rd c _ h }

  pub ecall-Keeps : Keeps (done {F = F} System.ecall)
  unfolding System.ecall
  ecall-Keeps = record { kept = λ c h. deliver_trap-WellFormed c _ 0 h }

  pub ebreak-Keeps : Keeps (done {F = F} System.ebreak)
  unfolding System.ebreak
  ebreak-Keeps = record { kept = λ c h. deliver_trap-WellFormed c 3 c.pc h }

  pub mret-Keeps : Keeps (done {F = F} System.mret)
  unfolding System.mret Csr.mret
  mret-Keeps = record { kept = λ c h. ground arith }

  pub sret-Keeps : Keeps (done {F = F} System.sret)
  unfolding System.sret Csr.s_ret
  sret-Keeps = record { kept = λ c h. ground (arith, deliver_trap-WellFormed c 2 0x10200073 h) }

  pub sfence_vma-Keeps : Keeps (done {F = F} System.sfence_vma)
  unfolding System.sfence_vma
  sfence_vma-Keeps = record {
    kept = λ c h. ground (arith, deliver_trap-WellFormed c 2 0 h, next-WellFormed c h);
  }

  note_root-WellFormed :
      (c : Cpu F) (addr old_satp : ℕ) (writes : Bool)
      → WellFormed c
      → WellFormed (note_root addr old_satp writes c)
  note_root-WellFormed c addr old_satp writes h = ground arith

  write_if-WellFormed :
      (c : Cpu F) (addr val : ℕ) (writes : Bool)
      → WellFormed c
      → WellFormed (if writes then csr_write c addr val else c)
  write_if-WellFormed c addr val true h = csr_write-WellFormed c addr val h
  write_if-WellFormed c addr val false h = h

  pub if-WellFormed :
      (b : Bool) (c d : Cpu F) → WellFormed c → WellFormed d → WellFormed (if b then c else d)
  if-WellFormed true c d hc hd = hc
  if-WellFormed false c d hc hd = hd

  pub modify-Keeps :
      (f : Cpu F → Cpu F) → ((c : Cpu F) → WellFormed c → WellFormed (f c)) → Keeps (modify f)
  modify-Keeps f k = record { kept = k }

  csr_access-Keeps :
      (op : CsrOp) (rd addr operand : ℕ) (suppressed : Bool)
      → Keeps (done {F = F} (csr_access op rd addr operand suppressed))
  unfolding csr_access
  csr_access-Keeps op rd addr operand suppressed = record {
    kept = λ c h.
        let old = if is_swap op && rd == 0 then 0 else csr_read c addr in
        let writes = is_swap op || not suppressed in
        let written = if writes then csr_write c addr (csr_value op old operand) else c in
        let noted = note_root addr c.csr.satp writes (set_reg written rd old) in
        if-WellFormed (addr == satp_address && traps_vm c) (deliver_trap c 2 0) (next noted)
          (deliver_trap-WellFormed c 2 0 h)
          (next-WellFormed noted (
            note_root-WellFormed (set_reg written rd old) addr c.csr.satp writes (
              set_reg-WellFormed written rd old
                (write_if-WellFormed c addr (csr_value op old operand) writes h))));
  }

  pub csr_register-Keeps :
      (op : CsrOp) (rd rs1 addr : ℕ) → Keeps (done {F = F} (System.csr_register op rd rs1 addr))
  unfolding System.csr_register
  csr_register-Keeps op rd rs1 addr = record {
    kept = λ c h. (csr_access-Keeps op rd addr (reg c rs1) (rs1 == 0)).kept c h;
  }

  pub csr_immediate-Keeps :
      (op : CsrOp) (rd uimm addr : ℕ) → Keeps (done {F = F} (System.csr_immediate op rd uimm addr))
  unfolding System.csr_immediate
  csr_immediate-Keeps op rd uimm addr = record {
    kept = λ c h. (csr_access-Keeps op rd addr uimm (uimm == 0)).kept c h;
  }
