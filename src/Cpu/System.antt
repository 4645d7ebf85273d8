-- ===== src/Cpu/System.antt =====
-- The system instructions, `execute` of src/cpu/execute.rs: ecall, ebreak, mret, sret, sfence.vma
-- and the accesses to the control registers. Each function is the arm of its instruction with the
-- assignment of `next_pc` to the program counter that `execute` ends with.
use risc_v_business.Base.{
  ℕ, Bool, true, false, not, ◌&&◌, ◌||◌, ◌==◌, if◌then◌else◌, bit_and, bit_or, not64, ◌>>>◌, ◌<<<◌,
  wrapping_add,
}
use risc_v_business.Csr
use risc_v_business.Mmu
use risc_v_business.Mmu.{PrivMode, u, s, m}
use risc_v_business.Cpu.{Cpu, is_s, reg, set_reg, csr_read, csr_write, deliver_trap}

-- The mode that MPP holds.
abbrev pub mode_of_mpp : ℕ → PrivMode
mode_of_mpp mpp = if mpp == 0 then u else if mpp == 1 then s else m

-- What an access to a control register writes: the operand, the old value with the operand's bits
-- set, or with them cleared.
pub data CsrOp : Type 0 where
  swap set_bits clear_bits : CsrOp

abbrev pub csr_value : CsrOp → ℕ → ℕ → ℕ
csr_value swap old operand = operand
csr_value set_bits old operand = bit_or old operand
csr_value clear_bits old operand = bit_and old (not64 operand)

abbrev pub is_swap : CsrOp → Bool
is_swap swap = true
is_swap set_bits = false
is_swap clear_bits = false

abbrev pub satp_address : ℕ
satp_address = 0x180

abbrev pub satp_ppn : ℕ → ℕ
satp_ppn satp = bit_and satp 0x0FFF_FFFF_FFFF

module _ {F : Type 0} where
  abbrev pub next : Cpu F → Cpu F
  next c = record c { pc = wrapping_add c.pc c.inst_size }

  unfoldable pub ecall : Cpu F → Cpu F
  ecall c = deliver_trap c (elim c.mode [ u ↦ 8 | s ↦ 9 | m ↦ 11 ]) 0

  unfoldable pub ebreak : Cpu F → Cpu F
  ebreak c = deliver_trap c 3 c.pc

  unfoldable pub mret : Cpu F → Cpu F
  mret c =
      let mpp = bit_and (c.csr.mstatus >>> 11) 3 in
      let returned = Csr.mret c.csr in
      let status =
        if not (mpp == 3) then bit_and returned.mstatus (not64 (1 <<< 17)) else returned.mstatus in
      record c {
        mode = mode_of_mpp mpp;
        csr = record returned { mstatus = status };
        pc = returned.mepc;
      }

  unfoldable pub sret : Cpu F → Cpu F
  sret c =
      let spp = bit_and (c.csr.mstatus >>> 8) 1 in
      let cleared = record c.csr { mstatus = bit_and c.csr.mstatus (not64 (1 <<< 17)) } in
      if is_s c.mode && not (bit_and (c.csr.mstatus >>> 22) 1 == 0)
      then deliver_trap c 2 0x10200073
      else record c { mode = if spp == 1 then s else u; csr = Csr.s_ret cleared; pc = c.csr.sepc }

  -- TVM: S-mode may neither fence nor reach `satp`.
  abbrev pub traps_vm : Cpu F → Bool
  traps_vm c = is_s c.mode && not (bit_and (c.csr.mstatus >>> 20) 1 == 0)

  unfoldable pub sfence_vma : Cpu F → Cpu F
  sfence_vma c =
      if traps_vm c then deliver_trap c 2 0 else next (record c { mmu = Mmu.flush c.mmu })

  -- A change of the page table's root makes the compiled code stale.
  abbrev pub note_root : ℕ → ℕ → Bool → Cpu F → Cpu F
  note_root addr old_satp writes c =
      if (addr == satp_address && writes) && not (satp_ppn c.csr.satp == satp_ppn old_satp)
      then record c { jit_invalidate = true }
      else c

  -- The arms Csrrw, Csrrs and Csrrc, and with `suppressed` for `uimm == 0` their immediate forms. The
  -- read is skipped by a swap into x0, the write by the others where the operand's field is 0.
  unfoldable pub csr_access : CsrOp → ℕ → ℕ → ℕ → Bool → Cpu F → Cpu F
  csr_access op rd addr operand suppressed c =
      let old = if is_swap op && rd == 0 then 0 else csr_read c addr in
      let writes = is_swap op || not suppressed in
      let written = if writes then csr_write c addr (csr_value op old operand) else c in
      if addr == satp_address && traps_vm c
      then deliver_trap c 2 0
      else next (note_root addr c.csr.satp writes (set_reg written rd old))

  -- The register forms and the immediate forms.
  unfoldable pub csr_register : CsrOp → ℕ → ℕ → ℕ → Cpu F → Cpu F
  csr_register op rd rs1 addr c = csr_access op rd addr (reg c rs1) (rs1 == 0) c

  unfoldable pub csr_immediate : CsrOp → ℕ → ℕ → ℕ → Cpu F → Cpu F
  csr_immediate op rd uimm addr c = csr_access op rd addr uimm (uimm == 0) c
