-- ===== src/Cpu/Trap.antt =====
-- What `deliver_trap` of `Cpu` does to the mode, the trap registers and the program counter.
use risc_v_business.Base.{
  ℕ, ◌%◌, ◌≤◌, ◌≡◌, ◌⊎◌, inl, inr, refl, sym, ap, subst, true, false, if◌then◌else◌, arith,
  Bool-cases, bit_and-not_three,
}
use risc_v_business.Csr.{trap_entry, s_trap_entry}
use risc_v_business.Mmu.{s, m, mode_number}
use risc_v_business.Cpu.{Cpu, trap_pc, delegated, deliver_trap, deliver_to_s, deliver_to_m}

-- The trap went to S-mode: its registers describe the trap, and M-mode's are as they were.
pub record ToSupervisor {F : Type 0} (c d : Cpu F) (cause tval : ℕ) : Type 0 where
  pub mode : d.mode ≡ s
  pub saved : (d.csr.sepc ≡ c.pc) × (d.csr.scause ≡ cause) × (d.csr.stval ≡ tval)
  pub machine_kept :
      (d.csr.mepc ≡ c.csr.mepc) × (d.csr.mcause ≡ c.csr.mcause) × (d.csr.mtval ≡ c.csr.mtval)
  pub target : d.pc ≡ trap_pc c.csr.stvec cause

-- The trap went to M-mode: its registers describe the trap, and S-mode's are as they were.
pub record ToMachine {F : Type 0} (c d : Cpu F) (cause tval : ℕ) : Type 0 where
  pub mode : d.mode ≡ m
  pub saved : (d.csr.mepc ≡ c.pc) × (d.csr.mcause ≡ cause) × (d.csr.mtval ≡ tval)
  pub supervisor_kept :
      (d.csr.sepc ≡ c.csr.sepc) × (d.csr.scause ≡ c.csr.scause) × (d.csr.stval ≡ c.csr.stval)
  pub target : d.pc ≡ trap_pc c.csr.mtvec cause

module _ {F : Type 0} where
  to_s : (c : Cpu F) (cause tval : ℕ) → ToSupervisor c (deliver_to_s c cause tval) cause tval
  unfolding deliver_to_s s_trap_entry
  to_s c cause tval = record {
    mode = refl;
    saved = (refl, refl, refl);
    machine_kept = (refl, refl, refl);
    target = refl;
  }

  to_m : (c : Cpu F) (cause tval : ℕ) → ToMachine c (deliver_to_m c cause tval) cause tval
  unfolding deliver_to_m trap_entry
  to_m c cause tval = record {
    mode = refl;
    saved = (refl, refl, refl);
    supervisor_kept = (refl, refl, refl);
    target = refl;
  }

  pub delivered_to_s :
      (c : Cpu F) (cause tval : ℕ)
      → delegated c cause ≡ true
      → deliver_trap c cause tval ≡ deliver_to_s c cause tval
  unfolding deliver_trap
  delivered_to_s c cause tval h =
      ap (λ b. if b then deliver_to_s c cause tval else deliver_to_m c cause tval) h

  pub delivered_to_m :
      (c : Cpu F) (cause tval : ℕ)
      → delegated c cause ≡ false
      → deliver_trap c cause tval ≡ deliver_to_m c cause tval
  unfolding deliver_trap
  delivered_to_m c cause tval h =
      ap (λ b. if b then deliver_to_s c cause tval else deliver_to_m c cause tval) h

  delegated_below_s :
      (c : Cpu F) (cause tval : ℕ)
      → delegated c cause ≡ true
      → mode_number c.mode ≤ mode_number (deliver_to_s c cause tval).mode
  unfolding delegated deliver_to_s
  delegated_below_s c cause tval h = ground (arith, h)

  below_m :
      (c : Cpu F) (cause tval : ℕ)
      → mode_number c.mode ≤ mode_number (deliver_to_m c cause tval).mode
  unfolding deliver_to_m
  below_m c cause tval = ground arith

  -- A trap never lowers the privilege. It goes to S-mode, where its delegation bit is set and the hart
  -- is not in M-mode, and to M-mode otherwise; the program counter, the cause and the value are saved
  -- in the registers of that mode alone, and the hart goes on at that mode's vector.
  pub deliver_trap_modes :
      (c : Cpu F) (cause tval : ℕ)
      → let d = deliver_trap c cause tval in
        (mode_number c.mode ≤ mode_number d.mode)
        × (((delegated c cause ≡ true) × ToSupervisor c d cause tval)
            ⊎ ((delegated c cause ≡ false) × ToMachine c d cause tval))
  deliver_trap_modes c cause tval = elim (Bool-cases (delegated c cause)) [
    | inl h ↦
        subst
          (λ (d : Cpu F).
            (mode_number c.mode ≤ mode_number d.mode)
            × (((delegated c cause ≡ true) × ToSupervisor c d cause tval)
                ⊎ ((delegated c cause ≡ false) × ToMachine c d cause tval)))
          (sym (delivered_to_s c cause tval h))
          (delegated_below_s c cause tval h, inl (h, to_s c cause tval))
    | inr h ↦
        subst
          (λ (d : Cpu F).
            (mode_number c.mode ≤ mode_number d.mode)
            × (((delegated c cause ≡ true) × ToSupervisor c d cause tval)
                ⊎ ((delegated c cause ≡ false) × ToMachine c d cause tval)))
          (sym (delivered_to_m c cause tval h)) (below_m c cause tval, inr (h, to_m c cause tval))
  ]

-- Trap vectors are aligned to four bytes, direct or vectored, whatever `tvec` holds.
pub trap_pc_aligned : (tvec cause : ℕ) → trap_pc tvec cause % 4 ≡ 0
unfolding trap_pc
trap_pc_aligned tvec cause = ground (arith, bit_and-not_three tvec)
