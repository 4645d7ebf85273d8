-- ===== src/Cpu/Invariant.antt =====
-- The invariant of the hart of src/cpu/mod.rs, through its registers, its traps and its interrupts.
use risc_v_business.Base.{
  ℕ, Bool, true, false, if◌then◌else◌, leb, ◌==◌, ◌&&◌, ◌||◌, ◌>>>◌, ◌%◌, ◌≡◌, ◌≢◌, List, [], ◌∷◌,
  length, get_or, length-set, get_or-set_ne, arith, bit_or, bit_and, ◌<<<◌, bit_and-not_one,
}
use risc_v_business.Csr
use risc_v_business.Csr.{
  Csr, is_supervisor, write_machine, write_supervisor, write_satp, trap_entry, s_trap_entry,
}
use risc_v_business.Cpu.{
  Cpu, set_reg, csr_write, trap_pc, deliver_trap, deliver_to_s, deliver_to_m, fire_first,
  check_interrupts, interrupt_order,
}
use risc_v_business.Cpu.Trap.{trap_pc_aligned}

abbrev pub IsEven : ℕ → Type 0
IsEven x = x % 2 ≡ 0

-- 32 registers of each kind, register x0 holding 0, and even program counters.
pub record Sound (regs fregs : List ℕ) (pc mepc sepc size : ℕ) : Type 0 where
  pub regs_32 : length regs ≡ 32
  pub zero_kept : get_or regs 0 0 ≡ 0
  pub fregs_32 : length fregs ≡ 32
  pub pc_even : IsEven pc
  pub mepc_even : IsEven mepc
  pub sepc_even : IsEven sepc
  pub size_even : IsEven size

trap_pc-IsEven : (tvec cause : ℕ) → IsEven (trap_pc tvec cause)
trap_pc-IsEven tvec cause = omega (arith, trap_pc_aligned tvec cause)

-- Control registers whose two return addresses are even.
record Returns (c : Csr) : Type 0 where
  mepc_even : IsEven c.mepc
  sepc_even : IsEven c.sepc

even : {c : Csr} → IsEven c.mepc → IsEven c.sepc → Returns c
even hm hs = record { mepc_even = hm; sepc_even = hs }

if-Returns : {x y : Csr} (b : Bool) → Returns x → Returns y → Returns (if b then x else y)
if-Returns true hx hy = hx
if-Returns false hx hy = hy

write_machine-Returns : (c : Csr) (addr val : ℕ) → Returns c → Returns (write_machine c addr val)
unfolding write_machine
write_machine-Returns c addr val h =
    (if-Returns (addr == 0x300) (even h.mepc_even h.sepc_even) (
      if-Returns (addr == 0x304) (even h.mepc_even h.sepc_even) (
        if-Returns (addr == 0x305) (even h.mepc_even h.sepc_even) (
          if-Returns (addr == 0x340) (even h.mepc_even h.sepc_even) (
            if-Returns (addr == 0x341) (even (bit_and-not_one val) h.sepc_even) (
              if-Returns (addr == 0x342) (even h.mepc_even h.sepc_even) (
                if-Returns (addr == 0x343) (even h.mepc_even h.sepc_even) (
                  if-Returns (addr == 0x344) (even h.mepc_even h.sepc_even) (
                    if-Returns (addr == 0x3A0) (even h.mepc_even h.sepc_even) (
                      if-Returns (addr == 0x3A2) (even h.mepc_even h.sepc_even) (
                        if-Returns (leb 0x3B0 addr && leb addr 0x3BF) (even h.mepc_even h.sepc_even)
                          (if-Returns (addr == 0x302) (even h.mepc_even h.sepc_even) (
                            if-Returns (addr == 0x303) (even h.mepc_even h.sepc_even) h)))))))))))))

write_supervisor-Returns :
    (c : Csr) (addr val : ℕ) → Returns c → Returns (write_supervisor c addr val)
unfolding write_supervisor write_satp
write_supervisor-Returns c addr val h =
    (if-Returns (addr == 0x105) (even h.mepc_even h.sepc_even) (
      if-Returns (addr == 0x140) (even h.mepc_even h.sepc_even) (
        if-Returns (addr == 0x141) (even h.mepc_even (bit_and-not_one val)) (
          if-Returns (addr == 0x142) (even h.mepc_even h.sepc_even) (
            if-Returns (addr == 0x143) (even h.mepc_even h.sepc_even) (
              if-Returns (addr == 0x180)
                (if-Returns ((val >>> 60) == 0 || (val >>> 60) == 8) (even h.mepc_even h.sepc_even)
                  h)
                (if-Returns (addr == 0x100) (even h.mepc_even h.sepc_even) (
                  if-Returns (addr == 0x104) (even h.mepc_even h.sepc_even) (
                    if-Returns (addr == 0x144) (even h.mepc_even h.sepc_even)
                      (if-Returns (addr == 0x14D) (even h.mepc_even h.sepc_even) h))))))))))

write-Returns : (c : Csr) (addr val : ℕ) → Returns c → Returns (Csr.write c addr val)
unfolding Csr.write
write-Returns c addr val h =
    if-Returns (is_supervisor addr) (write_supervisor-Returns c addr val h)
      (write_machine-Returns c addr val h)

module _ {F : Type 0} where
  abbrev pub WellFormed : Cpu F → Type 0
  WellFormed c = Sound c.regs c.fregs c.pc c.csr.mepc c.csr.sepc c.inst_size

  pub set_reg-WellFormed : (c : Cpu F) (n val : ℕ) → WellFormed c → WellFormed (set_reg c n val)
  unfolding set_reg
  set_reg-WellFormed c n val h =
      ground (arith, length-set c.regs n val, λ (e : n ≢ 0). get_or-set_ne c.regs n 0 val 0 e)

  pub csr_write-WellFormed :
      (c : Cpu F) (addr val : ℕ) → WellFormed c → WellFormed (csr_write c addr val)
  unfolding csr_write
  csr_write-WellFormed c addr val h =
      let e =
        write-Returns c.csr addr val
          (record { mepc_even = h.mepc_even; sepc_even = h.sepc_even }) in
      record {
        regs_32 = h.regs_32;
        zero_kept = h.zero_kept;
        fregs_32 = h.fregs_32;
        pc_even = h.pc_even;
        mepc_even = e.mepc_even;
        sepc_even = e.sepc_even;
        size_even = h.size_even;
      }

  pub deliver_trap-WellFormed :
      (c : Cpu F) (cause tval : ℕ) → WellFormed c → WellFormed (deliver_trap c cause tval)
  unfolding deliver_trap deliver_to_s deliver_to_m trap_entry s_trap_entry
  deliver_trap-WellFormed c cause tval h =
      ground (arith, trap_pc-IsEven c.csr.stvec cause, trap_pc-IsEven c.csr.mtvec cause)

  fire_first-WellFormed :
      (c : Cpu F) (pending : ℕ) (codes : List ℕ)
      → WellFormed c
      → WellFormed (fire_first c pending codes).0
  unfolding fire_first
  fire_first-WellFormed c pending [] h = h
  fire_first-WellFormed c pending (code ∷ codes) h = ground (
    arith,
    deliver_trap-WellFormed c (bit_or (1 <<< 63) code) 0 h,
    fire_first-WellFormed c pending codes h,
  )

  pub check_interrupts-WellFormed : (c : Cpu F) → WellFormed c → WellFormed (check_interrupts c).0
  unfolding check_interrupts
  check_interrupts-WellFormed c h =
      ground (arith, fire_first-WellFormed c (bit_and c.csr.mip c.csr.mie) interrupt_order h)
