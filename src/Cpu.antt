-- ===== src/Cpu.antt =====
-- The hart, src/cpu/mod.rs: its state, the registers, trap delivery and the interrupt check.
-- Tracing and the register dump on a fault only print, and are left out.
pub mod Trap
pub mod Interrupts
pub mod Registers
pub mod System
pub mod Return
pub mod Invariant
mod Tests
use risc_v_business.Base.{
  ℕ, zero, suc, ◌+◌, ◌-◌, ◌*◌, ◌/◌, ◌%◌, ◌^◌, Bool, true, false, not, ◌&&◌, ◌||◌, ltb, leb, ◌==◌,
  if◌then◌else◌, Option, none, List, [], ◌∷◌, get_or, set, replicate, bit_and, bit_or, not64, ◌>>>◌,
  ◌<<<◌, wrapping_add,
}
use risc_v_business.Bus.{Bus}
use risc_v_business.Csr
use risc_v_business.Csr.{Csr}
use risc_v_business.Mmu
use risc_v_business.Mmu.{Mmu, PrivMode, u, s, m, mode_number}

pub record Cpu (F : Type 0) : Type 0 where
  pub regs : List ℕ
  pub fregs : List ℕ
  pub pc : ℕ
  pub bus : Bus F
  pub csr : Csr
  pub reservation : Option ℕ
  pub mode : PrivMode
  pub mmu : Mmu
  pub inst_size : ℕ
  pub fcsr : ℕ
  pub jit_invalidate : Bool
  pub fence_i_pending : Bool

abbrev pub is_m : PrivMode → Bool
is_m u = false
is_m s = false
is_m m = true

abbrev pub is_s : PrivMode → Bool
is_s u = false
is_s s = true
is_s m = false

-- Bit 63 of a cause tells an interrupt from an exception.
abbrev pub is_interrupt : ℕ → Bool
is_interrupt cause = not ((cause >>> 63) == 0)

abbrev pub cause_code : ℕ → ℕ
cause_code cause = bit_and cause (not64 (1 <<< 63))

unfoldable pub trap_pc : ℕ → ℕ → ℕ
trap_pc tvec cause =
    let base = bit_and tvec (not64 0x3) in
    if is_interrupt cause && bit_and tvec 0x3 == 1
    then wrapping_add base (cause_code cause * 4 % 2 ^ 64)
    else base

abbrev pub interrupt_order : List ℕ
interrupt_order = 11 ∷ 3 ∷ 7 ∷ 9 ∷ 1 ∷ 5 ∷ []

module _ {F : Type 0} where
  unfoldable pub new : Bus F → ℕ → Cpu F
  new bus entry = record {
    regs = replicate 32 0;
    fregs = replicate 32 0;
    pc = entry;
    bus = bus;
    csr = Csr.new;
    reservation = none;
    mode = m;
    mmu = Mmu.new;
    inst_size = 4;
    fcsr = 0;
    jit_invalidate = false;
    fence_i_pending = false;
  }

  unfoldable pub csr_read : Cpu F → ℕ → ℕ
  csr_read c addr = if addr == 0xC01 then c.bus.clint.mtime else Csr.read c.csr addr

  unfoldable pub csr_write : Cpu F → ℕ → ℕ → Cpu F
  csr_write c addr val = record c { csr = Csr.write c.csr addr val }

  unfoldable pub reg : Cpu F → ℕ → ℕ
  reg c n = if n == 0 then 0 else get_or c.regs n 0

  unfoldable pub set_reg : Cpu F → ℕ → ℕ → Cpu F
  set_reg c n val = if n == 0 then c else record c { regs = set c.regs n val }

  -- Does S-mode take the trap?
  unfoldable pub delegated : Cpu F → ℕ → Bool
  delegated c cause =
      let deleg_reg = if is_interrupt cause then c.csr.mideleg else c.csr.medeleg in
      ltb (cause_code cause) 64
      && (bit_and (deleg_reg >>> cause_code cause) 1 == 1 && not (is_m c.mode))

  unfoldable pub deliver_to_s : Cpu F → ℕ → ℕ → Cpu F
  deliver_to_s c cause tval =
      let entered = Csr.s_trap_entry c.csr (is_s c.mode) in
      record c {
        csr = record entered { sepc = c.pc; scause = cause; stval = tval };
        pc = trap_pc entered.stvec cause;
        mode = s;
      }

  unfoldable pub deliver_to_m : Cpu F → ℕ → ℕ → Cpu F
  deliver_to_m c cause tval =
      let entered = Csr.trap_entry c.csr (mode_number c.mode) in
      record c {
        csr = record entered { mepc = c.pc; mcause = cause; mtval = tval };
        pc = trap_pc entered.mtvec cause;
        mode = m;
      }

  unfoldable pub deliver_trap : Cpu F → ℕ → ℕ → Cpu F
  deliver_trap c cause tval =
      if delegated c cause then deliver_to_s c cause tval else deliver_to_m c cause tval

  -- `mideleg` gives this interrupt to S-mode.
  abbrev pub is_delegated : Cpu F → ℕ → Bool
  is_delegated c code = bit_and (c.csr.mideleg >>> code) 1 == 1

  unfoldable pub can_fire : Cpu F → ℕ → Bool
  can_fire c code =
      if is_m c.mode
      then not (is_delegated c code) && Csr.mie_bit c.csr == 1
      else if is_delegated c code
      then bit_and (c.csr.mstatus >>> 1) 1 == 1
      else true

  -- The loop over the interrupts, in the order given.
  unfoldable pub fire_first : Cpu F → ℕ → List ℕ → Cpu F × Bool
  fire_first c pending [] = (c, false)
  fire_first c pending (code ∷ codes) =
      let rest = fire_first c pending codes in
      let fired = deliver_trap c (bit_or (1 <<< 63) code) 0 in
      if bit_and (pending >>> code) 1 == 0
      then rest
      else if can_fire c code
      then (fired, true)
      else rest

  unfoldable pub check_interrupts : Cpu F → Cpu F × Bool
  check_interrupts c =
      let pending = bit_and c.csr.mip c.csr.mie in
      if pending == 0 then (c, false) else fire_first c pending interrupt_order
