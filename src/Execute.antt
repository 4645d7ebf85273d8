-- ===== src/Execute.antt =====
-- The instructions that `execute` of src/cpu/execute.rs runs: memory through the translation, and
-- the two ways in which an instruction ends. The arms are in the children.
pub mod Alu
pub mod Float
pub mod Memory
pub mod Full
pub mod Step
pub mod Keeps
pub mod Invariant
pub mod StepInvariant
pub mod Faults
pub mod Blame
pub mod Blamed
pub mod Physical
pub mod MachineMode
pub mod MachineMemory
pub mod Atomics
pub mod Boxing
pub mod Product
pub mod Division
pub mod Widening
mod Tests
use risc_v_business.Base.{
  ℕ, zero, suc, ◌+◌, ◌-◌, ◌*◌, ◌/◌, ◌%◌, ◌^◌, leb, ◌==◌, if◌then◌else◌, bit_and, bit_or, not64,
  ◌>>>◌, ◌<<<◌, wrapping_add, Run, Exit, ok, err, panic, hang, ◌>>=◌, ◌>>◌, return, map_err,
}
use risc_v_business.VirtioBlk.{Disk}
use risc_v_business.Bus
use risc_v_business.Mmu
use risc_v_business.Mmu.{PrivMode, u, s, m, AccessType, MmuFault, load, store}
use risc_v_business.Cpu.{Cpu, reg, set_reg, deliver_trap}
use risc_v_business.Cpu.System.{mode_of_mpp}

-- An arm of `execute`, which returns `Ok(())` whenever it returns.
abbrev pub Arm : Type 0 → Type 0
Arm F = Run (Cpu F) ⊥ (Unit {0})

-- Code that gives the trap to deliver, `(cause, tval)`, where it fails.
abbrev pub Attempt : Type 0 → Type 0 → Type 0
Attempt F A = Run (Cpu F) MmuFault A

abbrev pub trap : ℕ → ℕ → MmuFault
trap cause tval = record { cause = cause; tval = tval }

-- The two pages of an access that crosses into the next.
abbrev pub page_offset : ℕ → ℕ
page_offset va = bit_and va 0xFFF

abbrev pub next_page : ℕ → ℕ
next_page va = wrapping_add (bit_and va (not64 0xFFF)) 0x1000

module _ {F : Type 0} where
  abbrev pub done : (Cpu F → Cpu F) → Arm F
  done f c = (f c, ok tt)

  abbrev pub modify : (Cpu F → Cpu F) → Attempt F (Unit {0})
  modify f c = (f c, ok tt)

  -- `pc.wrapping_add(cpu.inst_size)`.
  abbrev pub next_pc : Cpu F → ℕ
  next_pc c = wrapping_add c.pc c.inst_size

  -- An arm that writes a register and goes on.
  unfoldable pub write : ℕ → ℕ → Arm F
  write rd val = done λ c. record (set_reg c rd val) { pc = next_pc c }

  -- How an arm that may trap ends, `resume` being where it goes on.
  unfoldable pub settle : ℕ → Cpu F → Exit MmuFault (Unit {0}) → Cpu F × Exit ⊥ (Unit {0})
  settle resume c (ok x) = (record c { pc = resume }, ok tt)
  settle resume c (err f) = (deliver_trap c f.cause f.tval, ok tt)
  settle resume c panic = (c, panic)
  settle resume c hang = (c, hang)

  abbrev pub attempt : Attempt F (Unit {0}) → Arm F
  attempt body c = let (c', r) = body c in settle (next_pc c) c' r

  -- The mode of loads and stores: MPRV gives them that of MPP.
  unfoldable pub ls_mode : Cpu F → PrivMode
  ls_mode c =
      if bit_and (c.csr.mstatus >>> 17) 1 == 1
      then mode_of_mpp (bit_and (c.csr.mstatus >>> 11) 3)
      else c.mode

  unfoldable pub bus_load : ℕ → ℕ → MmuFault → Attempt F ℕ
  bus_load pa width f c =
      let (b, r) = Bus.load pa width c.bus in (record c { bus = b }, map_err f r)

  -- `bus.load(..).unwrap_or(0)`.
  unfoldable pub bus_load_or_zero : ℕ → ℕ → Attempt F ℕ
  bus_load_or_zero pa width c =
      let (b, r) = Bus.load pa width c.bus in
      (record c { bus = b }, elim r [ ok v ↦ ok v | err e ↦ ok 0 | panic ↦ panic | hang ↦ hang ])

  -- Bytes of a load that crosses a page: `left` of them from the `i`th of the page at `pa`, which
  -- stands at byte `first` of the value.
  unfoldable pub load_bytes : ℕ → ℕ → ℕ → ℕ → ℕ → ℕ → Attempt F ℕ
  load_bytes va pa first zero i v = return v
  load_bytes va pa first (suc left) i v =
      bus_load (wrapping_add pa i) 1 (trap 5 (wrapping_add va i)) >>= λ b.
      load_bytes va pa first left (suc i) (bit_or v (bit_and b 0xff <<< ((first + i) * 8)))

  module _ (D : Disk F) (rounds : ℕ) where
    unfoldable pub translate : AccessType → PrivMode → ℕ → Attempt F ℕ
    translate access mode va c =
        let q : Mmu.Query = record {
          satp = c.csr.satp;
          mode = mode;
          mstatus = c.csr.mstatus;
          addr = va;
          access = access;
        } in
        let (w, r) = Mmu.translate D rounds q (record { mmu = c.mmu; bus = c.bus }) in
        (record c { mmu = w.mmu; bus = w.bus }, r)

    unfoldable pub bus_store : ℕ → ℕ → ℕ → MmuFault → Attempt F (Unit {0})
    bus_store pa width val f c =
        let (b, r) = Bus.store D rounds pa width val c.bus in (record c { bus = b }, map_err f r)

    -- `bus.store(..).ok()`.
    unfoldable pub bus_store_ok : ℕ → ℕ → ℕ → Attempt F (Unit {0})
    bus_store_ok pa width val c =
        let (b, r) = Bus.store D rounds pa width val c.bus in
        (record c { bus = b }, elim r [ ok x ↦ ok x | err e ↦ ok tt | panic ↦ panic | hang ↦ hang ])

    unfoldable pub store_bytes : ℕ → ℕ → ℕ → ℕ → ℕ → ℕ → Attempt F (Unit {0})
    store_bytes va pa first zero i val = return tt
    store_bytes va pa first (suc left) i val =
        bus_store (wrapping_add pa i) 1 (bit_and (val >>> ((first + i) * 8)) 0xff)
          (trap 7 (wrapping_add va i))
        >>= λ _. store_bytes va pa first left (suc i) val

    unfoldable pub mmu_load : PrivMode → ℕ → ℕ → Attempt F ℕ
    mmu_load mode va width =
        let first = 0x1000 - page_offset va in
        let va2 = next_page va in
        if leb (page_offset va + width) 0x1000
        then (do pa ← translate load mode va; bus_load pa width (trap 5 va))
        else (do
          pa1 ← translate load mode va
          pa2 ← translate load mode va2
          v ← load_bytes va pa1 0 first 0 0
          load_bytes va2 pa2 first (width - first) 0 v)

    unfoldable pub mmu_store : PrivMode → ℕ → ℕ → ℕ → Attempt F (Unit {0})
    mmu_store mode va width val =
        let first = 0x1000 - page_offset va in
        let va2 = next_page va in
        if leb (page_offset va + width) 0x1000
        then (do pa ← translate store mode va; bus_store pa width val (trap 7 va))
        else (do
          pa1 ← translate store mode va
          pa2 ← translate store mode va2
          store_bytes va pa1 0 first 0 val
          store_bytes va2 pa2 first (width - first) 0 val)
