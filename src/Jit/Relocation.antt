-- ===== src/Jit/Relocation.antt =====
-- The loads and stores of the interpreter, src/cpu/execute.rs, do not depend on where the hart is,
-- which compiled code of src/jit.rs does not keep up.
use risc_v_business.Base.{ℕ, ◌+◌, ◌≡◌, refl, true, leb, Exit, ok, err, panic, hang, proceed}
use risc_v_business.VirtioBlk.{Disk}
use risc_v_business.Mmu.{PrivMode, MmuFault, load, store}
use risc_v_business.Cpu.{Cpu}
use risc_v_business.Execute.{trap, page_offset, translate, bus_load, bus_store, mmu_load, mmu_store}
use risc_v_business.Jit.Straight.{at}

-- The interpreter's access does not look at where the hart is.
module _ {F : Type 0} where
  abbrev pub moved : {A : Type 0} → ℕ → Cpu F × Exit MmuFault A → Cpu F × Exit MmuFault A
  moved guest_pc (c, r) = (at c guest_pc, r)

  module _ (D : Disk F) (rounds guest_pc : ℕ) where
    loaded_at :
        (c : Cpu F) (width : ℕ) (f : MmuFault) (r : Exit MmuFault ℕ)
        → ◌≡◌ {A = Cpu F × Exit MmuFault ℕ}
            (proceed (λ pa. bus_load pa width f) (at c guest_pc) r)
            (moved guest_pc (proceed (λ pa. bus_load pa width f) c r))
    unfolding bus_load
    loaded_at c width f (ok pa) = refl
    loaded_at c width f (err e) = refl
    loaded_at c width f panic = refl
    loaded_at c width f hang = refl

    stored_at :
        (c : Cpu F) (width val : ℕ) (f : MmuFault) (r : Exit MmuFault ℕ)
        → ◌≡◌ {A = Cpu F × Exit MmuFault (Unit {0})}
            (proceed (λ pa. bus_store D rounds pa width val f) (at c guest_pc) r)
            (moved guest_pc (proceed (λ pa. bus_store D rounds pa width val f) c r))
    unfolding bus_store
    stored_at c width val f (ok pa) = refl
    stored_at c width val f (err e) = refl
    stored_at c width val f panic = refl
    stored_at c width val f hang = refl

    pub load_at :
        (c : Cpu F) (addr width : ℕ) (mode : PrivMode)
        → leb (page_offset addr + width) 0x1000 ≡ true
        → mmu_load D rounds mode addr width (at c guest_pc)
          ≡ moved guest_pc (mmu_load D rounds mode addr width c)
    unfolding mmu_load translate
    load_at c addr width mode h =
        let t = translate D rounds load mode addr c in rw h (loaded_at t.0 width (trap 5 addr) t.1)

    pub store_at :
        (c : Cpu F) (addr width val : ℕ) (mode : PrivMode)
        → leb (page_offset addr + width) 0x1000 ≡ true
        → mmu_store D rounds mode addr width val (at c guest_pc)
          ≡ moved guest_pc (mmu_store D rounds mode addr width val c)
    unfolding mmu_store translate
    store_at c addr width val mode h =
        let t = translate D rounds store mode addr c in
        rw h (stored_at t.0 width val (trap 7 addr) t.1)
