-- ===== src/Jit/Callouts.antt =====
-- The callouts of src/jit.rs against the loads and stores of the interpreter, src/cpu/execute.rs.
use risc_v_business.Base.{
  ℕ, ◌+◌, ◌≡◌, refl, true, leb, max_u64, Exit, ok, err, panic, hang, ◌>>=◌, proceed, return,
}
use risc_v_business.VirtioBlk.{Disk}
use risc_v_business.Mmu.{MmuFault, store}
use risc_v_business.Cpu.{Cpu}
use risc_v_business.Execute.{
  Attempt, trap, ls_mode, page_offset, translate, bus_store, mmu_load, mmu_store,
}
use risc_v_business.Jit.{sentinel, jit_load, jit_store}

-- What a store returns.
abbrev pub store_code : Exit MmuFault (Unit {0}) → Exit ⊥ ℕ
store_code (ok x) = ok 0
store_code (err e) = ok max_u64
store_code panic = panic
store_code hang = hang

module _ {F : Type 0} where
  returned :
      (c : Cpu F) (r : Exit MmuFault (Unit {0}))
      → let o = proceed {S = Cpu F} {E = MmuFault} {A = Unit {0}} {B = ℕ} (λ _. return 0) c r in
        ◌≡◌ {A = Cpu F × Exit ⊥ ℕ} (o.0, sentinel o.1) (c, store_code r)
  returned c (ok x) = refl
  returned c (err e) = refl
  returned c panic = refl
  returned c hang = refl

  stored :
      (k : ℕ → Attempt F (Unit {0})) (c : Cpu F) (r : Exit MmuFault ℕ)
      → let o = proceed {B = ℕ} (λ pa. k pa >>= λ _. return 0) c r in
        let p = proceed k c r in
        ◌≡◌ {A = Cpu F × Exit ⊥ ℕ} (o.0, sentinel o.1) (p.0, store_code p.1)
  stored k c (ok pa) = returned (k pa c).0 (k pa c).1
  stored k c (err e) = refl
  stored k c panic = refl
  stored k c hang = refl

  module _ (D : Disk F) (rounds : ℕ) where
    -- On one page, and where MPRV does not change the mode of loads and stores, a callout does what the
    -- interpreter does: the state is the same, and it returns the value read, or 0 for a store, where
    -- the interpreter succeeds, and `u64::MAX` where the interpreter traps.
    pub callouts_agree :
        (c : Cpu F) (addr width val : ℕ)
        → leb (page_offset addr + width) 0x1000 ≡ true
        → ls_mode c ≡ c.mode
        → let (d, r) = mmu_load D rounds (ls_mode c) addr width c in
          let (e, s) = mmu_store D rounds (ls_mode c) addr width val c in
          (jit_load D rounds width addr c ≡ (d, sentinel r))
          × (jit_store D rounds width addr val c ≡ (e, store_code s))
    unfolding jit_load jit_store mmu_load mmu_store
    callouts_agree c addr width val h hm =
        let t = translate D rounds store c.mode addr c in
        rw (h, hm) (refl, stored (λ pa. bus_store D rounds pa width val (trap 7 addr)) t.0 t.1)
