-- ===== src/Execute/StepInvariant.antt =====
-- The invariant of the hart from `Cpu::new` and through `Cpu::step`, src/cpu/mod.rs.
use risc_v_business.Base.{
  ℕ, ◌*◌, ◌^◌, refl, ◌==◌, bit_and, bit_or, u16, Exit, ok, err, panic, hang, return,
  length-replicate, arith,
}
use risc_v_business.VirtioBlk.{Disk}
use risc_v_business.Bus.{Bus}
use risc_v_business.Csr
use risc_v_business.Csr.{Csr}
use risc_v_business.Mmu.{MmuFault, fetch}
use risc_v_business.Decode.{Decoded}
use risc_v_business.Decode.Full.{decode}
use risc_v_business.Decode.Compressed.{decode_rvc}
use risc_v_business.Cpu.{Cpu, new, check_interrupts}
use risc_v_business.Cpu.Invariant.{
  IsEven, WellFormed, deliver_trap-WellFormed, check_interrupts-WellFormed,
}
use risc_v_business.Execute.{trap}
use risc_v_business.Execute.Float.{Floats}
use risc_v_business.Execute.Keeps.{Keeps, bind-Keeps, if-Keeps, translate-Keeps, bus_load-Keeps}
use risc_v_business.Execute.Invariant.{execute-WellFormed}
use risc_v_business.Execute.Step.{
  is_rvc, fetch_high, fetch_raw, run_decoded, run_raw, after_fetch, step,
}

module _ {F : Type 0} where
  return-Keeps : {A : Type 0} (a : A) → Keeps {F = F} {E = MmuFault} (return a)
  return-Keeps a = record { kept = λ c h. h }

  set_size-WellFormed :
      (c : Cpu F) (n : ℕ) → IsEven n → WellFormed c → WellFormed (record c { inst_size = n })
  set_size-WellFormed c n e h = ground arith

  pub new-WellFormed : (b : Bus F) (entry : ℕ) → IsEven entry → WellFormed (new b entry)
  unfolding new Csr.new
  new-WellFormed b entry e = record {
    regs_32 = length-replicate {A = ℕ} 32 0;
    zero_kept = refl;
    fregs_32 = length-replicate {A = ℕ} 32 0;
    pc_even = e;
    mepc_even = refl;
    sepc_even = refl;
    size_even = refl;
  }

  module _ (D : Disk F) (rounds : ℕ) where
    fetch_high-Keeps : (pa : ℕ) (c : Cpu F) → Keeps (fetch_high D rounds pa c)
    unfolding fetch_high
    fetch_high-Keeps pa c =
        bind-Keeps
          (if-Keeps (bit_and c.pc 0xfff == 0xffe) (translate-Keeps D rounds _ _ _) (return-Keeps _))
          λ pa_hi. bus_load-Keeps _ _ _

    fetch_raw-WellFormed : (c : Cpu F) → WellFormed c → WellFormed (fetch_raw D rounds c).0
    unfolding fetch_raw
    fetch_raw-WellFormed c h =
        (bind-Keeps (translate-Keeps D rounds fetch c.mode c.pc) λ pa.
            bind-Keeps (bus_load-Keeps pa 2 (trap 1 c.pc)) λ lo.
              if-Keeps (is_rvc (u16 lo)) (return-Keeps (u16 lo)) (
                bind-Keeps (fetch_high-Keeps pa c)
                  λ hi. return-Keeps (bit_or (u16 lo) (u16 hi * 2 ^ 16)))).kept
          c h

    module _ (fl : Floats) where
      run_decoded-WellFormed :
          (raw : ℕ) (d : Decoded) (c : Cpu F)
          → WellFormed c
          → WellFormed (run_decoded D rounds fl raw d c).0
      unfolding run_decoded
      run_decoded-WellFormed raw (ok i) c h = execute-WellFormed D rounds fl i c h
      run_decoded-WellFormed raw (err e) c h = deliver_trap-WellFormed c 2 raw h
      run_decoded-WellFormed raw panic c h = h
      run_decoded-WellFormed raw hang c h = h

      run_raw-WellFormed :
          (raw : ℕ) (c : Cpu F) → WellFormed c → WellFormed (run_raw D rounds fl raw c).0
      unfolding run_raw
      run_raw-WellFormed raw c h = ground (
        arith,
        run_decoded-WellFormed (bit_and raw 0xffff) (decode_rvc (u16 raw))
            (record c { inst_size = 2 }) (set_size-WellFormed c 2 refl h),
        run_decoded-WellFormed raw (decode raw) (record c { inst_size = 4 })
            (set_size-WellFormed c 4 refl h),
      )

      after_fetch-WellFormed :
          (c : Cpu F) (r : Exit MmuFault ℕ)
          → WellFormed c
          → WellFormed (after_fetch D rounds fl c r).0
      unfolding after_fetch
      after_fetch-WellFormed c (ok raw) h = run_raw-WellFormed raw c h
      after_fetch-WellFormed c (err f) h = deliver_trap-WellFormed c f.cause f.tval h
      after_fetch-WellFormed c panic h = h
      after_fetch-WellFormed c hang h = h

      -- A step keeps the invariant of the hart, however it ends: 32 registers of each kind, x0 holding
      -- 0, and an even `pc`, `mepc` and `sepc`.
      pub step-WellFormed : (c : Cpu F) → WellFormed c → WellFormed (step D rounds fl c).0
      unfolding step
      step-WellFormed c h =
          let hi = check_interrupts-WellFormed c h in
          let c' = (check_interrupts c).0 in
          ground (
            arith,
            hi,
            deliver_trap-WellFormed c' 0 c'.pc hi,
            after_fetch-WellFormed (fetch_raw D rounds c').0 (fetch_raw D rounds c').1
                (fetch_raw-WellFormed c' hi),
          )
