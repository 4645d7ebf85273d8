-- ===== src/Execute/Step.antt =====
-- One step of the hart, `Cpu::step` of src/cpu/mod.rs: the interrupt check, the fetch, the decoding and
-- the execution. The addresses of the second half of an instruction wrap, as in a release build.
-- The tracer only prints, and is left out.
use risc_v_business.Base.{
  ℕ, ◌*◌, ◌^◌, Bool, not, ◌==◌, if◌then◌else◌, bit_and, bit_or, u16, wrapping_add, Exit, ok, err,
  panic, hang, ◌>>=◌, return,
}
use risc_v_business.VirtioBlk.{Disk}
use risc_v_business.Mmu.{MmuFault, fetch}
use risc_v_business.Decode.{Decoded}
use risc_v_business.Decode.Full.{decode}
use risc_v_business.Decode.Compressed.{decode_rvc}
use risc_v_business.Cpu.{Cpu, deliver_trap, check_interrupts}
use risc_v_business.Execute.{Arm, Attempt, trap, translate, bus_load}
use risc_v_business.Execute.Float.{Floats}
use risc_v_business.Execute.Full.{execute, is_odd}

-- The low bits of a half tell an instruction of 16 bits.
abbrev pub is_rvc : ℕ → Bool
is_rvc raw = not (bit_and raw 0x3 == 0x3)

module _ {F : Type 0} (D : Disk F) (rounds : ℕ) where
  -- The upper half of an instruction of 32 bits, whose lower half is at `pa`.
  unfoldable pub fetch_high : ℕ → Cpu F → Attempt F ℕ
  fetch_high pa c =
      let pc2 = wrapping_add c.pc 2 in
      let same_page : Attempt F ℕ = return (wrapping_add pa 2) in
      (if bit_and c.pc 0xfff == 0xffe then translate D rounds fetch c.mode pc2 else same_page)
      >>= λ pa_hi. bus_load pa_hi 2 (trap 1 pc2)

  unfoldable pub fetch_raw : Attempt F ℕ
  fetch_raw c =
      (translate D rounds fetch c.mode c.pc >>= λ pa. bus_load pa 2 (trap 1 c.pc) >>= λ lo.
      let rest = fetch_high pa c >>= λ hi. return (bit_or (u16 lo) (u16 hi * 2 ^ 16)) in
      if is_rvc (u16 lo) then return (u16 lo) else rest)
        c

  module _ (fl : Floats) where
    -- The instruction, or the trap with the bits that do not decode.
    unfoldable pub run_decoded : ℕ → Decoded → Arm F
    run_decoded raw (ok i) c = execute D rounds fl i c
    run_decoded raw (err e) c = (deliver_trap c 2 raw, ok tt)
    run_decoded raw panic c = (c, panic)
    run_decoded raw hang c = (c, hang)

    unfoldable pub run_raw : ℕ → Arm F
    run_raw raw c =
        if is_rvc raw
        then run_decoded (bit_and raw 0xffff) (decode_rvc (u16 raw)) (record c { inst_size = 2 })
        else run_decoded raw (decode raw) (record c { inst_size = 4 })

    unfoldable pub after_fetch : Cpu F → Exit MmuFault ℕ → Cpu F × Exit ⊥ (Unit {0})
    after_fetch c (ok raw) = run_raw raw c
    after_fetch c (err f) = (deliver_trap c f.cause f.tval, ok tt)
    after_fetch c panic = (c, panic)
    after_fetch c hang = (c, hang)

    unfoldable pub step : Arm F
    step c =
        let (c', fired) = check_interrupts c in
        let (fetched, r) = fetch_raw c' in
        if fired
        then (c', ok tt)
        else if is_odd c'.pc
        then (deliver_trap c' 0 c'.pc, ok tt)
        else after_fetch fetched r
