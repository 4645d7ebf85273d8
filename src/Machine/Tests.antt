-- ===== src/Machine/Tests.antt =====
-- Tests of `Machine`.
use risc_v_business.Base.{
  ℕ, ◌≡◌, refl, arith, false, not, leb, ◌==◌, ◌&&◌, if◌then◌else◌, List, [], ◌∷◌, bit, max_u64,
}
use risc_v_business.VirtioBlk.{Disk}
use risc_v_business.Plic
use risc_v_business.Bus
use risc_v_business.Bus.{Bus}
use risc_v_business.Csr
use risc_v_business.Cpu.Invariant.{WellFormed}
use risc_v_business.Execute.Float.{Host, Floats}
use risc_v_business.Machine.{Supply, clock_due, lines_of, run}
use risc_v_business.Machine.Histories.{started, run-started-WellFormed}
use risc_v_business.Machine.Lines.{as_bit, bit-lines_of}

-- A disk that is never there.
abbrev detached : Disk ℕ
detached = record {
  seek = λ f n. (f, false);
  read_exact = λ f bs. (f, bs, false);
  write_all = λ f bs. (f, false);
}

-- An arithmetic of floats that gives 0.
abbrev zero_host : Host
zero_host = record {
  add = λ a b. 0;
  sub = λ a b. 0;
  mul = λ a b. 0;
  div = λ a b. 0;
  min = λ a b. 0;
  max = λ a b. 0;
  sqrt = λ a. 0;
  mul_add = λ a b c. 0;
  to_i32 = λ a. 0;
  to_u32 = λ a. 0;
  to_i64 = λ a. 0;
  to_u64 = λ a. 0;
  from_i32 = λ a. 0;
  from_u32 = λ a. 0;
  from_i64 = λ a. 0;
  from_u64 = λ a. 0;
}

abbrev zero_floats : Floats
zero_floats = record { f32 = zero_host; f64 = zero_host; narrow = λ a. 0; widen = λ a. 0 }

-- RAM whose first instruction is `addi x1, x0, 5`.
abbrev program : Bus ℕ
program = record (Bus.new 8 0x8000_0000) { ram = 0x93 ∷ 0 ∷ 0x50 ∷ 0 ∷ 0 ∷ 0 ∷ 0 ∷ 0 ∷ [] }

abbrev supplies : List Supply
supplies = record { bytes = []; advance = 10 } ∷ record { bytes = 65 ∷ []; advance = 10 } ∷ []

run-started-WellFormed_example :
    WellFormed (run detached 4 zero_floats supplies (started program 0x8000_0000)).0.cpu
run-started-WellFormed_example =
    run-started-WellFormed detached 4 zero_floats program 0x8000_0000 supplies refl

bit-lines_of_example : bit 7 (lines_of program Csr.new) ≡ (
    if 7 == 9
    then as_bit (Plic.has_interrupt program.plic)
    else if 7 == 5 && not (Csr.new.stimecmp == max_u64)
    then as_bit (leb Csr.new.stimecmp program.clint.mtime)
    else if 7 == 7
    then as_bit (clock_due program.clint)
    else bit 7 Csr.new.mip)
bit-lines_of_example = bit-lines_of program Csr.new 7 (omega arith)
