-- ===== src/Jit/Tests.antt =====
-- Tests of `Jit`.
use risc_v_business.Base.{
  ℕ, zero, suc, ◌-◌, ◌^◌, ◌<◌, ◌≤◌, ◌≡◌, refl, arith, Bool, Bool-cases, inl, inr, true, false, ◌&&◌,
  ltb, ◌==◌, List, [], ◌∷◌, ◌++◌, get_or, replicate, max_u64, wrapping_add, ok,
}
use risc_v_business.VirtioBlk.{Disk}
use risc_v_business.Bus
use risc_v_business.Csr
use risc_v_business.Cpu
use risc_v_business.Cpu.{Cpu}
use risc_v_business.Execute.{ls_mode, mmu_load, mmu_store}
use risc_v_business.Decode.Compressed.{jump_offset, branch_offset}
use risc_v_business.Jit.{sign_ext, rvc_j_imm, rvc_b_imm}
use risc_v_business.Cpu.{reg, set_reg}
use risc_v_business.Decode
use risc_v_business.Decode.Full
use risc_v_business.Decode.Integer
use risc_v_business.Decode.Control
use risc_v_business.Decode.{div, sraw, addi, blt, jal, jalr, lb, ld, sw}
use risc_v_business.Mmu.{MmuFault}
use risc_v_business.Execute.{write, translate, bus_load, bus_store}
use risc_v_business.Mmu
use risc_v_business.Ram.{read_le, write_le}
use risc_v_business.Execute.Alu.{sext, signed_lt}
use risc_v_business.Execute.Full.{execute, branch}
use risc_v_business.Execute.Float.{Host, Floats}
use risc_v_business.Machine.Compiled.{call_block}
use risc_v_business.Jit.Asm.{Op}
use risc_v_business.Jit.Emit.{emit_prologue}
use risc_v_business.Jit.Arms.{emit, emit_words, emit_divisions, emit_memory, emit_jumps}
use risc_v_business.Jit.Compile.{JitCache, get, compile, compile_from, max_block, Written}
use risc_v_business.Jit.Compile
use risc_v_business.Jit.Equivalence.{Simulates}
use risc_v_business.Jit.Straight.{is_div, is_addi, at, unmoved, arithmetic_agrees}
use risc_v_business.Jit.Jumps.{is_blt, Leaves, jumps_agree}
use risc_v_business.Jit.LoadsStores.{
  is_lb, is_ld, is_sw, loads_agree, stores_agree, load_falls_back, store_falls_back,
}
use risc_v_business.Jit.Blocks.{Block, jumps, goes_on, execute_all, blocks_agree}
use risc_v_business.Jit.Returns.{Holds}
use risc_v_business.Jit.Chain.{IsChain}
use risc_v_business.Jit.Bounds.{compiled_blocks}
use risc_v_business.Jit.Cache.{Grown, compile-Grown}
use risc_v_business.Jit.Offsets.{rvc_offsets_agree}

-- A disk that is never there.
abbrev nothing : Disk ℕ
nothing = record {
  seek = λ f n. (f, false);
  read_exact = λ f bs. (f, bs, false);
  write_all = λ f bs. (f, false);
}

abbrev core : Cpu ℕ
core = Cpu.new (Bus.new 64 0x8000_0000) 0x8000_0000

-- `c.j -2` and `c.beqz x8, -2`.
jump_back : rvc_j_imm 0xBFFD ≡ 2 ^ 64 - 2
unfolding rvc_j_imm sign_ext
jump_back = refl

branch_back : rvc_b_imm 0xDC7D ≡ 2 ^ 64 - 2
unfolding rvc_b_imm sign_ext
branch_back = refl

rvc_offsets_agree_example :
    (rvc_j_imm 0xBFFD ≡ jump_offset 0xBFFD) × (rvc_b_imm 0xBFFD ≡ branch_offset 0xBFFD)
rvc_offsets_agree_example = rvc_offsets_agree 0xBFFD

-- An arithmetic of floats that gives 0.
abbrev no_host : Host
no_host = record {
  add = λ a b. 0;
  sub = λ a b. 0;
  mul = λ a b. 0;
  div = λ a b. 0;
  min = λ a b. 0;
  max = λ a b. 0;
  sqrt = λ a. 0;
  mul_add = λ a b c. 0;
  to_i32 = λ a. 0;
  to_u32 = λ a. 0;
  to_i64 = λ a. 0;
  to_u64 = λ a. 0;
  from_i32 = λ a. 0;
  from_u32 = λ a. 0;
  from_i64 = λ a. 0;
  from_u64 = λ a. 0;
}

abbrev no_floats : Floats
no_floats = record { f32 = no_host; f64 = no_host; narrow = λ a. 0; widen = λ a. 0 }

all_below : List ℕ → Bool
all_below [] = true
all_below (x ∷ xs) = ltb x (2 ^ 64) && all_below xs

get_or-lt : (xs : List ℕ) (i : ℕ) → all_below xs ≡ true → get_or xs i 0 < 2 ^ 64
unfolding all_below
get_or-lt [] i h = omega arith
get_or-lt (x ∷ xs) zero h = ground (arith, h)
get_or-lt (x ∷ xs) (suc i) h = get_or-lt xs i (ground (arith, h))

-- x6 holds -7, x7 holds 2, x8 an address in the RAM.
abbrev busy : Cpu ℕ
busy = record core {
  regs = 0 ∷ 0 ∷ 0 ∷ 0 ∷ 0 ∷ 0 ∷ (2 ^ 64 - 7) ∷ 2 ∷ 0x8000_0008 ∷ replicate 23 0;
}

busy-bounded : (r : ℕ) → reg busy r < 2 ^ 64
unfolding reg all_below
busy-bounded r = elim (Bool-cases (r == 0)) [
  | inl t ↦ rw t (omega arith)
  | inr t ↦ rw t (get_or-lt busy.regs r refl)
]

arithmetic_agrees_example :
    let o = execute nothing 4 no_floats (div 5 6 7) (at busy 0x8000_0000) in
    (o ≡ (at (unmoved busy o.0) (wrapping_add 0x8000_0000 4), ok tt))
    × Simulates nothing 4 9 (emit (div 5 6 7) 0x8000_0000).0 busy (unmoved busy o.0)
arithmetic_agrees_example =
    arithmetic_agrees nothing 4 9 no_floats busy refl busy-bounded 0x8000_0000 (div 5 6 7)
      (is_div 5 6 7)

jumps_agree_example :
    let o = execute nothing 4 no_floats (blt 6 7 (2 ^ 64 - 8)) (at busy 0x8000_0010) in
    (o ≡ (at (unmoved busy o.0) o.0.pc, ok tt))
    × Leaves nothing 4 9 (emit (blt 6 7 (2 ^ 64 - 8)) 0x8000_0010).0 busy (unmoved busy o.0) o.0.pc
jumps_agree_example =
    jumps_agree nothing 4 9 no_floats busy refl 0x8000_0010 (blt 6 7 (2 ^ 64 - 8))
      (is_blt 6 7 (2 ^ 64 - 8) refl)

loads_agree_example :
    (execute nothing 4 no_floats (lb 5 8 4) (at busy 0x8000_0000)
      ≡ (at (set_reg busy 5 (sext 0 7)) (wrapping_add 0x8000_0000 4), ok tt))
    × Simulates nothing 4 9 (emit (lb 5 8 4) 0x8000_0000).0 busy (set_reg busy 5 (sext 0 7))
unfolding sext Cpu.new Csr.new Bus.new ls_mode reg mmu_load translate bus_load Mmu.translate
    Bus.load Bus.offset Bus.load_ram read_le Mmu.new Mmu.walk_levels
loads_agree_example =
    loads_agree nothing 4 9 no_floats busy busy refl refl 0x8000_0000 (lb 5 8 4) 1 (λ v. sext v 7) 5
      8 4 0 (is_lb 5 8 4) refl refl refl refl

-- The hart after `sw x7, 4(x8)`, and after loads and stores through a null pointer.
abbrev after_sw : Cpu ℕ
after_sw = (mmu_store nothing 4 (ls_mode busy) 0x8000_000C 4 2 busy).0

stores_agree_example :
    (execute nothing 4 no_floats (sw 8 7 4) (at busy 0x8000_0000)
      ≡ (at after_sw (wrapping_add 0x8000_0000 4), ok tt))
    × Simulates nothing 4 9 (emit (sw 8 7 4) 0x8000_0000).0 busy after_sw
unfolding sext Cpu.new Csr.new Bus.new ls_mode reg mmu_store translate bus_store Mmu.translate
    Bus.store Bus.offset Bus.store_ram write_le Mmu.new Mmu.walk_levels
stores_agree_example =
    stores_agree nothing 4 9 no_floats busy after_sw refl refl 0x8000_0000 (sw 8 7 4) 4 8 7 4
      (is_sw 8 7 4) refl refl refl

load_falls_back_example :
    let (d, r) = mmu_load nothing 4 (ls_mode busy) 0 8 busy in
    Leaves nothing 4 9 (emit (ld 5 0 0) 0x8000_0000).0 busy (record d { pc = 0x8000_0000 }) max_u64
unfolding sext Cpu.new Csr.new Bus.new ls_mode reg mmu_load translate bus_load Mmu.translate
    Bus.load Bus.offset Bus.load_ram read_le Mmu.new Mmu.walk_levels
load_falls_back_example =
    let (d, r) = mmu_load nothing 4 (ls_mode busy) 0 8 busy in
    load_falls_back nothing 4 9 no_floats busy d refl refl 0x8000_0000 (ld 5 0 0) 8 (λ v. v) 5 0 0 r
      (is_ld 5 0 0) refl refl refl refl

store_falls_back_example :
    let (d, r) = mmu_store nothing 4 (ls_mode busy) 0 4 2 busy in
    Leaves nothing 4 9 (emit (sw 0 7 0) 0x8000_0000).0 busy (record d { pc = 0x8000_0000 }) max_u64
unfolding sext Cpu.new Csr.new Bus.new ls_mode reg mmu_store translate bus_store Mmu.translate
    Bus.store Bus.offset Bus.store_ram write_le Mmu.new Mmu.walk_levels
store_falls_back_example =
    let (d, r) = mmu_store nothing 4 (ls_mode busy) 0 4 2 busy in
    store_falls_back nothing 4 9 no_floats busy d refl refl 0x8000_0000 (sw 0 7 0) 4 0 7 0 r
      (is_sw 0 7 0) refl refl refl refl

-- `addi x6, x6, 1` and a branch back to it while x6 is below x7.
abbrev loop_code : List Op
loop_code = (emit (addi 6 6 1) 0x8000_0000).0 ++ (emit (blt 6 7 (2 ^ 64 - 4)) 0x8000_0004).0

abbrev counted : Cpu ℕ
counted = set_reg busy 6 (2 ^ 64 - 6)

loop_code-Block :
    Block nothing 4 9 no_floats
      (addi 6 6 1 ∷ blt 6 7 (2 ^ 64 - 4) ∷ [])
      busy
      0x8000_0000
      loop_code
      counted
      0x8000_0000
unfolding set_reg reg sext execute write Cpu.new branch signed_lt
loop_code-Block =
    let first =
      arithmetic_agrees nothing 4 9 no_floats busy refl busy-bounded 0x8000_0000 (addi 6 6 1)
        (is_addi 6 6 1 refl) in
    let second =
      jumps_agree nothing 4 9 no_floats counted refl 0x8000_0004 (blt 6 7 (2 ^ 64 - 4))
        (is_blt 6 7 (2 ^ 64 - 4) refl) in
    goes_on (addi 6 6 1) _ _ busy counted counted 0x8000_0000 _ first.0 first.1
      (jumps _ counted counted 0x8000_0004 0x8000_0000 second.0 second.1)

blocks_agree_example :
    (execute_all nothing 4 9 no_floats
        (addi 6 6 1 ∷ blt 6 7 (2 ^ 64 - 4) ∷ [])
        (at busy 0x8000_0000)
      ≡ (at counted 0x8000_0000, ok tt))
    × (call_block nothing 4 9 no_floats (emit_prologue ++ loop_code) busy
        ≡ (counted, ok 0x8000_0000))
blocks_agree_example = blocks_agree nothing 4 9 no_floats loop_code-Block

-- The same two instructions in the RAM.
abbrev programmed : Cpu ℕ
programmed = record busy {
  bus = record busy.bus {
    ram = 0x13 ∷ 0x03 ∷ 0x13 ∷ 0x00 ∷ 0xE3 ∷ 0x4E ∷ 0x73 ∷ 0xFE ∷ replicate 56 0;
  };
}

written_block :
    compile_from nothing 4 2 126 0x8000_0000 programmed ≡ (programmed, ok (loop_code, 128))
unfolding compile_from translate bus_load Mmu.translate Mmu.walk_levels Bus.load Bus.offset
    Bus.load_ram read_le Cpu.new Bus.new Mmu.new Csr.new Full.decode Integer.arithmetic emit
    Control.branch Decode.reg Decode.i_imm Decode.b_imm emit_words emit_divisions emit_memory
    emit_jumps
written_block = refl

compiled_blocks_example :
    let o = compile_from nothing 4 128 0 0x8000_0000 programmed in
    (o ≡ compile_from nothing 4 max_block 0 0x8000_0000 programmed)
    × Holds (λ w. IsChain nothing 4 0 0x8000_0000 programmed w × (w.1 ≤ 128)) o.1
compiled_blocks_example = compiled_blocks nothing 4 128 0x8000_0000 programmed (omega arith)

-- The cache with the block, and one without.
abbrev filled : JitCache
filled = Compile.insert Compile.new 0x8000_0000 (emit_prologue ++ loop_code)

compiled_block : compile nothing 4 Compile.new 0x8000_0000 programmed ≡ (programmed, ok filled)
unfolding compile_from translate bus_load Mmu.translate Mmu.walk_levels Bus.load Bus.offset
    Bus.load_ram read_le Cpu.new Bus.new Mmu.new Csr.new Full.decode Integer.arithmetic emit
    Control.branch Decode.reg Decode.i_imm Decode.b_imm emit_words emit_divisions emit_memory
    emit_jumps compile Compile.fill Compile.lookup
compiled_block = refl

compile-Grown_example : Grown Compile.new 0x8000_0000 filled
compile-Grown_example =
    compile-Grown nothing 4 Compile.new filled 0x8000_0000 programmed programmed compiled_block
