-- ===== src/Execute/Tests.antt =====
-- Tests of `Execute`: runs of instructions, some of them those of the source's own tests, and the
-- theorems at concrete states.
use risc_v_business.Base.{
  ℕ, ◌+◌, ◌-◌, ◌*◌, ◌%◌, ◌^◌, ◌≤◌, false, ◌≡◌, ◌⊎◌, refl, max_u64, none, some, [], ◌∷◌,
  get_or-replicate, arith, ok,
}
use risc_v_business.VirtioBlk.{Disk}
use risc_v_business.Bus
use risc_v_business.Bus.{Bus}
use risc_v_business.Bus.ByteMemory.{Bytes, word_at, with_word, read, write, answers}
use risc_v_business.Mmu
use risc_v_business.Ram.{read_le, write_le}
use risc_v_business.Mmu.{walk_levels, m, load, store}
use risc_v_business.Csr
use risc_v_business.Cpu
use risc_v_business.Cpu.{Cpu, reg, set_reg}
use risc_v_business.Execute.{
  ls_mode, translate, mmu_load, mmu_store, load_bytes, store_bytes, bus_load, bus_store,
}
use risc_v_business.Execute.Alu.{
  signed_lt, sext, mulh_value, quotient, remainder, div_value, rem_value,
}
use risc_v_business.Execute.Float.{boxed, unboxed}
use risc_v_business.Execute.Memory.{amo_add, amo_min, amo_d, amo, store_conditional}
use risc_v_business.Execute.Blamed.{Blamed, byte_of}
use risc_v_business.Execute.Faults.{mmu-Explains}
use risc_v_business.Execute.Physical.{IsPhysical}
use risc_v_business.Execute.MachineMemory.{access_all, access_all-answers}
use risc_v_business.Execute.Atomics.{Done, amo-Done, sc_memory, store_conditional-Done}
use risc_v_business.Execute.Division.{IsRemainder, div-rem}

-- A disk that is never there.
abbrev missing : Disk ℕ
missing = record {
  seek = λ f n. (f, false);
  read_exact = λ f bs. (f, bs, false);
  write_all = λ f bs. (f, false);
}

-- 64 bytes of RAM across a page boundary, all of them 0.
abbrev hart : Cpu ℕ
hart = set_reg (Cpu.new (Bus.new 64 0x8000_0FE0) 0x8000_0FE0) 1 0x8000_0FF0

abbrev zeroed : Bytes
zeroed a = 0

-- -2 ^ 63 times -1 has 0 in its upper half, and divided by -1 it overflows.
mulh_min : mulh_value (2 ^ 63) max_u64 ≡ 0
unfolding mulh_value
mulh_min = refl

div_min : div_value (2 ^ 63) max_u64 ≡ 2 ^ 63
unfolding div_value
div_min = refl

div_zero : div_value 7 0 ≡ max_u64
unfolding div_value
div_zero = refl

-- -7 by 2 is -3, with -1 left.
div_negative : div_value (2 ^ 64 - 7) 2 ≡ 2 ^ 64 - 3
unfolding div_value quotient
div_negative = refl

rem_negative : rem_value (2 ^ 64 - 7) 2 ≡ 2 ^ 64 - 1
unfolding rem_value remainder
rem_negative = refl

-- The smaller of -3 and -5.
amo_min_signed : amo_d amo_min (2 ^ 64 - 3) (2 ^ 64 - 5) ≡ 2 ^ 64 - 5
unfolding amo_d signed_lt
amo_min_signed = refl

sext_word : sext 0x8000_0000 31 ≡ 0xFFFF_FFFF_8000_0000
unfolding sext
sext_word = refl

boxed_one : unboxed (boxed 0x3F80_0000) ≡ 0x3F80_0000
unfolding unboxed boxed
boxed_one = refl

div-rem_example :
    ((div_value (2 ^ 63) max_u64 * max_u64 + rem_value (2 ^ 63) max_u64) % 2 ^ 64 ≡ 2 ^ 63)
    × ((max_u64 ≡ 0) ⊎ IsRemainder (2 ^ 63) max_u64 (rem_value (2 ^ 63) max_u64))
div-rem_example = div-rem (2 ^ 63) max_u64 (omega arith) (omega arith)

-- The RAM ends where the second page begins: the load and the store both trap at that address.
abbrev short : Cpu ℕ
short = Cpu.new (Bus.new 32 0x8000_0FE0) 0x8000_0FE0

mmu-Explains_example :
    Blamed load
      (translate missing 4 load m)
      (λ pa. Bus.load pa 8)
      (λ k pa. Bus.load pa 1)
      0x8000_0FFC
      8
      short
      (record { cause = 5; tval = 0x8000_1000 })
    × Blamed store
        (translate missing 4 store m)
        (λ pa. Bus.store missing 4 pa 8 5)
        (λ k pa. Bus.store missing 4 pa 1 (byte_of 5 k))
        0x8000_0FFC
        8
        short
        (record { cause = 7; tval = 0x8000_1000 })
unfolding mmu_load mmu_store translate Mmu.translate walk_levels Cpu.new Csr.new load_bytes
    store_bytes bus_load bus_store Bus.load Bus.store Bus.load_ram Bus.store_ram Bus.offset Bus.new
    read_le write_le
mmu-Explains_example = mmu-Explains missing 4 m 0x8000_0FFC 8 5 short (omega arith)

-- Every byte of an access of the RAM of `hart`.
physical :
    (va width : ℕ) → 0x8000_0FE0 ≤ va → va + width ≤ 0x8000_1020 → IsPhysical hart.bus va width
unfolding Cpu.new set_reg Bus.new
physical va width h h' = record {
  plain = λ i hi. record {
    clint = ground (arith, h, h', hi);
    plic = ground (arith, h, h', hi);
    uart = ground (arith, h, h', hi);
    virtio = ground (arith, h, h', hi);
  };
  fits = omega arith;
  in_ram = (omega (arith, h), omega (arith, h'));
}

-- A store of eight bytes across the page boundary, loaded again.
access_all-answers_example :
    (access_all missing 4 (write 0x8000_0FFC 8 77 ∷ read 0x8000_0FFC 8 ∷ []) hart).1
    ≡ ok (answers (write 0x8000_0FFC 8 77 ∷ read 0x8000_0FFC 8 ∷ []) zeroed)
unfolding Cpu.new set_reg Bus.new
access_all-answers_example =
    access_all-answers missing 4 (write 0x8000_0FFC 8 77 ∷ read 0x8000_0FFC 8 ∷ []) hart zeroed
      (λ i h. get_or-replicate 64 i 0) (λ a. omega arith)
      (
        (physical 0x8000_0FFC 8 (omega arith) (omega arith), refl),
        ((physical 0x8000_0FFC 8 (omega arith) (omega arith), refl), tt),
      )

amo-Done_example :
    let o = amo missing 4 8 (λ v. v) (amo_d amo_add) 2 1 1 hart in
    let old = word_at zeroed (reg hart 1) 8 in
    (o.1 ≡ ok tt)
    × Done hart o.0 (with_word zeroed (reg hart 1) 8 (amo_d amo_add old (reg hart 1))) 2 old none
unfolding Cpu.new set_reg Bus.new ls_mode reg Csr.new
amo-Done_example =
    amo-Done missing 4 hart zeroed 8 (λ v. v) (amo_d amo_add) 2 1 1 refl refl (omega arith)
      (physical 0x8000_0FF0 8 (omega arith) (omega arith)) refl (λ i h. get_or-replicate 64 i 0)

-- The same hart, with a reservation for the address.
abbrev reserved : Cpu ℕ
reserved = record hart { reservation = some 0x8000_0FF0 }

store_conditional-Done_example :
    let o = store_conditional missing 4 8 2 1 1 reserved in
    (o.1 ≡ ok tt)
    × Done reserved o.0 (sc_memory missing 4 reserved zeroed 0x8000_0FF0 8 0x8000_0FF0) 2 0 none
unfolding Cpu.new set_reg Bus.new ls_mode reg Csr.new
store_conditional-Done_example =
    store_conditional-Done missing 4 reserved zeroed 8 2 1 1 refl refl (omega arith)
      (physical 0x8000_0FF0 8 (omega arith) (omega arith)) refl (λ i h. get_or-replicate 64 i 0)
