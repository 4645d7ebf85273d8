-- ===== src/Csr.antt =====
-- The control and status registers, src/cpu/csr.rs: the register file behind `read` and `write`,
-- and the updates of `mstatus` on trap entry and return.
pub mod Status
pub mod File
mod Tests
use risc_v_business.Base.{
  ℕ, ◌+◌, ◌-◌, ◌*◌, ◌/◌, ◌%◌, Bool, true, false, ◌&&◌, ◌||◌, leb, ◌==◌, if◌then◌else◌, List, get_or,
  set, replicate, bit_and, bit_or, not64, ◌>>>◌, ◌<<<◌, max_u64,
}

pub record Csr : Type 0 where
  pub mstatus : ℕ
  pub misa : ℕ
  pub mie : ℕ
  pub mtvec : ℕ
  pub mscratch : ℕ
  pub mepc : ℕ
  pub mcause : ℕ
  pub mtval : ℕ
  pub mip : ℕ
  pub medeleg : ℕ
  pub mideleg : ℕ
  pub stvec : ℕ
  pub sscratch : ℕ
  pub sepc : ℕ
  pub scause : ℕ
  pub stval : ℕ
  pub satp : ℕ
  pub pmpcfg0 : ℕ
  pub pmpcfg2 : ℕ
  pub pmpaddr : List ℕ
  pub stimecmp : ℕ

unfoldable pub new : Csr
new = record {
  mstatus = 0;
  misa = 0x8000_0000_0004_1101;
  mie = 0;
  mtvec = 0;
  mscratch = 0;
  mepc = 0;
  mcause = 0;
  mtval = 0;
  mip = 0;
  medeleg = 0;
  mideleg = 0;
  stvec = 0;
  sscratch = 0;
  sepc = 0;
  scause = 0;
  stval = 0;
  satp = 0;
  pmpcfg0 = 0;
  pmpcfg2 = 0;
  pmpaddr = replicate 16 0;
  stimecmp = max_u64;
}

-- The bits of `mstatus` that `sstatus` shows, and those that it writes.
abbrev pub sstatus_mask : ℕ
sstatus_mask = 0x8000_0003_000D_E162

abbrev pub sstatus_writable : ℕ
sstatus_writable = 0x0000_0000_000D_E162

-- The bits of `mie` and `mip` that `sie` and `sip` show.
abbrev pub s_interrupts : ℕ
s_interrupts = 0x222

-- The registers of M-mode that `read` gives as they stand.
unfoldable pub read_machine : Csr → ℕ → ℕ
read_machine c addr =
    if addr == 0x300
    then bit_or c.mstatus 0x0000_000A_0000_0000
    else if addr == 0x301
    then c.misa
    else if addr == 0x304
    then c.mie
    else if addr == 0x305
    then c.mtvec
    else if addr == 0x340
    then c.mscratch
    else if addr == 0x341
    then c.mepc
    else if addr == 0x342
    then c.mcause
    else if addr == 0x343
    then c.mtval
    else if addr == 0x344
    then c.mip
    else if addr == 0x302
    then c.medeleg
    else if addr == 0x303
    then c.mideleg
    else if addr == 0x3A0
    then c.pmpcfg0
    else if addr == 0x3A2
    then c.pmpcfg2
    else if leb 0x3B0 addr && leb addr 0x3BF
    then get_or c.pmpaddr (addr - 0x3B0) 0
    else 0

-- Those of S-mode, some of them views of M-mode's. No address is in both lists, so that the order
-- of the cases of the source's one `match` makes no difference.
unfoldable pub read_supervisor : Csr → ℕ → ℕ
read_supervisor c addr =
    if addr == 0x105
    then c.stvec
    else if addr == 0x140
    then c.sscratch
    else if addr == 0x141
    then c.sepc
    else if addr == 0x142
    then c.scause
    else if addr == 0x143
    then c.stval
    else if addr == 0x180
    then c.satp
    else if addr == 0x100
    then bit_and (bit_or c.mstatus 0x0000_0002_0000_0000) sstatus_mask
    else if addr == 0x104
    then bit_and c.mie s_interrupts
    else if addr == 0x106
    then 0
    else if addr == 0x144
    then bit_and c.mip s_interrupts
    else if addr == 0x14D
    then c.stimecmp
    else 0

-- The addresses from 0x100 to 0x1FF are those of S-mode; all others that `read` knows are M-mode's.
abbrev pub is_supervisor : ℕ → Bool
is_supervisor addr = leb 0x100 addr && leb addr 0x1FF

unfoldable pub read : Csr → ℕ → ℕ
read c addr = if is_supervisor addr then read_supervisor c addr else read_machine c addr

unfoldable pub mie_bit : Csr → ℕ
mie_bit c = bit_and (c.mstatus >>> 3) 1

unfoldable pub trap_entry : Csr → ℕ → Csr
trap_entry c prev_mode = record c {
  mstatus = bit_or (bit_or (bit_and c.mstatus (not64 0x1888)) (mie_bit c <<< 7)) (prev_mode <<< 11);
}

unfoldable pub mret : Csr → Csr
mret c =
    let mpie = bit_and (c.mstatus >>> 7) 1 in
    let mpp = bit_and (c.mstatus >>> 11) 3 in
    let clear_mask = if mpp == 3 then 0x1888 else 0x0002_1888 in
    record c {
      mstatus = bit_or (bit_or (bit_and c.mstatus (not64 clear_mask)) (mpie <<< 3)) (1 <<< 7);
    }

-- `from_smode as u64`
abbrev pub as_word : Bool → ℕ
as_word true = 1
as_word false = 0

unfoldable pub s_trap_entry : Csr → Bool → Csr
s_trap_entry c from_smode =
    let sie = bit_and (c.mstatus >>> 1) 1 in
    record c {
      mstatus =
          bit_or (bit_or (bit_and c.mstatus (not64 0x122)) (sie <<< 5)) (as_word from_smode <<< 8);
    }

unfoldable pub s_ret : Csr → Csr
s_ret c =
    let spie = bit_and (c.mstatus >>> 5) 1 in
    record c { mstatus = bit_or (bit_or (bit_and c.mstatus (not64 0x122)) (spie <<< 1)) (1 <<< 5) }

unfoldable pub write_machine : Csr → ℕ → ℕ → Csr
write_machine c addr val =
    if addr == 0x300
    then record c { mstatus = bit_and val (not64 0x0000_000F_0000_0000) }
    else if addr == 0x304
    then record c { mie = val }
    else if addr == 0x305
    then record c { mtvec = val }
    else if addr == 0x340
    then record c { mscratch = val }
    else if addr == 0x341
    then record c { mepc = bit_and val (not64 1) }
    else if addr == 0x342
    then record c { mcause = val }
    else if addr == 0x343
    then record c { mtval = val }
    else if addr == 0x344
    then record c { mip = val }
    else if addr == 0x3A0
    then record c { pmpcfg0 = val }
    else if addr == 0x3A2
    then record c { pmpcfg2 = val }
    else if leb 0x3B0 addr && leb addr 0x3BF
    then record c { pmpaddr = set c.pmpaddr (addr - 0x3B0) val }
    else if addr == 0x302
    then record c { medeleg = val }
    else if addr == 0x303
    then record c { mideleg = val }
    else c

-- A write of `satp` with a mode other than bare (0) and Sv39 (8) is ignored.
unfoldable pub write_satp : Csr → ℕ → Csr
write_satp c val = if (val >>> 60) == 0 || (val >>> 60) == 8 then record c { satp = val } else c

unfoldable pub write_supervisor : Csr → ℕ → ℕ → Csr
write_supervisor c addr val =
    if addr == 0x105
    then record c { stvec = val }
    else if addr == 0x140
    then record c { sscratch = val }
    else if addr == 0x141
    then record c { sepc = bit_and val (not64 1) }
    else if addr == 0x142
    then record c { scause = val }
    else if addr == 0x143
    then record c { stval = val }
    else if addr == 0x180
    then write_satp c val
    else if addr == 0x100
    then record c {
      mstatus = bit_or (bit_and c.mstatus (not64 sstatus_writable)) (bit_and val sstatus_writable);
    }
    else if addr == 0x104
    then record c { mie = bit_or (bit_and c.mie (not64 s_interrupts)) (bit_and val s_interrupts) }
    else if addr == 0x144
    then record c { mip = bit_or (bit_and c.mip (not64 0x002)) (bit_and val 0x002) }
    else if addr == 0x14D
    then record c { stimecmp = val }
    else c

unfoldable pub write : Csr → ℕ → ℕ → Csr
write c addr val =
    if is_supervisor addr then write_supervisor c addr val else write_machine c addr val
