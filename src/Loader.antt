-- ===== src/Loader.antt =====
-- The ELF loader, src/loader.rs. Parsing is the `goblin` crate's: what it finds in the file is an
-- argument. Sums of addresses wrap, as in a release build.
pub mod Placed
mod Tests
use risc_v_business.Base.{
  ℕ, zero, suc, ◌+◌, ◌-◌, ◌*◌, ◌%◌, ◌^◌, Bool, true, false, not, ltb, leb, ◌||◌, if◌then◌else◌,
  Option, none, some, List, [], ◌∷◌, length, replicate, wrapping_add, Exit, ok, err, panic, hang,
}
use risc_v_business.Ram.{read_bytes, write_bytes}
use risc_v_business.Bus
use risc_v_business.Bus.{Bus}

-- The fields that the loader reads of a program header and of a symbol.
pub record ProgramHeader : Type 0 where
  pub is_load : Bool
  pub p_offset : ℕ
  pub p_filesz : ℕ
  pub p_paddr : ℕ

pub record Symbol : Type 0 where
  pub is_tohost : Bool
  pub st_value : ℕ

-- What `Elf::parse` returns.
pub record Elf : Type 0 where
  pub is_64 : Bool
  pub is_dyn : Bool
  pub entry : ℕ
  pub program_headers : List ProgramHeader
  pub syms : List Symbol

pub record LoadedElf (F : Type 0) : Type 0 where
  pub bus : Bus F
  pub entry : ℕ
  pub tohost_addr : Option ℕ

pub data LoadError : Type 0 where
  parse_failed expected_elf64 : LoadError
  below_ram : ℕ → LoadError
  out_of_file : LoadError
  exceeds_ram : ℕ → ℕ → LoadError

abbrev pub ram_base : ℕ
ram_base = 0x8000_0000

abbrev pub ram_size : ℕ
ram_size = 256 * 1024 * 1024

-- `bytes.get(start..end)`.
unfoldable pub slice : List ℕ → ℕ → ℕ → Option (List ℕ)
slice bytes start end =
    if ltb end start || ltb (length bytes) end
    then none
    else some (read_bytes bytes start (end - start))

-- One PT_LOAD segment, into the RAM of `size` bytes.
unfoldable pub place : ℕ → ℕ → List ℕ → ℕ → Option (List ℕ) → List ℕ → Exit LoadError (List ℕ)
place size mem_addr bytes filesz none ram = err out_of_file
place size mem_addr bytes filesz (some segment) ram =
    let off = mem_addr - ram_base in
    if ltb size (off + length segment)
    then err (exceeds_ram mem_addr (wrapping_add mem_addr filesz))
    else ok (write_bytes ram off segment)

unfoldable pub load_segment : ℕ → List ℕ → ℕ → ProgramHeader → List ℕ → Exit LoadError (List ℕ)
load_segment size bytes load_offset ph ram =
    let file_end = wrapping_add ph.p_offset ph.p_filesz in
    let mem_addr = wrapping_add ph.p_paddr load_offset in
    if not ph.is_load
    then ok ram
    else if ltb mem_addr ram_base
    then err (below_ram mem_addr)
    else place size mem_addr bytes ph.p_filesz (slice bytes ph.p_offset file_end) ram

unfoldable pub load_segments :
    ℕ → List ℕ → ℕ → List ProgramHeader → List ℕ → Exit LoadError (List ℕ)
load_segments size bytes load_offset [] ram = ok ram
load_segments size bytes load_offset (ph ∷ phs) ram =
    elim (load_segment size bytes load_offset ph ram) [
      | ok ram' ↦ load_segments size bytes load_offset phs ram'
      | err e ↦ err e
      | panic ↦ panic
      | hang ↦ hang
    ]

unfoldable pub find_tohost : List Symbol → Option ℕ
find_tohost [] = none
find_tohost (s ∷ ss) = if s.is_tohost then some s.st_value else find_tohost ss

-- `parsed` is what `Elf::parse` gives for the bytes.
unfoldable pub load_elf : {F : Type 0} → List ℕ → Option Elf → Exit LoadError (LoadedElf F)
load_elf bytes none = err parse_failed
load_elf bytes (some elf) =
    let load_offset = if elf.is_dyn then ram_base else 0 in
    let bus = Bus.new ram_size ram_base in
    if not elf.is_64
    then err expected_elf64
    else elim (load_segments ram_size bytes load_offset elf.program_headers bus.ram) [
      | ok ram ↦ ok (record {
        bus = record bus { ram = ram };
        entry = wrapping_add elf.entry load_offset;
        tohost_addr = find_tohost elf.syms;
      })
      | err e ↦ err e
      | panic ↦ panic
      | hang ↦ hang
    ]
