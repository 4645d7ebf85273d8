-- ===== src/VirtioBlk.antt =====
-- The block device, src/virtio_blk.rs: its registers and the virtqueue. The diagnostics that the
-- source prints are left out. The disk is a file of the host: a type with the three operations
-- that the source calls, in the record `Disk`.
pub mod Queue
pub mod Registers
pub mod Frame
pub mod Drain
mod Tests
use risc_v_business.Base.{
  ℕ, zero, suc, ◌+◌, ◌-◌, ◌*◌, ◌/◌, ◌%◌, Bool, true, false, not, ◌&&◌, ◌||◌, ltb, leb, ◌==◌,
  if◌then◌else◌, Option, none, some, List, [], ◌∷◌, length, get_or, set, min, bit_and, bit_or,
  not32, u16, u32, ◌>>>◌, ◌<<<◌, wrapping_add, wrapping_sub, Run, ok, panic, hang, ◌>>=◌, ◌>>◌,
  return,
}
use risc_v_business.Ram.{read_le, write_le, read_bytes, write_bytes}

-- `std::fs::File`: `seek` to an offset from the start, `read_exact` into a slice of the given
-- length, `write_all` of a slice. Each gives the file afterwards and whether it succeeded; a read
-- also gives what it has left in the slice.
pub record Disk (F : Type 0) : Type 0 where
  pub seek : F → ℕ → F × Bool
  pub read_exact : F → List ℕ → F × List ℕ × Bool
  pub write_all : F → List ℕ → F × Bool

abbrev pub queue_size : ℕ
queue_size = 256

abbrev pub sector_size : ℕ
sector_size = 512

abbrev pub device_features : List ℕ
device_features = 0 ∷ 1 ∷ []

-- DESC_F_NEXT, DESC_F_WRITE, T_IN, T_OUT, T_FLUSH, S_OK, S_IOERR.
abbrev pub desc_f_next : ℕ
desc_f_next = 1

abbrev pub desc_f_write : ℕ
desc_f_write = 2

abbrev pub t_in : ℕ
t_in = 0

abbrev pub t_out : ℕ
t_out = 1

abbrev pub t_flush : ℕ
t_flush = 4

abbrev pub s_ok : ℕ
s_ok = 0

abbrev pub s_ioerr : ℕ
s_ioerr = 1

pub record VirtioBlk (F : Type 0) : Type 0 where
  pub disk : Option F
  pub capacity : ℕ
  pub device_features_sel : ℕ
  pub driver_features : List ℕ
  pub driver_features_sel : ℕ
  pub device_status : ℕ
  pub queue_num : ℕ
  pub queue_ready : ℕ
  pub desc_addr : ℕ
  pub avail_addr : ℕ
  pub used_addr : ℕ
  pub irq_status : ℕ
  pub last_avail_idx : ℕ

-- The second argument is the length that the file's metadata give, if they can be had.
unfoldable pub new : {F : Type 0} → Option F → Option ℕ → VirtioBlk F
new disk len = record {
  disk = disk;
  capacity = elim disk [ none ↦ 0 | some f ↦ elim len [ none ↦ 0 | some n ↦ n / sector_size ] ];
  device_features_sel = 0;
  driver_features = 0 ∷ 0 ∷ [];
  driver_features_sel = 0;
  device_status = 0;
  queue_num = queue_size;
  queue_ready = 0;
  desc_addr = 0;
  avail_addr = 0;
  used_addr = 0;
  irq_status = 0;
  last_avail_idx = 0;
}

unfoldable pub load : {F : Type 0} → VirtioBlk F → ℕ → ℕ → ℕ
load v off width =
    if off == 0x000
    then 0x7472_6976
    else if off == 0x004
    then 2
    else if off == 0x008
    then 2
    else if off == 0x00C
    then 0x554D_4551
    else if off == 0x010
    then get_or device_features (min v.device_features_sel 1) 0
    else if off == 0x034
    then queue_size
    else if off == 0x038
    then v.queue_num
    else if off == 0x044
    then v.queue_ready
    else if off == 0x060
    then v.irq_status
    else if off == 0x070
    then v.device_status
    else if off == 0x0FC
    then 0
    else if off == 0x100
    then u32 v.capacity
    else if off == 0x104
    then v.capacity >>> 32
    else 0

unfoldable pub reset : {F : Type 0} → VirtioBlk F → VirtioBlk F
reset v = record v {
  queue_ready = 0;
  desc_addr = 0;
  avail_addr = 0;
  used_addr = 0;
  irq_status = 0;
  last_avail_idx = 0;
}

-- The low and the high half of a 64-bit address register.
abbrev pub set_low : ℕ → ℕ → ℕ
set_low old val = bit_or (bit_and old 0xFFFF_FFFF_0000_0000) (bit_and val 0xFFFF_FFFF)

abbrev pub set_high : ℕ → ℕ → ℕ
set_high old val = bit_or (bit_and old 0x0000_0000_FFFF_FFFF) (val <<< 32)

-- The `match` of `store`, but for the notification.
unfoldable pub store_register : {F : Type 0} → VirtioBlk F → ℕ → ℕ → VirtioBlk F
store_register v off val =
    if off == 0x014
    then record v { device_features_sel = u32 val }
    else if off == 0x020
    then (if ltb v.driver_features_sel 2
        then record v { driver_features = set v.driver_features v.driver_features_sel (u32 val) }
        else v)
    else if off == 0x024
    then record v { driver_features_sel = u32 val }
    else if off == 0x038
    then record v { queue_num = min (u32 val) queue_size }
    else if off == 0x044
    then record v { queue_ready = u32 val }
    else if off == 0x064
    then record v { irq_status = bit_and v.irq_status (not32 (u32 val)) }
    else if off == 0x070
    then (let v' = record v { device_status = u32 val } in if val == 0 then reset v' else v')
    else if off == 0x080
    then record v { desc_addr = set_low v.desc_addr val }
    else if off == 0x084
    then record v { desc_addr = set_high v.desc_addr val }
    else if off == 0x090
    then record v { avail_addr = set_low v.avail_addr val }
    else if off == 0x094
    then record v { avail_addr = set_high v.avail_addr val }
    else if off == 0x0a0
    then record v { used_addr = set_low v.used_addr val }
    else if off == 0x0a4
    then record v { used_addr = set_high v.used_addr val }
    else v

-- True says that the caller must run `process_queue`.
unfoldable pub store : {F : Type 0} → VirtioBlk F → ℕ → ℕ → ℕ → VirtioBlk F × Bool
store v off width val = if off == 0x050 then (v, true) else (store_register v off val, false)
