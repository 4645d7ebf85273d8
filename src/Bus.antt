-- ===== src/Bus.antt =====
-- The address map of src/bus.rs: the devices and the RAM behind `load` and `store`. The RAM is a
-- list of bytes. `rounds` bounds the loop that a notification of the block device starts.
pub mod Access
pub mod ByteMemory
mod Tests
use risc_v_business.Base.{
  ℕ, zero, suc, ◌+◌, ◌-◌, ◌*◌, ◌%◌, ◌^◌, Bool, true, false, ◌&&◌, ◌||◌, ltb, leb, ◌==◌,
  if◌then◌else◌, Option, none, List, length, replicate, wrapping_add, wrapping_sub, Run, Exit, ok,
  err, panic, hang, ◌>>=◌, ◌>>◌, return, throw,
}
use risc_v_business.Ram.{read_le, write_le}
use risc_v_business.Clint
use risc_v_business.Clint.{Clint}
use risc_v_business.Plic
use risc_v_business.Plic.{Plic}
use risc_v_business.Uart
use risc_v_business.Uart.{Uart}
use risc_v_business.VirtioBlk
use risc_v_business.VirtioBlk.{VirtioBlk, Disk}
use risc_v_business.VirtioBlk.Queue.{Device, process_queue}

pub record Bus (F : Type 0) : Type 0 where
  pub ram : List ℕ
  pub ram_base : ℕ
  pub clint : Clint
  pub uart : Uart
  pub plic : Plic
  pub virtio_blk : VirtioBlk F

-- The message of `anyhow!("bus fault: ...")`.
pub data BusFault : Type 0 where
  bus_fault : ℕ → ℕ → BusFault

unfoldable pub new : {F : Type 0} → ℕ → ℕ → Bus F
new size ram_base = record {
  ram = replicate size 0;
  ram_base = ram_base;
  clint = Clint.new;
  uart = Uart.new;
  plic = Plic.new;
  virtio_blk = VirtioBlk.new none none;
}

-- The windows of the devices.
abbrev pub in_clint : ℕ → Bool
in_clint addr = leb 0x0200_0000 addr && leb addr 0x0200_FFFF

abbrev pub in_plic : ℕ → Bool
in_plic addr = leb 0x0C00_0000 addr && leb addr 0x0FFF_FFFF

abbrev pub in_uart : ℕ → Bool
in_uart addr = leb 0x1000_0000 addr && leb addr 0x1000_00FF

abbrev pub in_virtio : ℕ → Bool
in_virtio addr = leb 0x1000_1000 addr && leb addr 0x1000_11FF

-- 1, 2, 4 and 8 are the widths that the `match`es know.
abbrev pub is_width : ℕ → Bool
is_width width = width == 1 || (width == 2 || (width == 4 || width == 8))

module _ {F : Type 0} where
  -- The end of the RAM is computed in a `u64`, which wraps.
  unfoldable pub offset : Bus F → ℕ → ℕ → Exit BusFault ℕ
  offset b addr width =
      let end = addr + width in
      let ram_end = wrapping_add b.ram_base (length b.ram) in
      if leb (2 ^ 64) end
      then err (bus_fault addr width)
      else if ltb addr b.ram_base || ltb ram_end end
      then err (bus_fault addr width)
      else ok (addr - b.ram_base)

  -- The last case of `load`.
  unfoldable pub load_ram : ℕ → ℕ → Run (Bus F) BusFault ℕ
  load_ram addr width b = elim (offset b addr width) [
    | ok off ↦
        if is_width width
        then (if leb (off + width) (length b.ram)
            then (b, ok (read_le b.ram off width))
            else (b, panic))
        else (b, panic)
    | err e ↦ (b, err e)
    | panic ↦ (b, panic)
    | hang ↦ (b, hang)
  ]

  unfoldable pub load : ℕ → ℕ → Run (Bus F) BusFault ℕ
  load addr width b =
      if in_clint addr
      then (b, ok (Clint.load b.clint addr width))
      else if in_plic addr
      then (let (p, v) = Plic.load b.plic addr width in (record b { plic = p }, ok v))
      else if in_uart addr
      then (let (u, v) = Uart.load b.uart addr width in (record b { uart = u }, ok v))
      else if in_virtio addr
      then (b, ok (VirtioBlk.load b.virtio_blk (addr - 0x1000_1000) width))
      else load_ram addr width b

  -- The last case of `store`; the value is cut to the width.
  unfoldable pub store_ram : ℕ → ℕ → ℕ → Run (Bus F) BusFault (Unit {0})
  store_ram addr width value b = elim (offset b addr width) [
    | ok off ↦
        if is_width width
        then (if leb (off + width) (length b.ram)
            then (record b { ram = write_le b.ram off width value }, ok tt)
            else (b, panic))
        else (b, panic)
    | err e ↦ (b, err e)
    | panic ↦ (b, panic)
    | hang ↦ (b, hang)
  ]

  -- How `process_queue` ends, seen from the bus: it returns no `Err`.
  abbrev pub after_queue : Bus F → Device F → Exit ⊥ (Unit {0}) → Bus F × Exit BusFault (Unit {0})
  after_queue b d (ok x) = (record b { virtio_blk = d.blk; ram = d.ram }, ok x)
  after_queue b d (err e) = absurd e
  after_queue b d panic = (record b { virtio_blk = d.blk; ram = d.ram }, panic)
  after_queue b d hang = (record b { virtio_blk = d.blk; ram = d.ram }, hang)

  module _ (D : Disk F) (rounds : ℕ) where
    unfoldable pub store_virtio : ℕ → ℕ → ℕ → Run (Bus F) BusFault (Unit {0})
    store_virtio off width value b =
        let (blk, notify) = VirtioBlk.store b.virtio_blk off width value in
        let (d, r) = process_queue b.ram_base D rounds (record { blk = blk; ram = b.ram }) in
        if notify then after_queue b d r else (record b { virtio_blk = blk }, ok tt)

    unfoldable pub store : ℕ → ℕ → ℕ → Run (Bus F) BusFault (Unit {0})
    store addr width value b =
        if in_clint addr
        then (record b { clint = Clint.store b.clint addr width value }, ok tt)
        else if in_plic addr
        then (record b { plic = Plic.store b.plic addr width value }, ok tt)
        else if in_uart addr
        then (record b { uart = Uart.store b.uart addr width value }, ok tt)
        else if in_virtio addr
        then store_virtio (addr - 0x1000_1000) width value b
        else store_ram addr width value b
