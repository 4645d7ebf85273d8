-- ===== src/Dtb.antt =====
-- The device tree of src/dtb.rs: the calls of `build_dtb` on the writer of vm-fdt, which is a
-- parameter. A call that fails ends `build_dtb` with its error.
pub mod Recorder
pub mod Windows
mod Tests
use Prim.Native.String.{String}
use risc_v_business.Base.{
  ℕ, zero, suc, ◌+◌, Bool, if◌then◌else◌, List, [], ◌∷◌, Run, Exit, ok, err, panic, hang, ◌>>=◌,
  ◌>>◌, return,
}

-- `FdtWriter`: its state `W`, its errors `E` and the handles `H` of open nodes.
pub record FdtWriter (W E H : Type 0) : Type 0 where
  pub new : Exit E W
  pub begin_node : String → Run W E H
  pub end_node : H → Run W E (Unit {0})
  pub property_u32 : String → ℕ → Run W E (Unit {0})
  pub property_u64 : String → ℕ → Run W E (Unit {0})
  pub property_string : String → String → Run W E (Unit {0})
  pub property_array_u32 : String → List ℕ → Run W E (Unit {0})
  pub property_null : String → Run W E (Unit {0})
  pub property_phandle : ℕ → Run W E (Unit {0})
  pub finish : W → Exit E (List ℕ)

abbrev pub initrd_base : ℕ
initrd_base = 0x8600_0000

module _ {W E H : Type 0} (fdt : FdtWriter W E H) where
  unfoldable pub bootargs : Bool → Run W E (Unit {0})
  bootargs has_disk = fdt.property_string "bootargs" (
      if has_disk
      then "console=ttyS0 earlycon=uart8250,mmio,0x10000000 TERM=dumb root=/dev/vda rw rootwait rootflags=noatime,data=writeback ima=off nokaslr lsm=lockdown,capability,landlock,yama,apparmor,tomoyo,ipe,ima,evm"
      else "console=ttyS0 earlycon=uart8250,mmio,0x10000000 TERM=dumb rdinit=/init ima=off nokaslr")

  -- With an initramfs, which has at least one byte.
  unfoldable pub initrd : ℕ → Run W E (Unit {0})
  initrd zero = return tt
  initrd (suc n) = do
    fdt.property_u64 "linux,initrd-start" initrd_base
    fdt.property_u64 "linux,initrd-end" (initrd_base + suc n)

  unfoldable pub chosen : (initrd_size : ℕ) (has_disk : Bool) → Run W E (Unit {0})
  chosen initrd_size has_disk = do
    node ← fdt.begin_node "chosen"
    fdt.property_string "stdout-path" "/soc/serial@10000000"
    bootargs has_disk
    initrd initrd_size
    fdt.end_node node

  unfoldable pub interrupt_controller : Run W E (Unit {0})
  interrupt_controller = do
    intc ← fdt.begin_node "interrupt-controller"
    fdt.property_phandle 1
    fdt.property_u32 "#interrupt-cells" 1
    fdt.property_string "compatible" "riscv,cpu-intc"
    fdt.property_null "interrupt-controller"
    fdt.end_node intc

  unfoldable pub cpus : Run W E (Unit {0})
  cpus = do
    node ← fdt.begin_node "cpus"
    fdt.property_u32 "#address-cells" 1
    fdt.property_u32 "#size-cells" 0
    fdt.property_u32 "timebase-frequency" 10_000_000
    cpu0 ← fdt.begin_node "cpu@0"
    fdt.property_string "device_type" "cpu"
    fdt.property_u32 "reg" 0
    fdt.property_string "status" "okay"
    fdt.property_string "compatible" "riscv"
    fdt.property_string "riscv,isa" "rv64imafdcsu"
    fdt.property_string "mmu-type" "riscv,sv39"
    interrupt_controller
    fdt.end_node cpu0
    fdt.end_node node

  unfoldable pub memory : Run W E (Unit {0})
  memory = do
    node ← fdt.begin_node "memory@80000000"
    fdt.property_string "device_type" "memory"
    fdt.property_array_u32 "reg" (0x0000_0000 ∷ 0x8000_0000 ∷ 0x0000_0000 ∷ 0x1000_0000 ∷ [])
    fdt.end_node node

  unfoldable pub clint : Run W E (Unit {0})
  clint = do
    node ← fdt.begin_node "clint@2000000"
    fdt.property_string "compatible" "riscv,clint0"
    fdt.property_array_u32 "interrupts-extended" (1 ∷ 3 ∷ 1 ∷ 7 ∷ [])
    fdt.property_array_u32 "reg" (0x0000_0000 ∷ 0x0200_0000 ∷ 0x0000_0000 ∷ 0x0001_0000 ∷ [])
    fdt.end_node node

  unfoldable pub plic : Run W E (Unit {0})
  plic = do
    node ← fdt.begin_node "plic@c000000"
    fdt.property_string "compatible" "sifive,plic-1.0.0"
    fdt.property_phandle 2
    fdt.property_u32 "#interrupt-cells" 1
    fdt.property_null "interrupt-controller"
    fdt.property_array_u32 "interrupts-extended" (1 ∷ 11 ∷ 1 ∷ 9 ∷ [])
    fdt.property_array_u32 "reg" (0x0000_0000 ∷ 0x0C00_0000 ∷ 0x0000_0000 ∷ 0x0400_0000 ∷ [])
    fdt.property_u32 "riscv,ndev" 31
    fdt.end_node node

  unfoldable pub virtio : Run W E (Unit {0})
  virtio = do
    node ← fdt.begin_node "virtio_mmio@10001000"
    fdt.property_string "compatible" "virtio,mmio"
    fdt.property_array_u32 "reg" (0x0000_0000 ∷ 0x1000_1000 ∷ 0x0000_0000 ∷ 0x0000_1000 ∷ [])
    fdt.property_u32 "interrupts" 1
    fdt.property_u32 "interrupt-parent" 2
    fdt.end_node node

  unfoldable pub serial : Run W E (Unit {0})
  serial = do
    node ← fdt.begin_node "serial@10000000"
    fdt.property_string "compatible" "ns16550a"
    fdt.property_array_u32 "reg" (0x0000_0000 ∷ 0x1000_0000 ∷ 0x0000_0000 ∷ 0x0000_0100 ∷ [])
    fdt.property_u32 "clock-frequency" 3_686_400
    fdt.property_u32 "interrupts" 10
    fdt.property_u32 "interrupt-parent" 2
    fdt.end_node node

  unfoldable pub soc : (has_disk : Bool) → Run W E (Unit {0})
  soc has_disk = do
    node ← fdt.begin_node "soc"
    fdt.property_u32 "#address-cells" 2
    fdt.property_u32 "#size-cells" 2
    fdt.property_string "compatible" "simple-bus"
    fdt.property_null "ranges"
    clint
    plic
    if has_disk then virtio else return tt
    serial
    fdt.end_node node

  unfoldable pub root : (initrd_size : ℕ) (has_disk : Bool) → Run W E (Unit {0})
  root initrd_size has_disk = do
    node ← fdt.begin_node ""
    fdt.property_u32 "#address-cells" 2
    fdt.property_u32 "#size-cells" 2
    fdt.property_string "compatible" "riscv-virtio"
    fdt.property_string "model" "riscv-virtio,qemu"
    chosen initrd_size has_disk
    cpus
    memory
    soc has_disk
    fdt.end_node node

  abbrev finished : W × Exit E (Unit {0}) → Exit E (List ℕ)
  finished (w, ok x) = fdt.finish w
  finished (w, err e) = err e
  finished (w, panic) = panic
  finished (w, hang) = hang

  abbrev written : (initrd_size : ℕ) (has_disk : Bool) → Exit E W → Exit E (List ℕ)
  written initrd_size has_disk (ok w) = finished (root initrd_size has_disk w)
  written initrd_size has_disk (err e) = err e
  written initrd_size has_disk panic = panic
  written initrd_size has_disk hang = hang

  unfoldable pub build_dtb : (initrd_size : ℕ) (has_disk : Bool) → Exit E (List ℕ)
  build_dtb initrd_size has_disk = written initrd_size has_disk fdt.new
