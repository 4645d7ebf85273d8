-- ===== src/Dtb/Windows.antt =====
-- The device tree of src/dtb.rs against the bus of src/bus.rs and the loop of src/main.rs.
use risc_v_business.Base.{
  ℕ, zero, suc, ◌+◌, ◌≡◌, refl, ap, ◌∙◌, arith, Bool, true, false, ◌&&◌, ltb, leb, if◌then◌else◌,
  [], ◌∷◌, some, none, ok,
}
use risc_v_business.Bus.{in_clint, in_plic, in_uart, in_virtio}
use risc_v_business.Loader.{ram_base, ram_size}
use risc_v_business.Dtb.{
  build_dtb, root, chosen, bootargs, initrd, cpus, interrupt_controller, memory, soc, clint, plic,
  virtio, serial,
}
use risc_v_business.Dtb.Recorder.{recorder, tree, cells, cells_of, covers, in_window}

clint_cells :
    (initrd_size : ℕ) (has_disk : Bool)
    → cells (tree initrd_size has_disk) "clint@2000000" "reg"
      ≡ some (0 ∷ 0x0200_0000 ∷ 0 ∷ 0x0001_0000 ∷ [])
unfolding root chosen bootargs initrd cpus interrupt_controller memory soc clint plic virtio serial
    cells_of
clint_cells zero true = refl
clint_cells (suc n) true = refl
clint_cells zero false = refl
clint_cells (suc n) false = refl

plic_cells :
    (initrd_size : ℕ) (has_disk : Bool)
    → cells (tree initrd_size has_disk) "plic@c000000" "reg"
      ≡ some (0 ∷ 0x0C00_0000 ∷ 0 ∷ 0x0400_0000 ∷ [])
unfolding root chosen bootargs initrd cpus interrupt_controller memory soc clint plic virtio serial
    cells_of
plic_cells zero true = refl
plic_cells (suc n) true = refl
plic_cells zero false = refl
plic_cells (suc n) false = refl

serial_cells :
    (initrd_size : ℕ) (has_disk : Bool)
    → cells (tree initrd_size has_disk) "serial@10000000" "reg"
      ≡ some (0 ∷ 0x1000_0000 ∷ 0 ∷ 0x0000_0100 ∷ [])
unfolding root chosen bootargs initrd cpus interrupt_controller memory soc clint plic virtio serial
    cells_of
serial_cells zero true = refl
serial_cells (suc n) true = refl
serial_cells zero false = refl
serial_cells (suc n) false = refl

memory_cells :
    (initrd_size : ℕ) (has_disk : Bool)
    → cells (tree initrd_size has_disk) "memory@80000000" "reg"
      ≡ some (0 ∷ 0x8000_0000 ∷ 0 ∷ 0x1000_0000 ∷ [])
unfolding root chosen bootargs initrd cpus interrupt_controller memory soc clint plic virtio serial
    cells_of
memory_cells zero true = refl
memory_cells (suc n) true = refl
memory_cells zero false = refl
memory_cells (suc n) false = refl

virtio_cells :
    (initrd_size : ℕ) (has_disk : Bool)
    → cells (tree initrd_size has_disk) "virtio_mmio@10001000" "reg"
      ≡ (if has_disk then some (0 ∷ 0x1000_1000 ∷ 0 ∷ 0x0000_1000 ∷ []) else none)
unfolding root chosen bootargs initrd cpus interrupt_controller memory soc clint plic virtio serial
    cells_of
virtio_cells zero true = refl
virtio_cells (suc n) true = refl
virtio_cells zero false = refl
virtio_cells (suc n) false = refl

disk_window :
    (has_disk : Bool) (addr : ℕ)
    → in_window (if has_disk then some (0 ∷ 0x1000_1000 ∷ 0 ∷ 0x0000_1000 ∷ []) else none) addr
      ≡ (has_disk && (leb 0x1000_1000 addr && ltb addr 0x1000_2000))
unfolding in_window
disk_window true addr = ground arith
disk_window false addr = refl

-- The windows of the timer, the interrupt controller and the UART in the device tree are those of the
-- bus, and that of the memory is the RAM that the loader makes. The node of the block device is there
-- when there is a disk, and its window is 0x10001000 to 0x10001FFF, while that of the bus is its first
-- 0x200 addresses whether or not there is a disk.
pub windows_agree :
    (initrd_size : ℕ) (has_disk : Bool) (addr : ℕ)
    → let calls = tree initrd_size has_disk in
      (covers calls "clint@2000000" addr ≡ in_clint addr)
      × ((covers calls "plic@c000000" addr ≡ in_plic addr)
          × ((covers calls "serial@10000000" addr ≡ in_uart addr)
              × ((covers calls "memory@80000000" addr
                    ≡ (leb ram_base addr && ltb addr (ram_base + ram_size)))
                  × ((covers calls "virtio_mmio@10001000" addr
                        ≡ (has_disk && (leb 0x1000_1000 addr && ltb addr 0x1000_2000)))
                      × (in_virtio addr ≡ (leb 0x1000_1000 addr && ltb addr 0x1000_1200))))))
unfolding in_window
windows_agree size disk addr = (
  ap (λ w. in_window w addr) (clint_cells size disk) ∙ ground arith,
  (
    ap (λ w. in_window w addr) (plic_cells size disk) ∙ ground arith,
    (
      ap (λ w. in_window w addr) (serial_cells size disk) ∙ ground arith,
      (
        ap (λ w. in_window w addr) (memory_cells size disk) ∙ ground arith,
        (ap (λ w. in_window w addr) (virtio_cells size disk) ∙ disk_window disk addr, ground arith),
      ),
    ),
  ),
)

-- `build_dtb` closes every node that it begins, the innermost first.
build_dtb-nested :
    (initrd_size : ℕ) (has_disk : Bool) → build_dtb recorder initrd_size has_disk ≡ ok []
unfolding build_dtb root chosen bootargs initrd cpus interrupt_controller memory soc clint plic
    virtio serial
build_dtb-nested zero true = refl
build_dtb-nested (suc n) true = refl
build_dtb-nested zero false = refl
build_dtb-nested (suc n) false = refl
