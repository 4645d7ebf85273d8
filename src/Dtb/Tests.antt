-- ===== src/Dtb/Tests.antt =====
-- Tests of `Dtb`.
use risc_v_business.Base.{◌+◌, ◌≡◌, true, ◌&&◌, leb, ltb}
use risc_v_business.Bus.{in_clint, in_plic, in_uart, in_virtio}
use risc_v_business.Loader.{ram_base, ram_size}
use risc_v_business.Dtb.Recorder.{tree, covers}
use risc_v_business.Dtb.Windows.{windows_agree}

-- The last address of the UART, with an initramfs and a disk.
windows_agree_example :
    let calls = tree 0x1000 true in
    (covers calls "clint@2000000" 0x1000_00FF ≡ in_clint 0x1000_00FF)
    × ((covers calls "plic@c000000" 0x1000_00FF ≡ in_plic 0x1000_00FF)
        × ((covers calls "serial@10000000" 0x1000_00FF ≡ in_uart 0x1000_00FF)
            × ((covers calls "memory@80000000" 0x1000_00FF
                  ≡ (leb ram_base 0x1000_00FF && ltb 0x1000_00FF (ram_base + ram_size)))
                × ((covers calls "virtio_mmio@10001000" 0x1000_00FF
                      ≡ (true && (leb 0x1000_1000 0x1000_00FF && ltb 0x1000_00FF 0x1000_2000)))
                    × (in_virtio 0x1000_00FF
                        ≡ (leb 0x1000_1000 0x1000_00FF && ltb 0x1000_00FF 0x1000_1200))))))
windows_agree_example = windows_agree 0x1000 true 0x1000_00FF
