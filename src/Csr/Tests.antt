-- ===== src/Csr/Tests.antt =====
-- Tests of `Csr`.
use native.Mathlib.Omega.{arith}
use risc_v_business.Base.{ℕ, ◌≡◌, ◌⊎◌, inl, refl, ◌&&◌, ◌==◌, if◌then◌else◌, bit, ◌<<<◌}
use risc_v_business.Csr.{Csr, new, read, write, sstatus_writable, s_interrupts}
use risc_v_business.Csr.File.{SameMachine, write_confined, IsSatpMode, write-IsSatpMode, read-write}

-- M-mode's interrupts are on.
abbrev enabled : Csr
enabled = record new { mstatus = 0x8 }

write_confined_example :
    let c' = write enabled 0x100 0xFFFF in
    SameMachine enabled c'
    × (bit 3 c'.mstatus ≡ (
        if 0x100 == 0x100 && bit 3 sstatus_writable == 1
        then bit 3 0xFFFF
        else bit 3 enabled.mstatus))
    × (bit 3 c'.mie
        ≡ (if 0x100 == 0x104 && bit 3 s_interrupts == 1 then bit 3 0xFFFF else bit 3 enabled.mie))
    × (bit 3 c'.mip
        ≡ (if 0x100 == 0x144 && bit 3 0x002 == 1 then bit 3 0xFFFF else bit 3 enabled.mip))
write_confined_example = write_confined enabled 0x100 0xFFFF 3 refl (omega arith)

-- A write of mode 10, Sv57.
write-IsSatpMode_example :
    IsSatpMode (write new 0x180 (10 <<< 60))
    × ((◌≡◌ {A = ℕ} 0x180 0x180) ⊎ ((write new 0x180 (10 <<< 60)).satp ≡ new.satp))
unfolding new
write-IsSatpMode_example = write-IsSatpMode new 0x180 (10 <<< 60) (inl refl)

read-write_example : read (write new 0x305 0x8000_0000) 0x305 ≡ 0x8000_0000
unfolding new
read-write_example = read-write new 0x305 0x8000_0000 refl (inl refl)
