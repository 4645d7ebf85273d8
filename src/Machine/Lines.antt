-- ===== src/Machine/Lines.antt =====
-- The interrupt lines that a turn of the devices in src/main.rs puts into `mip`.
use risc_v_business.Base.{
  ℕ, ◌<◌, ◌≡◌, Bool, true, false, not, leb, ◌==◌, if◌then◌else◌, ◌&&◌, arith, bit, bit-set,
  bit-clear, max_u64,
}
use risc_v_business.Plic
use risc_v_business.Clint.{Clint}
use risc_v_business.Csr.{Csr}
use risc_v_business.Bus.{Bus}
use risc_v_business.Machine.{drive, drive_stip, clock_due, lines_of}

abbrev pub as_bit : Bool → ℕ
as_bit true = 1
as_bit false = 0

bit-drive :
    (k line : ℕ) (active : Bool) (mip : ℕ)
    → k < 64
    → line < 64
    → bit k (drive line active mip) ≡ (if k == line then as_bit active else bit k mip)
unfolding drive
bit-drive k line true mip h hl = ground (arith, bit-set k line mip hl)
bit-drive k line false mip h hl = bit-clear k line mip h hl

bit-drive_stip :
    (k : ℕ) (clock : Clint) (r : Csr) (mip : ℕ)
    → k < 64
    → bit k (drive_stip clock r mip) ≡ (
        if k == 5 && not (r.stimecmp == max_u64)
        then as_bit (leb r.stimecmp clock.mtime)
        else bit k mip)
bit-drive_stip k clock r mip h =
    ground (arith, bit-drive k 5 (leb r.stimecmp clock.mtime) mip h (omega arith))

module _ {F : Type 0} where
  -- After the devices' turn, bit 7 of `mip` tells whether the machine timer is due, bit 9 whether the
  -- PLIC has an interrupt, and bit 5 whether the supervisor's timer is due, unless `stimecmp` is
  -- `u64::MAX`; every other bit is as it was.
  pub bit-lines_of :
      (b : Bus F) (r : Csr) (k : ℕ)
      → k < 64
      → bit k (lines_of b r) ≡ (
          if k == 9
          then as_bit (Plic.has_interrupt b.plic)
          else if k == 5 && not (r.stimecmp == max_u64)
          then as_bit (leb r.stimecmp b.clint.mtime)
          else if k == 7
          then as_bit (clock_due b.clint)
          else bit k r.mip)
  unfolding lines_of
  bit-lines_of b r k h =
      let seven = drive 7 (clock_due b.clint) r.mip in
      ground (
        arith,
        bit-drive k 9 (Plic.has_interrupt b.plic) (drive_stip b.clint r seven) h (omega arith),
        bit-drive_stip k b.clint r seven h,
        bit-drive k 7 (clock_due b.clint) r.mip h (omega arith),
      )
