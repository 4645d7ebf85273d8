-- ===== src/Jit.antt =====
-- The compiler of src/jit.rs: here the callouts for loads and stores, which compiled code calls, and
-- the immediates of the compressed jumps and branches; in the children the assembly, what is written
-- for each instruction, and the cache of blocks.
pub mod Asm
pub mod Emit
pub mod Arms
pub mod Compressed
pub mod Compile
pub mod Equivalence
pub mod Shapes
pub mod Arithmetic
pub mod WordArithmetic
pub mod Division
pub mod WordDivision
pub mod MoreArithmetic
pub mod Straight
pub mod Jumps
pub mod Accesses
pub mod Relocation
pub mod LoadsStores
pub mod Blocks
pub mod Returns
pub mod Chain
pub mod Bounds
pub mod Cache
pub mod Callouts
pub mod Offsets
mod Tests
use risc_v_business.Base.{
  ℕ, ◌+◌, ◌-◌, ◌*◌, ◌/◌, ◌%◌, ◌^◌, bit_and, bit_or, max_u64, ◌>>>◌, ◌<<<◌, asr64, Exit, ok, err,
  panic, hang, ◌>>=◌, return,
}
use risc_v_business.VirtioBlk.{Disk}
use risc_v_business.Mmu.{MmuFault, load, store}
use risc_v_business.Cpu.{Cpu}
use risc_v_business.Execute.{trap, translate, bus_load, bus_store}

unfoldable pub sign_ext : ℕ → ℕ → ℕ
sign_ext val bits = asr64 (val <<< (64 - bits)) (64 - bits)

unfoldable pub rvc_j_imm : ℕ → ℕ
rvc_j_imm r =
    let high =
      bit_or
        (bit_or (bit_or (bit_and (r >>> 12) 1 <<< 11) (bit_and (r >>> 11) 1 <<< 4))
          (bit_and (r >>> 9) 3 <<< 8))
        (bit_and (r >>> 8) 1 <<< 10) in
    let imm =
      bit_or
        (bit_or (bit_or (bit_or high (bit_and (r >>> 7) 1 <<< 6)) (bit_and (r >>> 6) 1 <<< 7))
          (bit_and (r >>> 3) 7 <<< 1))
        (bit_and (r >>> 2) 1 <<< 5) in
    sign_ext imm 12

unfoldable pub rvc_b_imm : ℕ → ℕ
rvc_b_imm r =
    let imm =
      bit_or
        (bit_or
          (bit_or (bit_or (bit_and (r >>> 12) 1 <<< 8) (bit_and (r >>> 10) 3 <<< 3))
            (bit_and (r >>> 5) 3 <<< 6))
          (bit_and (r >>> 3) 3 <<< 1))
        (bit_and (r >>> 2) 1 <<< 5) in
    sign_ext imm 9

-- How a callout returns: the value, or `u64::MAX` for any fault.
abbrev pub sentinel : {E : Type 0} → Exit E ℕ → Exit ⊥ ℕ
sentinel (ok v) = ok v
sentinel (err e) = ok max_u64
sentinel panic = panic
sentinel hang = hang

module _ {F : Type 0} (D : Disk F) (rounds : ℕ) where
  -- `jit_load8`, `jit_load16`, `jit_load32` and `jit_load64`, for the widths 1, 2, 4 and 8.
  unfoldable pub jit_load : ℕ → ℕ → Cpu F → Cpu F × Exit ⊥ ℕ
  jit_load width addr c =
      let (c', r) =
        (translate D rounds load c.mode addr >>= λ pa. bus_load pa width (trap 5 addr)) c in
      (c', sentinel r)

  -- `jit_store8`, `jit_store16`, `jit_store32` and `jit_store64`, which return 0 or `u64::MAX`.
  unfoldable pub jit_store : ℕ → ℕ → ℕ → Cpu F → Cpu F × Exit ⊥ ℕ
  jit_store width addr val c =
      let (c', r) =
        (translate D rounds store c.mode addr >>= λ pa.
        bus_store D rounds pa width val (trap 7 addr) >>= λ _. return 0)
          c in
      (c', sentinel r)
