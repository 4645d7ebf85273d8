-- ===== src/Execute/Memory.antt =====
-- The instructions that reach memory, src/cpu/execute.rs: loads, stores and the atomics.
use risc_v_business.Base.{
  ℕ, Bool, false, Option, none, some, ◌==◌, if◌then◌else◌, bit_and, bit_or, bit_xor, ltb, u32, min,
  max, wrapping_add, ◌>>=◌, ◌>>◌,
}
use risc_v_business.VirtioBlk.{Disk}
use risc_v_business.Mmu.{load, store}
use risc_v_business.Cpu.{Cpu, reg, set_reg}
use risc_v_business.Execute.{
  Arm, Attempt, trap, modify, attempt, ls_mode, bus_load, bus_load_or_zero, translate, bus_store_ok,
  mmu_load, mmu_store,
}
use risc_v_business.Execute.Alu.{sext, signed_lt, signed_lt_w}
use risc_v_business.Execute.Float.{freg, set_freg, mark}

-- The operation of an AMO, of the old value and the operand.
pub data AmoOp : Type 0 where
  amo_swap amo_add amo_xor amo_and amo_or amo_min amo_max amo_minu amo_maxu : AmoOp

-- What an AMO of 64 bits stores.
unfoldable pub amo_d : AmoOp → ℕ → ℕ → ℕ
amo_d amo_swap old x = x
amo_d amo_add old x = wrapping_add old x
amo_d amo_xor old x = bit_xor old x
amo_d amo_and old x = bit_and old x
amo_d amo_or old x = bit_or old x
amo_d amo_min old x = if signed_lt old x then old else x
amo_d amo_max old x = if signed_lt x old then old else x
amo_d amo_minu old x = min old x
amo_d amo_maxu old x = max old x

-- What one of 32 bits stores, before the cut; `old` is sign-extended.
unfoldable pub amo_w : AmoOp → ℕ → ℕ → ℕ
amo_w amo_swap old x = x
amo_w amo_add old x = wrapping_add old x
amo_w amo_xor old x = bit_xor old x
amo_w amo_and old x = bit_and old x
amo_w amo_or old x = bit_or old x
amo_w amo_min old x = if signed_lt_w old x then old else sext x 31
amo_w amo_max old x = if signed_lt_w x old then old else sext x 31
amo_w amo_minu old x = if ltb (u32 old) (u32 x) then old else u32 x
amo_w amo_maxu old x = if ltb (u32 x) (u32 old) then old else u32 x

-- `self.reservation == Some(pa)`.
abbrev pub is_reserved : Option ℕ → ℕ → Bool
is_reserved none pa = false
is_reserved (some r) pa = r == pa

module _ {F : Type 0} where
  -- The address of a load or a store.
  abbrev pub effective : Cpu F → ℕ → ℕ → ℕ
  effective c rs1 imm = wrapping_add (reg c rs1) imm

  module _ (D : Disk F) (rounds : ℕ) where
    unfoldable pub load_integer : ℕ → (ℕ → ℕ) → (rd rs1 imm : ℕ) → Arm F
    load_integer width extend rd rs1 imm c =
        attempt
          (mmu_load D rounds (ls_mode c) (effective c rs1 imm) width >>= λ v.
            modify λ d. set_reg d rd (extend v))
          c

    unfoldable pub load_float : ℕ → (ℕ → ℕ) → (fd rs1 imm : ℕ) → Arm F
    load_float width box fd rs1 imm c =
        attempt
          (mmu_load D rounds (ls_mode c) (effective c rs1 imm) width >>= λ v.
            modify λ d. mark (set_freg d fd (box v)))
          c

    unfoldable pub store_integer : ℕ → (rs1 rs2 imm : ℕ) → Arm F
    store_integer width rs1 rs2 imm c =
        attempt (mmu_store D rounds (ls_mode c) (effective c rs1 imm) width (reg c rs2)) c

    unfoldable pub store_float : ℕ → (rs1 fs2 imm : ℕ) → Arm F
    store_float width rs1 fs2 imm c =
        attempt (mmu_store D rounds (ls_mode c) (effective c rs1 imm) width (freg c fs2)) c

    unfoldable pub load_reserved : ℕ → (ℕ → ℕ) → (rd rs1 : ℕ) → Arm F
    load_reserved width extend rd rs1 c =
        attempt
          (translate D rounds load (ls_mode c) (reg c rs1) >>= λ pa.
            bus_load pa width (trap 5 (reg c rs1)) >>= λ v.
            modify λ d. record (set_reg d rd (extend v)) { reservation = some pa })
          c

    -- The store of an SC, where the reservation is for its address.
    unfoldable pub conditional : ℕ → ℕ → ℕ → ℕ → Attempt F (Unit {0})
    conditional width rd val pa d =
        (if is_reserved d.reservation pa
            then bus_store_ok D rounds pa width val >> modify (λ e. set_reg e rd 0)
            else modify (λ e. set_reg e rd 1))
          d

    unfoldable pub store_conditional : ℕ → (rd rs1 rs2 : ℕ) → Arm F
    store_conditional width rd rs1 rs2 c =
        attempt
          (translate D rounds store (ls_mode c) (reg c rs1) >>= λ pa.
            conditional width rd (reg c rs2) pa >> modify λ d. record d { reservation = none })
          c

    unfoldable pub amo : ℕ → (ℕ → ℕ) → (ℕ → ℕ → ℕ) → (rd rs1 rs2 : ℕ) → Arm F
    amo width extend combine rd rs1 rs2 c =
        attempt
          (translate D rounds store (ls_mode c) (reg c rs1) >>= λ pa.
            bus_load_or_zero pa width >>= λ v.
            bus_store_ok D rounds pa width (combine (extend v) (reg c rs2))
            >> modify λ d. set_reg d rd (extend v))
          c
