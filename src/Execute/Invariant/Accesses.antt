-- ===== src/Execute/Invariant/Accesses.antt =====
-- The arms of `execute`, src/cpu/execute.rs, for loads, stores and atomics, through the invariant of
-- the hart.
use risc_v_business.Base.{ℕ, none, some}
use risc_v_business.VirtioBlk.{Disk}
use risc_v_business.Cpu.{set_reg}
use risc_v_business.Cpu.Invariant.{set_reg-WellFormed}
use risc_v_business.Execute.Float.{mark, set_freg}
use risc_v_business.Execute.Memory.{
  is_reserved, load_integer, load_float, store_integer, store_float, load_reserved, conditional,
  store_conditional, amo,
}
use risc_v_business.Execute.Keeps.{
  Keeps, bind-Keeps, if-Keeps, attempt-Keeps, bus_load-Keeps, bus_load_or_zero-Keeps,
  translate-Keeps, bus_store_ok-Keeps, mmu_load-Keeps, mmu_store-Keeps,
}
use risc_v_business.Execute.Invariant.Control.{set_freg-WellFormed, mark-WellFormed, modify-Keeps}

module _ {F : Type 0} where
  module _ (D : Disk F) (rounds : ℕ) where
    pub load_integer-Keeps :
        (width : ℕ) (extend : ℕ → ℕ) (rd rs1 imm : ℕ)
        → Keeps (load_integer D rounds width extend rd rs1 imm)
    unfolding load_integer
    load_integer-Keeps width extend rd rs1 imm = record {
      kept = λ c h.
          (attempt-Keeps _ (
              bind-Keeps (mmu_load-Keeps D rounds _ _ _) λ v.
                modify-Keeps (λ d. set_reg d rd (extend v))
                  λ d hd. set_reg-WellFormed d rd (extend v) hd)).kept
            c h;
    }

    pub load_float-Keeps :
        (width : ℕ) (box : ℕ → ℕ) (fd rs1 imm : ℕ)
        → Keeps (load_float D rounds width box fd rs1 imm)
    unfolding load_float
    load_float-Keeps width box fd rs1 imm = record {
      kept = λ c h.
          (attempt-Keeps _ (
              bind-Keeps (mmu_load-Keeps D rounds _ _ _) λ v.
                modify-Keeps (λ d. mark (set_freg d fd (box v)))
                  λ d hd.
                    mark-WellFormed (set_freg d fd (box v))
                      (set_freg-WellFormed d fd (box v) hd))).kept
            c h;
    }

    pub store_integer-Keeps :
        (width rs1 rs2 imm : ℕ) → Keeps (store_integer D rounds width rs1 rs2 imm)
    unfolding store_integer
    store_integer-Keeps width rs1 rs2 imm = record {
      kept = λ c h. (attempt-Keeps _ (mmu_store-Keeps D rounds _ _ _ _)).kept c h;
    }

    pub store_float-Keeps : (width rs1 fs2 imm : ℕ) → Keeps (store_float D rounds width rs1 fs2 imm)
    unfolding store_float
    store_float-Keeps width rs1 fs2 imm = record {
      kept = λ c h. (attempt-Keeps _ (mmu_store-Keeps D rounds _ _ _ _)).kept c h;
    }

    pub load_reserved-Keeps :
        (width : ℕ) (extend : ℕ → ℕ) (rd rs1 : ℕ)
        → Keeps (load_reserved D rounds width extend rd rs1)
    unfolding load_reserved
    load_reserved-Keeps width extend rd rs1 = record {
      kept = λ c h.
          (attempt-Keeps _ (
              bind-Keeps (translate-Keeps D rounds _ _ _) λ pa.
                bind-Keeps (bus_load-Keeps _ _ _) λ v.
                  modify-Keeps (λ d. record (set_reg d rd (extend v)) { reservation = some pa })
                    λ d hd. set_reg-WellFormed d rd (extend v) hd)).kept
            c h;
    }

    conditional-Keeps : (width rd val pa : ℕ) → Keeps (conditional D rounds width rd val pa)
    unfolding conditional
    conditional-Keeps width rd val pa = record {
      kept = λ c h.
          (if-Keeps (is_reserved c.reservation pa)
              (bind-Keeps (bus_store_ok-Keeps D rounds _ _ _)
                λ x. modify-Keeps (λ d. set_reg d rd 0) λ d hd. set_reg-WellFormed d rd 0 hd)
              (modify-Keeps (λ d. set_reg d rd 1) λ d hd. set_reg-WellFormed d rd 1 hd)).kept
            c h;
    }

    pub store_conditional-Keeps :
        (width rd rs1 rs2 : ℕ) → Keeps (store_conditional D rounds width rd rs1 rs2)
    unfolding store_conditional
    store_conditional-Keeps width rd rs1 rs2 = record {
      kept = λ c h.
          (attempt-Keeps _ (
              bind-Keeps (translate-Keeps D rounds _ _ _) λ pa.
                bind-Keeps (conditional-Keeps _ _ _ _)
                  λ x. modify-Keeps (λ d. record d { reservation = none }) λ d hd. hd)).kept
            c h;
    }

    pub amo-Keeps :
        (width : ℕ) (extend : ℕ → ℕ) (combine : ℕ → ℕ → ℕ) (rd rs1 rs2 : ℕ)
        → Keeps (amo D rounds width extend combine rd rs1 rs2)
    unfolding amo
    amo-Keeps width extend combine rd rs1 rs2 = record {
      kept = λ c h.
          (attempt-Keeps _ (
              bind-Keeps (translate-Keeps D rounds _ _ _) λ pa.
                bind-Keeps (bus_load_or_zero-Keeps _ _) λ v.
                  bind-Keeps (bus_store_ok-Keeps D rounds _ _ _) λ x.
                    modify-Keeps (λ d. set_reg d rd (extend v))
                      λ d hd. set_reg-WellFormed d rd (extend v) hd)).kept
            c h;
    }
