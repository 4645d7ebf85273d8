-- ===== src/Plic/Regs.antt =====
-- The shape of the registers of `Plic`: no index of the source is out of range, and every register
-- holds a value of its width.
use native.Mathlib.Decide.{ℕ_discrete}
use risc_v_business.Base.{
  ℕ, zero, suc, ◌-◌, ◌/◌, ◌%◌, ◌^◌, ◌<◌, ◌≡◌, Bool, [], arith, length, get_or, set, length-set,
  get_or-set_self, get_or-set_ne, bit_and-lt, bit_or-lt, not64, ◌<<<◌, u32, wrapping_sub,
}
use risc_v_business.Plic.{
  Plic, base, new, best_irq, claim, complete, set_pending, load, store, load_context, store_context,
  store_enable,
}

-- The lengths of the arrays, and the width of the pending word.
pub record IsShaped (p : Plic) : Type 0 where
  pub priorities : length p.priority ≡ 128
  pub contexts : length p.enable ≡ 2
  pub words_m : length (get_or p.enable 0 []) ≡ 4
  pub words_s : length (get_or p.enable 1 []) ≡ 4
  pub thresholds : length p.threshold ≡ 2
  pub pending_word : p.pending < 2 ^ 64

pub new-IsShaped : IsShaped new
unfolding new
new-IsShaped = omega arith

-- Raising or dropping an interrupt keeps the shape.
pub set_pending-IsShaped :
    (p : Plic) (irq : ℕ) (active : Bool) → IsShaped p → IsShaped (set_pending p irq active)
unfolding set_pending
set_pending-IsShaped p irq active h =
    ground (arith, bit_or-lt 64 p.pending (1 <<< irq), bit_and-lt 64 p.pending (not64 (1 <<< irq)))

pub claim-IsShaped : (p : Plic) (ctx : ℕ) → IsShaped p → IsShaped (claim p ctx).0
unfolding claim
claim-IsShaped p ctx h = ground (arith, bit_and-lt 64 p.pending (not64 (1 <<< best_irq p ctx)))

-- No read keeps less than the shape, the claim included.
pub load-IsShaped : (p : Plic) (addr width : ℕ) → IsShaped p → IsShaped (load p addr width).0
unfolding load load_context
load-IsShaped p addr width h =
    let off = wrapping_sub addr base in
    let ctx = (off - 0x20_0000) / 0x1000 in
    let claimed = claim-IsShaped p ctx h in ground (arith, claimed)

complete-IsShaped : (p : Plic) (irq : ℕ) → IsShaped p → IsShaped (complete p irq)
unfolding complete
complete-IsShaped p irq h = ground (arith, bit_and-lt 64 p.pending (not64 (1 <<< irq)))

store_context-IsShaped :
    (p : Plic) (ctx local val : ℕ) → IsShaped p → IsShaped (store_context p ctx local val)
unfolding store_context
store_context-IsShaped p ctx local val h =
    ground (arith, complete-IsShaped p (u32 val) h, length-set p.threshold ctx (u32 val))

old_row : (p : Plic) (c : ℕ) → IsShaped p → c < 2 → length (get_or p.enable c []) ≡ 4
old_row p zero h hc = h.words_m
old_row p (suc zero) h hc = h.words_s
old_row p (suc (suc c)) h hc = absurd (omega arith)

row_length :
    (p : Plic) (ctx c word v : ℕ)
    → IsShaped p
    → c < 2
    → length (get_or (set p.enable ctx (set (get_or p.enable ctx []) word v)) c []) ≡ 4
row_length p ctx c word v h hc =
    let row = set (get_or p.enable ctx []) word v in
    elim (ℕ_discrete ctx c) [
      | yes e ↦
          rw (← e, get_or-set_self p.enable ctx row [] (omega arith), length-set)
            (old_row p ctx h (omega arith))
      | no ne ↦ rw (get_or-set_ne p.enable ctx c row [] ne) (old_row p c h hc)
    ]

store_enable-IsShaped :
    (p : Plic) (ctx word val : ℕ) → IsShaped p → IsShaped (store_enable p ctx word val)
unfolding store_enable
store_enable-IsShaped p ctx word val h = ground (
  arith,
  length-set p.enable ctx (set (get_or p.enable ctx []) word (u32 val)),
  row_length p ctx 0 word (u32 val) h,
  row_length p ctx 1 word (u32 val) h,
)

pub store-IsShaped :
    (p : Plic) (addr width val : ℕ) → IsShaped p → IsShaped (store p addr width val)
unfolding store
store-IsShaped p addr width val h =
    let off = wrapping_sub addr base in
    let enabled =
      store_enable-IsShaped p ((off - 0x2000) / 0x80) ((off - 0x2000) % 0x80 / 4) val h in
    let context =
      store_context-IsShaped p ((off - 0x20_0000) / 0x1000) ((off - 0x20_0000) % 0x1000) val h in
    ground (arith, enabled, context, length-set p.priority (off / 4) (u32 val))

-- A new controller has 128 priorities, four enable words and a threshold for each of two contexts,
-- and pending bits below 64; raising or dropping an interrupt, and any read and write of a register,
-- keep that.
pub shape_kept :
    (p : Plic) (addr width val irq : ℕ) (active : Bool)
    → IsShaped p
    → IsShaped new
      × (IsShaped (set_pending p irq active)
          × (IsShaped (load p addr width).0 × IsShaped (store p addr width val)))
shape_kept p addr width val irq active h = (
  new-IsShaped,
  (
    set_pending-IsShaped p irq active h,
    (load-IsShaped p addr width h, store-IsShaped p addr width val h),
  ),
)
