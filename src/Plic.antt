-- ===== src/Plic.antt =====
-- The interrupt controller, src/plic.rs. The arrays are lists: 128 priorities, two contexts of
-- four enable words, two thresholds. `Plic.Regs` shows that no operation changes their lengths, so
-- that no index of the source is out of range. `width` is ignored, as the source does.
pub mod Regs
pub mod Select
pub mod Claim
mod Tests
use risc_v_business.Base.{
  ℕ, zero, suc, ◌+◌, ◌-◌, ◌/◌, ◌%◌, Bool, true, false, not, ◌&&◌, ltb, leb, ◌==◌, if◌then◌else◌,
  List, get_or, set, replicate, [], bit_and, bit_or, not64, u32, ◌>>>◌, ◌<<<◌, wrapping_sub,
}

abbrev pub base : ℕ
base = 0x0C00_0000

pub record Plic : Type 0 where
  pub priority : List ℕ
  pub enable : List (List ℕ)
  pub threshold : List ℕ
  pub pending : ℕ

unfoldable pub new : Plic
new = record {
  priority = replicate 128 0;
  enable = replicate 2 (replicate 4 0);
  threshold = replicate 2 0;
  pending = 0;
}

unfoldable pub set_pending : Plic → ℕ → Bool → Plic
set_pending p irq active =
    if ltb irq 64
    then (if active
        then record p { pending = bit_or p.pending (1 <<< irq) }
        else record p { pending = bit_and p.pending (not64 (1 <<< irq)) })
    else p

-- `self.enable[ctx][word]`
abbrev pub enable_word : Plic → ℕ → ℕ → ℕ
enable_word p ctx word = get_or (get_or p.enable ctx []) word 0

-- One round of the loop of `best_irq`; the pair is `(best_irq, best_pri)`.
pub consider : Plic → ℕ → ℕ → ℕ × ℕ → ℕ × ℕ
consider p ctx irq best =
    if bit_and (p.pending >>> irq) 1 == 0
    then best
    else if bit_and (enable_word p ctx (irq / 32) >>> (irq % 32)) 1 == 0
    then best
    else if ltb best.1 (get_or p.priority irq 0)
    then (irq, get_or p.priority irq 0)
    else best

-- The rounds for the `left` interrupt numbers from `irq` on.
pub scan : Plic → ℕ → ℕ → ℕ → ℕ × ℕ → ℕ × ℕ
scan p ctx zero irq best = best
scan p ctx (suc left) irq best = scan p ctx left (suc irq) (consider p ctx irq best)

unfoldable pub best_irq : Plic → ℕ → ℕ
best_irq p ctx = (scan p ctx 63 1 (0, get_or p.threshold ctx 0)).0

unfoldable pub has_interrupt : Plic → Bool
has_interrupt p = not (best_irq p 1 == 0)

-- The claim of `load`.
unfoldable pub claim : Plic → ℕ → Plic × ℕ
claim p ctx =
    let irq = best_irq p ctx in
    (if ltb 0 irq then record p { pending = bit_and p.pending (not64 (1 <<< irq)) } else p, irq)

-- The registers of a context: the threshold and the claim.
unfoldable pub load_context : Plic → ℕ → ℕ → Plic × ℕ
load_context p ctx local =
    if leb 2 ctx
    then (p, 0)
    else if local == 0
    then (p, get_or p.threshold ctx 0)
    else if local == 4
    then claim p ctx
    else (p, 0)

unfoldable pub load_enable : Plic → ℕ → ℕ → ℕ
load_enable p ctx word = if ltb ctx 2 && ltb word 4 then enable_word p ctx word else 0

unfoldable pub load_pending : Plic → ℕ → ℕ
load_pending p word = if word == 0 then u32 p.pending else if word == 1 then p.pending >>> 32 else 0

unfoldable pub load : Plic → ℕ → ℕ → Plic × ℕ
load p addr width =
    let off = wrapping_sub addr base in
    if leb off 0x1FF
    then (p, if ltb (off / 4) 128 then get_or p.priority (off / 4) 0 else 0)
    else if leb 0x1000 off && leb off 0x107F
    then (p, load_pending p ((off - 0x1000) / 4))
    else if leb 0x2000 off && leb off 0x3FFF
    then (p, load_enable p ((off - 0x2000) / 0x80) ((off - 0x2000) % 0x80 / 4))
    else if leb 0x20_0000 off && leb off 0x20_FFFF
    then load_context p ((off - 0x20_0000) / 0x1000) ((off - 0x20_0000) % 0x1000)
    else (p, 0)

-- The completion of `store`.
unfoldable pub complete : Plic → ℕ → Plic
complete p irq =
    if ltb 0 irq && ltb irq 64
    then record p { pending = bit_and p.pending (not64 (1 <<< irq)) }
    else p

unfoldable pub store_context : Plic → ℕ → ℕ → ℕ → Plic
store_context p ctx local val =
    if leb 2 ctx
    then p
    else if local == 0
    then record p { threshold = set p.threshold ctx (u32 val) }
    else if local == 4
    then complete p (u32 val)
    else p

unfoldable pub store_enable : Plic → ℕ → ℕ → ℕ → Plic
store_enable p ctx word val =
    if ltb ctx 2 && ltb word 4
    then record p { enable = set p.enable ctx (set (get_or p.enable ctx []) word (u32 val)) }
    else p

unfoldable pub store : Plic → ℕ → ℕ → ℕ → Plic
store p addr width val =
    let off = wrapping_sub addr base in
    if leb off 0x1FF
    then (if ltb (off / 4) 128
        then record p { priority = set p.priority (off / 4) (u32 val) }
        else p)
    else if leb 0x2000 off && leb off 0x3FFF
    then store_enable p ((off - 0x2000) / 0x80) ((off - 0x2000) % 0x80 / 4) val
    else if leb 0x20_0000 off && leb off 0x20_FFFF
    then store_context p ((off - 0x20_0000) / 0x1000) ((off - 0x20_0000) % 0x1000) val
    else p
