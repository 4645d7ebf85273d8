-- ===== src/Clint.antt =====
-- The core-local interruptor, src/clint.rs: a 64-bit timer and its compare register. `width` is
-- ignored, as the source does.
pub mod Timer
use risc_v_business.Base.{ℕ, ◌+◌, ◌^◌, Bool, leb, ◌==◌, if◌then◌else◌, wrapping_add, max_u64}

pub record Clint : Type 0 where
  pub mtime : ℕ
  pub mtimecmp : ℕ

abbrev pub mtime_inc : ℕ
mtime_inc = 128

unfoldable pub new : Clint
new = record { mtime = 0; mtimecmp = max_u64 }

pub tick : Clint → Clint × Bool
tick c =
    let c' = record c { mtime = wrapping_add c.mtime mtime_inc } in (c', leb c'.mtimecmp c'.mtime)

unfoldable pub load : Clint → ℕ → ℕ → ℕ
load c addr width =
    if addr == 0x0200_BFF8 then c.mtime else if addr == 0x0200_4000 then c.mtimecmp else 0

unfoldable pub store : Clint → ℕ → ℕ → ℕ → Clint
store c addr width val = if addr == 0x0200_4000 then record c { mtimecmp = val } else c
