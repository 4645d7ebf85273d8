-- ===== src/Clint/Timer.antt =====
-- How far the timer of `Clint` runs, and when it is due.
use risc_v_business.Base.{ℕ, zero, suc, ◌+◌, ◌*◌, ◌%◌, ◌^◌, ◌≤◌, ◌<◌, ◌≡◌, refl, ◌↔◌, true, arith}
use risc_v_business.Clint.{Clint, tick}

-- The clint after `n` calls of `tick`.
abbrev pub ticks : ℕ → Clint → Clint
ticks zero c = c
ticks (suc n) c = ticks n (tick c).0

-- After `n` ticks from a 64-bit time, the time has advanced by `128 * n`, wrapping at 2 ^ 64, and the compare
-- register is as it was; a further tick reports the timer due exactly when the new time, again
-- wrapped, has reached the compare register.
pub ticks_due :
    (n : ℕ) (c : Clint)
    → c.mtime < 2 ^ 64
    → ((ticks n c).mtime ≡ (c.mtime + 128 * n) % 2 ^ 64)
      × ((ticks n c).mtimecmp ≡ c.mtimecmp)
      × (((tick (ticks n c)).1 ≡ true) ↔ (c.mtimecmp ≤ (c.mtime + 128 * suc n) % 2 ^ 64))
unfolding tick
ticks_due zero c h = (omega arith, refl, ground arith)
ticks_due (suc n) c h = let rest = ticks_due n (tick c).0 (omega arith) in ground (arith, rest)
