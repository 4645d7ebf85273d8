-- ===== src/Base/Bits/Table.antt =====
-- The bits of a given mask or of a shifted field, read off a table of all 64 positions.
use Prim.Native.Nat.{ℕ, zero, suc, ◌^◌, ◌<◌, ◌-◌, min, max, bit_and, bit_or}
use mathlib.Core.Path.{◌≡◌, ap}
use mathlib.Core.Bool.{Bool, true, ◌&&◌}
use native.Mathlib.Omega.{arith}
use risc_v_business.Base.Tests.{◌==◌, ==_iff, if◌then◌else◌}
use risc_v_business.Base.Word.{◌<<<◌, not64}
use risc_v_business.Base.Bits.Numeric.{bit, bit-pow_self, bit-pow_ne, bit-of_zero, bit-complement}
use risc_v_business.Base.Bits.Laws.{bit-bit_and, bit-bit_or}
use risc_v_business.Base.Bits.Single.{one-shl}

-- `p` holds of every number below `n`.
abbrev pub every : ℕ → (ℕ → Bool) → Bool
every zero p = true
every (suc n) p = p n && every n p

pub every_sound : (n : ℕ) (p : ℕ → Bool) (k : ℕ) → every n p ≡ true → k < n → p k ≡ true
every_sound zero p k h lt = absurd (omega arith)
every_sound (suc n) p k h lt = ground (arith, every_sound n p k)

-- The bits of `mask` are `f`, by looking at all of them.
abbrev pub Tabulates : ℕ → (ℕ → ℕ) → Type 0
Tabulates mask f = every 64 (λ k. bit k mask == f k) ≡ true

pub bit_table : (mask : ℕ) (f : ℕ → ℕ) (k : ℕ) → Tabulates mask f → k < 64 → bit k mask ≡ f k
bit_table mask f k t h = (==_iff _ _).0 (every_sound 64 (λ i. bit i mask == f i) k t h)

-- A field of one bit.
pub bit-field_one : (k j x : ℕ) → j < 64 → x < 2 → bit k (x <<< j) ≡ (if k == j then x else 0)
bit-field_one k j zero h hx =
    ground (arith, bit-of_zero k, ap (bit k) {x = 0 <<< j} {y = 0} (omega arith))
bit-field_one k j (suc zero) h hx = ground (arith, one-shl j h, bit-pow_self j, bit-pow_ne k j)
bit-field_one k j (suc (suc x)) h hx = absurd (omega arith)

-- The bits of `(x & !mask) | a | b`, from those of the parts.
pub bit-replace :
    (k x mask a b : ℕ)
    → k < 64
    → mask < 2 ^ 64
    → bit k (bit_or (bit_or (bit_and x (not64 mask)) a) b)
      ≡ max (max (min (bit k x) (1 - bit k mask)) (bit k a)) (bit k b)
bit-replace k x mask a b h hm = omega (
  arith,
  bit-bit_or k (bit_or (bit_and x (not64 mask)) a) b,
  bit-bit_or k (bit_and x (not64 mask)) a,
  bit-bit_and k x (not64 mask),
  bit-complement 64 k mask hm h,
)
