-- ===== src/Execute/Boxing.antt =====
-- Singles in the float registers of 64 bits, src/cpu/execute.rs.
use risc_v_business.Base.{
  ℕ, ◌^◌, ◌<◌, ◌≡◌, arith, bit_or, bit_ext, bit-bit_or, bit_or-lt, bit_or-join,
}
use risc_v_business.Execute.Float.{boxed, unboxed}

bit_or_comm : (a b : ℕ) → a < 2 ^ 64 → b < 2 ^ 64 → bit_or a b ≡ bit_or b a
bit_or_comm a b ha hb =
    bit_ext 64 (bit_or a b) (bit_or b a) (bit_or-lt 64 a b ha hb) (bit_or-lt 64 b a hb ha)
      λ k h. omega (arith, bit-bit_or k a b, bit-bit_or k b a)

-- A single that is written to a float register reads back as it was.
pub unboxed-boxed : (v : ℕ) → v < 2 ^ 32 → unboxed (boxed v) ≡ v
unfolding unboxed boxed
unboxed-boxed v h =
    let e = bit_or_comm 0xFFFF_FFFF_0000_0000 v (omega arith) (omega (arith, h)) in
    let j = bit_or-join 32 v 0xFFFF_FFFF h in ground (arith, h, e, j)
