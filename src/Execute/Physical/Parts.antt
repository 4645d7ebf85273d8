-- ===== src/Execute/Physical/Parts.antt =====
-- Words of memory a byte at a time, as the loads and stores across pages of src/cpu/execute.rs put
-- them together and take them apart.
use native.Mathlib.Nat.{mul-le-mul, pow-le-pow_right, pow-succ'}
use risc_v_business.Base.{
  ℕ, suc, ◌+◌, ◌-◌, ◌*◌, ◌/◌, ◌%◌, ◌^◌, ◌≤◌, ◌<◌, ◌≡◌, inl, inr, ap, ◌∙◌, Bool-cases, leb, ltb,
  ◌==◌, ◌&&◌, if◌then◌else◌, arith, bit_and, bit_or, bit_and-ones, bit_or-join, ◌>>>◌, ◌<<<◌,
}
use risc_v_business.Bus.ByteMemory.{Bytes, with_word}

-- Bytes are below 256.
abbrev pub AreBytes : Bytes → Type 0
AreBytes mem = (a : ℕ) → mem a < 256

-- A byte more.
pub byte_pow : (k : ℕ) → 2 ^ (suc k * 8) ≡ 256 * 2 ^ (k * 8)
byte_pow k =
    let e : suc k * 8 ≡ suc (suc (suc (suc (suc (suc (suc (suc (k * 8)))))))) = omega arith in
    omega (
      arith,
      ap (λ t. 2 ^ t) e,
      pow-succ' 2 (k * 8 + 7),
      pow-succ' 2 (k * 8 + 6),
      pow-succ' 2 (k * 8 + 5),
      pow-succ' 2 (k * 8 + 4),
      pow-succ' 2 (k * 8 + 3),
      pow-succ' 2 (k * 8 + 2),
      pow-succ' 2 (k * 8 + 1),
      pow-succ' 2 (k * 8),
    )

-- `byte << (8 * k)` within 64 bits.
shift_byte : (byte k : ℕ) → byte < 256 → k < 8 → byte <<< (k * 8) ≡ byte * 2 ^ (k * 8)
shift_byte byte k hb hk =
    let p : 2 ^ (k * 8) ≤ 2 ^ 56 =
      pow-le-pow_right {n = 2} (omega arith) {i = k * 8} {j = 56} (omega (arith, hk)) in
    let h : byte * 2 ^ (k * 8) ≤ 255 * 2 ^ 56 =
      mul-le-mul {n₂ = 255} {m₂ = 2 ^ 56} (omega (arith, hb)) p in
    omega (arith, h)

-- A byte put above `k` bytes.
pub join_byte :
    (v byte k : ℕ)
    → byte < 256
    → k < 8
    → v < 2 ^ (k * 8)
    → bit_or v (bit_and byte 0xff <<< (k * 8)) ≡ v + byte * 2 ^ (k * 8)
join_byte v byte k hb hk hv =
    ap (λ t. bit_or v (t <<< (k * 8))) {x = bit_and byte 0xff} {y = byte}
      (omega (arith, bit_and-ones 8 byte, hb))
    ∙ (ap (bit_or v) (shift_byte byte k hb hk) ∙ bit_or-join (k * 8) v byte hv)

-- The memory with `left` bytes of `val` at `pa + i`, from the byte `first + i` of it.
abbrev pub with_part : Bytes → ℕ → ℕ → ℕ → ℕ → ℕ → Bytes
with_part mem pa first i left val a =
    if leb (pa + i) a && ltb a (pa + i + left)
    then val / 2 ^ ((first + (a - pa)) * 8) % 256
    else mem a

-- A byte, then the rest of its part.
pub part_step :
    (mem : Bytes) (pa first i left val a : ℕ)
    → with_part
        (with_word mem (pa + i) 1 (bit_and (val >>> ((first + i) * 8)) 0xff))
        pa
        first
        (suc i)
        left
        val
        a
      ≡ with_part mem pa first i (suc left) val a
unfolding with_word
part_step mem pa first i left val a =
    let byte = bit_and (val >>> ((first + i) * 8)) 0xff in
    elim (Bool-cases (a == pa + i)) [
      | inl t ↦
          let e : a ≡ pa + i = ground (arith, t) in
          ground (
            arith,
            t,
            bit_and-ones 8 (val >>> ((first + i) * 8)),
            ap (λ k. byte / 256 ^ k) {x = a - (pa + i)} {y = 0} (omega (arith, e)),
            ap (λ k. val / 2 ^ ((first + k) * 8)) {x = a - pa} {y = i} (omega (arith, e)),
          )
      | inr t ↦ ground (arith, t)
    ]
