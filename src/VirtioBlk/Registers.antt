-- ===== src/VirtioBlk/Registers.antt =====
-- The registers of `VirtioBlk`.
use native.Mathlib.Omega.{arith}
use risc_v_business.Base.{
  ℕ, ◌+◌, ◌-◌, ◌*◌, ◌^◌, ◌<◌, ◌≤◌, ◌≡◌, refl, sym, ap, ◌∙◌, if◌then◌else◌, Option, bit, bit-lt,
  bit-mul_pow, bit-join, bit-bit_and, bit-bit_or, bit_table, bit_ext, length, length-set, bit_and,
  bit_or-lt, bit_and-lt_right, u32, ◌<<<◌, ltb,
}
use risc_v_business.VirtioBlk.{VirtioBlk, set_low, set_high, store_register, store, reset, new}

-- What the registers keep: the queue holds at most 256 entries and the two feature words exist.
pub record IsSized {F : Type 0} (v : VirtioBlk F) : Type 0 where
  pub queue : v.queue_num ≤ 256
  pub features : length v.driver_features ≡ 2

new-IsSized : {F : Type 0} (disk : Option F) (len : Option ℕ) → IsSized (new disk len)
unfolding new
new-IsSized disk len = record { queue = omega arith; features = omega arith }

store_register-IsSized :
    {F : Type 0} (v : VirtioBlk F) (off val : ℕ) → IsSized v → IsSized (store_register v off val)
unfolding store_register reset
store_register-IsSized v off val h =
    ground (arith, h, length-set v.driver_features v.driver_features_sel (u32 val))

-- The device starts with a queue of at most 256 entries and two feature words, and every write of a
-- register, of any offset and value, keeps it so.
pub store-IsSized :
    {F : Type 0} (disk : Option F) (len : Option ℕ) (v : VirtioBlk F) (off width val : ℕ)
    → IsSized v
    → IsSized (new disk len) × IsSized (store v off width val).0
unfolding store
store-IsSized disk len v off width val h =
    (new-IsSized disk len, ground (arith, h, store_register-IsSized v off val h))

low_mask : (k : ℕ) → k < 64 → bit k 0xFFFF_FFFF ≡ (if ltb k 32 then 1 else 0)
low_mask k h = bit_table 0xFFFF_FFFF (λ j. if ltb j 32 then 1 else 0) k refl h

high_mask : (k : ℕ) → k < 64 → bit k 0xFFFF_FFFF_0000_0000 ≡ (if ltb k 32 then 0 else 1)
high_mask k h = bit_table 0xFFFF_FFFF_0000_0000 (λ j. if ltb j 32 then 0 else 1) k refl h

low_bits :
    (old val k : ℕ) → k < 64 → bit k (set_low old val) ≡ (if ltb k 32 then bit k val else bit k old)
low_bits old val k h = ground (
  arith,
  bit-bit_or k (bit_and old 0xFFFF_FFFF_0000_0000) (bit_and val 0xFFFF_FFFF),
  bit-bit_and k old 0xFFFF_FFFF_0000_0000,
  bit-bit_and k val 0xFFFF_FFFF,
  low_mask k h,
  high_mask k h,
  bit-lt k old,
  bit-lt k val,
)

-- The value shifted into the high half, bit by bit.
shifted :
    (val k : ℕ) → val < 2 ^ 32 → bit k (val <<< 32) ≡ (if ltb k 32 then 0 else bit (k - 32) val)
shifted val k h =
    ap (bit k) {x = val <<< 32} {y = val * 2 ^ 32} (omega (arith, h)) ∙ bit-mul_pow 32 k val

high_bits :
    (old val k : ℕ)
    → val < 2 ^ 32
    → k < 64
    → bit k (set_high old val) ≡ (if ltb k 32 then bit k old else bit (k - 32) val)
high_bits old val k hv h = ground (
  arith,
  bit-bit_or k (bit_and old 0xFFFF_FFFF) (val <<< 32),
  bit-bit_and k old 0xFFFF_FFFF,
  shifted val k hv,
  low_mask k h,
  bit-lt k old,
  bit-lt (k - 32) val,
)

-- A driver that writes the low and then the high half of a 64-bit register, as 32-bit values, leaves
-- the two halves side by side, whatever the register held.
pub address_halves :
    (old low high : ℕ)
    → low < 2 ^ 32
    → high < 2 ^ 32
    → set_high (set_low old low) high ≡ high * 2 ^ 32 + low
address_halves old low high hl hh =
    bit_ext 64 (set_high (set_low old low) high) (high * 2 ^ 32 + low)
      (bit_or-lt 64 (bit_and (set_low old low) 0xFFFF_FFFF) (high <<< 32)
        (omega (arith, bit_and-lt_right 32 (set_low old low) 0xFFFF_FFFF (omega arith)))
        (omega (arith, hh)))
      (omega (arith, hl, hh))
      (λ k h.
        high_bits (set_low old low) high k hh h
        ∙ (ground (arith, low_bits old low k h) ∙ sym (bit-join 32 k low high hl)))
