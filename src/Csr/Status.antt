-- ===== src/Csr/Status.antt =====
-- The bits of `mstatus` through trap entry and return.
use risc_v_business.Base.{
  ℕ, zero, suc, ◌/◌, ◌%◌, ◌^◌, ◌<◌, ◌≡◌, refl, ap, Bool, ◌||◌, ◌==◌, if◌then◌else◌, arith, bit,
  bit_and, bit_or, bit_and-one, bit_and_three, bit-lt, bit_table, bit-field_one, bit-replace, not64,
  ◌>>>◌, ◌<<<◌, inl, inr, Bool-cases,
}
use risc_v_business.Csr.{Csr, mie_bit, trap_entry, mret, s_trap_entry, s_ret, as_word}

-- The two bits of a privilege mode in MPP.
mpp_field :
    (k p : ℕ)
    → k < 64
    → p < 4
    → bit k (p <<< 11) ≡ (if k == 11 then p % 2 else if k == 12 then p / 2 else 0)
mpp_field k zero h hp =
    bit_table (0 <<< 11) (λ j. if j == 11 then 0 else if j == 12 then 0 else 0) k refl h
mpp_field k (suc zero) h hp =
    bit_table (1 <<< 11) (λ j. if j == 11 then 1 else if j == 12 then 0 else 0) k refl h
mpp_field k (suc (suc zero)) h hp =
    bit_table (2 <<< 11) (λ j. if j == 11 then 0 else if j == 12 then 1 else 0) k refl h
mpp_field k (suc (suc (suc zero))) h hp =
    bit_table (3 <<< 11) (λ j. if j == 11 then 1 else if j == 12 then 1 else 0) k refl h
mpp_field k (suc (suc (suc (suc p)))) h hp = absurd (omega arith)

abbrev machine_bits : ℕ → ℕ
machine_bits j = if j == 3 || (j == 7 || (j == 11 || j == 12)) then 1 else 0

machine_mask : (k : ℕ) → k < 64 → bit k 0x1888 ≡ machine_bits k
machine_mask k h = bit_table 0x1888 machine_bits k refl h

-- Trap entry to M-mode, bit by bit: MIE is cleared, MPIE takes the old MIE, MPP takes the mode that
-- was left, and every other bit is as it was.
pub trap_entry_bits :
    (c : Csr) (prev_mode k : ℕ)
    → prev_mode < 4
    → k < 64
    → bit k (trap_entry c prev_mode).mstatus ≡ (
        if k == 3
        then 0
        else if k == 7
        then bit 3 c.mstatus
        else if k == 11
        then prev_mode % 2
        else if k == 12
        then prev_mode / 2
        else bit k c.mstatus)
unfolding trap_entry mie_bit
trap_entry_bits c prev_mode k hp h = ground (
  arith,
  bit-replace k c.mstatus 0x1888 (bit_and (c.mstatus >>> 3) 1 <<< 7) (prev_mode <<< 11) h,
  bit_and-one (c.mstatus >>> 3),
  bit-field_one k 7 (bit 3 c.mstatus),
  mpp_field k prev_mode h hp,
  machine_mask k h,
  bit-lt k c.mstatus,
)

returning_bits : ℕ → ℕ
returning_bits j = if j == 17 then 1 else machine_bits j

returning_mask : (k : ℕ) → k < 64 → bit k 0x0002_1888 ≡ returning_bits k
unfolding returning_bits
returning_mask k h = bit_table 0x0002_1888 returning_bits k refl h

-- `mret` once its mask is chosen.
abbrev returned : ℕ → ℕ → ℕ
returned x mask = bit_or (bit_or (bit_and x (not64 mask)) (bit_and (x >>> 7) 1 <<< 3)) (1 <<< 7)

returned_machine :
    (x k : ℕ)
    → k < 64
    → bit k (returned x 0x1888) ≡ (
        if k == 3 then bit 7 x else if k == 7 then 1 else if k == 11 || k == 12 then 0 else bit k x)
returned_machine x k h = ground (
  arith,
  bit-replace k x 0x1888 (bit_and (x >>> 7) 1 <<< 3) (1 <<< 7) h,
  bit_and-one (x >>> 7),
  bit-field_one k 3 (bit 7 x),
  bit-field_one k 7 1,
  machine_mask k h,
  bit-lt k x,
)

returned_lower :
    (x k : ℕ)
    → k < 64
    → bit k (returned x 0x0002_1888) ≡ (
        if k == 3
        then bit 7 x
        else if k == 7
        then 1
        else if k == 11 || k == 12
        then 0
        else if k == 17
        then 0
        else bit k x)
unfolding returning_bits
returned_lower x k h = ground (
  arith,
  bit-replace k x 0x0002_1888 (bit_and (x >>> 7) 1 <<< 3) (1 <<< 7) h,
  bit_and-one (x >>> 7),
  bit-field_one k 3 (bit 7 x),
  bit-field_one k 7 1,
  returning_mask k h,
  bit-lt k x,
)

mret_status :
    (c : Csr)
    → (mret c).mstatus
      ≡ returned c.mstatus (if c.mstatus / 2 ^ 11 % 4 == 3 then 0x1888 else 0x0002_1888)
unfolding mret
mret_status c =
    ap (λ t. returned c.mstatus (if t == 3 then 0x1888 else 0x0002_1888))
      (bit_and_three (c.mstatus >>> 11))

-- Return from an M-mode trap, bit by bit: MIE takes MPIE, MPIE is set, MPP is cleared, MPRV is
-- cleared unless MPP was M-mode, and every other bit is as it was.
pub mret_bits :
    (c : Csr) (k : ℕ)
    → k < 64
    → bit k (mret c).mstatus ≡ (
        if k == 3
        then bit 7 c.mstatus
        else if k == 7
        then 1
        else if k == 11 || k == 12
        then 0
        else if k == 17
        then (if c.mstatus / 2 ^ 11 % 4 == 3 then bit 17 c.mstatus else 0)
        else bit k c.mstatus)
mret_bits c k h = elim (Bool-cases (c.mstatus / 2 ^ 11 % 4 == 3)) [
  | inl m ↦ rw (mret_status c, m, returned_machine c.mstatus k h) (ground arith)
  | inr m ↦ rw (mret_status c, m, returned_lower c.mstatus k h) refl
]

abbrev supervisor_bits : ℕ → ℕ
supervisor_bits j = if j == 1 || (j == 5 || j == 8) then 1 else 0

supervisor_mask : (k : ℕ) → k < 64 → bit k 0x122 ≡ supervisor_bits k
supervisor_mask k h = bit_table 0x122 supervisor_bits k refl h

-- Trap entry to S-mode, bit by bit: SIE is cleared, SPIE takes the old SIE, SPP says whether the
-- trap came from S-mode, and every other bit is as it was.
pub s_trap_entry_bits :
    (c : Csr) (from_smode : Bool) (k : ℕ)
    → k < 64
    → bit k (s_trap_entry c from_smode).mstatus ≡ (
        if k == 1
        then 0
        else if k == 5
        then bit 1 c.mstatus
        else if k == 8
        then as_word from_smode
        else bit k c.mstatus)
unfolding s_trap_entry
s_trap_entry_bits c from_smode k h = ground (
  arith,
  bit-replace k c.mstatus 0x122 (bit_and (c.mstatus >>> 1) 1 <<< 5) (as_word from_smode <<< 8) h,
  bit_and-one (c.mstatus >>> 1),
  bit-field_one k 5 (bit 1 c.mstatus),
  bit-field_one k 8 (as_word from_smode),
  supervisor_mask k h,
  bit-lt k c.mstatus,
)

-- Return from an S-mode trap, bit by bit: SIE takes SPIE, SPIE is set, SPP is cleared, and every
-- other bit is as it was.
pub s_ret_bits :
    (c : Csr) (k : ℕ)
    → k < 64
    → bit k (s_ret c).mstatus ≡ (
        if k == 1
        then bit 5 c.mstatus
        else if k == 5
        then 1
        else if k == 8
        then 0
        else bit k c.mstatus)
unfolding s_ret
s_ret_bits c k h = ground (
  arith,
  bit-replace k c.mstatus 0x122 (bit_and (c.mstatus >>> 5) 1 <<< 1) (1 <<< 5) h,
  bit_and-one (c.mstatus >>> 5),
  bit-field_one k 1 (bit 5 c.mstatus),
  bit-field_one k 5 1,
  supervisor_mask k h,
  bit-lt k c.mstatus,
)

-- A handler that returns at once to the mode that trapped leaves the interrupt enable as it found
-- it: after entry and return, M-mode's enable bit is the old one, and so is every bit but MPIE, MPP
-- and, where the mode that trapped was not M-mode, MPRV.
pub mret-trap_entry :
    (c : Csr) (prev_mode k : ℕ)
    → prev_mode < 4
    → k < 64
    → bit k (mret (trap_entry c prev_mode)).mstatus ≡ (
        if k == 7
        then 1
        else if k == 11 || k == 12
        then 0
        else if k == 17
        then (if prev_mode == 3 then bit 17 c.mstatus else 0)
        else bit k c.mstatus)
mret-trap_entry c prev_mode k hp h = ground (
  arith,
  mret_bits (trap_entry c prev_mode) k h,
  trap_entry_bits c prev_mode k hp h,
  trap_entry_bits c prev_mode 7 hp (omega arith),
  trap_entry_bits c prev_mode 11 hp (omega arith),
  trap_entry_bits c prev_mode 12 hp (omega arith),
)

-- The same for S-mode: every bit but SPIE and SPP is as before entry.
pub s_ret-s_trap_entry :
    (c : Csr) (from_smode : Bool) (k : ℕ)
    → k < 64
    → bit k (s_ret (s_trap_entry c from_smode)).mstatus
      ≡ (if k == 5 then 1 else if k == 8 then 0 else bit k c.mstatus)
s_ret-s_trap_entry c from_smode k h = ground (
  arith,
  s_ret_bits (s_trap_entry c from_smode) k h,
  s_trap_entry_bits c from_smode k h,
  s_trap_entry_bits c from_smode 5 (omega arith),
)
