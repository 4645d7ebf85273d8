-- ===== src/Csr/File.antt =====
-- The register file: what S-mode's registers can change, and what reads back.
use risc_v_business.Base.{
  ℕ, ◌-◌, ◌/◌, ◌^◌, ◌<◌, ◌≡◌, ◌⊎◌, inl, inr, refl, ap, ◌∙◌, Bool, true, false, ◌&&◌, ◌||◌, leb,
  ◌==◌, if◌then◌else◌, arith, bit, bit_and, bit_or, bit-bit_and, bit-bit_or, bit-complement, bit-lt,
  not64, ◌>>>◌, length, get_or-set_self,
}
use risc_v_business.Csr.{
  Csr, read, write, read_machine, read_supervisor, write_machine, write_supervisor, write_satp,
  is_supervisor, sstatus_writable, s_interrupts,
}

-- The masked update `(old & !mask) | (val & mask)`, bit by bit.
masked_bit :
    (k old val mask : ℕ)
    → k < 64
    → mask < 2 ^ 64
    → bit k (bit_or (bit_and old (not64 mask)) (bit_and val mask))
      ≡ (if bit k mask == 1 then bit k val else bit k old)
masked_bit k old val mask h hm = ground (
  arith,
  bit-bit_or k (bit_and old (not64 mask)) (bit_and val mask),
  bit-bit_and k old (not64 mask),
  bit-bit_and k val mask,
  bit-complement 64 k mask hm h,
  bit-lt k mask,
  bit-lt k old,
  bit-lt k val,
)

-- M-mode's own registers, other than the three that S-mode sees in part.
pub record SameMachine (c c' : Csr) : Type 0 where
  pub misa : c'.misa ≡ c.misa
  pub mtvec : c'.mtvec ≡ c.mtvec
  pub mscratch : c'.mscratch ≡ c.mscratch
  pub mepc : c'.mepc ≡ c.mepc
  pub mcause : c'.mcause ≡ c.mcause
  pub mtval : c'.mtval ≡ c.mtval
  pub medeleg : c'.medeleg ≡ c.medeleg
  pub mideleg : c'.mideleg ≡ c.mideleg
  pub pmpcfg0 : c'.pmpcfg0 ≡ c.pmpcfg0
  pub pmpcfg2 : c'.pmpcfg2 ≡ c.pmpcfg2
  pub pmpaddr : c'.pmpaddr ≡ c.pmpaddr

write_supervisor-SameMachine :
    (c : Csr) (addr val : ℕ) → SameMachine c (write_supervisor c addr val)
unfolding write_supervisor write_satp
write_supervisor-SameMachine c addr val = ground arith

-- A field that changes under one address only, through a mask.
abbrev merged : ℕ → ℕ → ℕ → ℕ
merged old val mask = bit_or (bit_and old (not64 mask)) (bit_and val mask)

write_supervisor_fields :
    (c : Csr) (addr val : ℕ)
    → let c' = write_supervisor c addr val in
      (c'.mstatus ≡ (if addr == 0x100 then merged c.mstatus val sstatus_writable else c.mstatus))
      × (c'.mie ≡ (if addr == 0x104 then merged c.mie val s_interrupts else c.mie))
      × (c'.mip ≡ (if addr == 0x144 then merged c.mip val 0x002 else c.mip))
unfolding write_supervisor write_satp
write_supervisor_fields c addr val = ground arith

merged_if :
    (k old val mask : ℕ) (b : Bool)
    → k < 64
    → mask < 2 ^ 64
    → bit k (if b then merged old val mask else old)
      ≡ (if b && bit k mask == 1 then bit k val else bit k old)
merged_if k old val mask true h hm = masked_bit k old val mask h hm
merged_if k old val mask false h hm = refl

-- A write to any of S-mode's registers leaves M-mode's own registers alone, and changes `mstatus`,
-- `mie` and `mip` only under `sstatus`, `sie` and `sip`, in the bits that these may write: 1, 5, 6,
-- 8, 13 to 16, 18 and 19 of `mstatus`; 1, 5 and 9 of `mie`; 1 of `mip`.
pub write_confined :
    (c : Csr) (addr val k : ℕ)
    → is_supervisor addr ≡ true
    → k < 64
    → let c' = write c addr val in
      SameMachine c c'
      × (bit k c'.mstatus
          ≡ (if addr == 0x100 && bit k sstatus_writable == 1 then bit k val else bit k c.mstatus))
      × (bit k c'.mie
          ≡ (if addr == 0x104 && bit k s_interrupts == 1 then bit k val else bit k c.mie))
      × (bit k c'.mip ≡ (if addr == 0x144 && bit k 0x002 == 1 then bit k val else bit k c.mip))
unfolding write
write_confined c addr val k s h =
    let f = write_supervisor_fields c addr val in
    rw s (
      write_supervisor-SameMachine c addr val,
      ap (bit k) f.0 ∙ merged_if k c.mstatus val sstatus_writable (addr == 0x100) h (omega arith),
      ap (bit k) f.1 ∙ merged_if k c.mie val s_interrupts (addr == 0x104) h (omega arith),
      ap (bit k) f.2 ∙ merged_if k c.mip val 0x002 (addr == 0x144) h (omega arith),
    )

-- The translation mode in `satp` is bare or Sv39.
abbrev pub IsSatpMode : Csr → Type 0
IsSatpMode c = (c.satp / 2 ^ 60 ≡ 0) ⊎ (c.satp / 2 ^ 60 ≡ 8)

satp-write_supervisor :
    (c : Csr) (addr val : ℕ)
    → (write_supervisor c addr val).satp
      ≡ (if addr == 0x180 && ((val >>> 60) == 0 || (val >>> 60) == 8) then val else c.satp)
unfolding write_supervisor write_satp
satp-write_supervisor c addr val = ground arith

satp-write_machine : (c : Csr) (addr val : ℕ) → (write_machine c addr val).satp ≡ c.satp
unfolding write_machine
satp-write_machine c addr val = ground arith

-- From a `satp` whose mode is bare or Sv39, no write to any register, of any value, leaves it with
-- another mode, and a write to another address leaves it as it was.
pub write-IsSatpMode :
    (c : Csr) (addr val : ℕ)
    → IsSatpMode c
    → IsSatpMode (write c addr val) × ((addr ≡ 0x180) ⊎ ((write c addr val).satp ≡ c.satp))
unfolding write
write-IsSatpMode c addr val h =
    ground (arith, satp-write_supervisor c addr val, satp-write_machine c addr val)

-- The registers that hold what is written to them, whatever it is.
abbrev pub is_plain_machine : ℕ → Bool
is_plain_machine addr =
    addr == 0x304
    || (addr == 0x305
        || (addr == 0x340
            || (addr == 0x342
                || (addr == 0x343
                    || (addr == 0x344
                        || (addr == 0x302
                            || (addr == 0x303
                                || (addr == 0x3A0
                                    || (addr == 0x3A2 || (leb 0x3B0 addr && leb addr 0x3BF))))))))))

abbrev pub is_plain_supervisor : ℕ → Bool
is_plain_supervisor addr =
    addr == 0x105 || (addr == 0x140 || (addr == 0x142 || (addr == 0x143 || addr == 0x14D)))

read-write_machine :
    (c : Csr) (addr val : ℕ)
    → length c.pmpaddr ≡ 16
    → is_plain_machine addr ≡ true
    → read_machine (write_machine c addr val) addr ≡ val
unfolding read_machine write_machine
read-write_machine c addr val h p = ground (arith, get_or-set_self c.pmpaddr (addr - 0x3B0) val 0)

read-write_supervisor :
    (c : Csr) (addr val : ℕ)
    → is_plain_supervisor addr ≡ true
    → read_supervisor (write_supervisor c addr val) addr ≡ val
unfolding read_supervisor write_supervisor
read-write_supervisor c addr val p = ground arith

plain_side :
    (addr : ℕ)
    → (is_plain_machine addr || is_plain_supervisor addr) ≡ true
    → ((is_plain_machine addr ≡ true) × (is_supervisor addr ≡ false))
      ⊎ ((is_plain_supervisor addr ≡ true) × (is_supervisor addr ≡ true))
plain_side addr p = ground arith

-- With sixteen `pmpaddr` registers, those and ten more of M-mode and five of S-mode read back what
-- was written to them, whatever it is; the two exception program counters read back with bit 0
-- cleared.
pub read-write :
    (c : Csr) (addr val : ℕ)
    → length c.pmpaddr ≡ 16
    → ((is_plain_machine addr || is_plain_supervisor addr) ≡ true)
      ⊎ ((addr ≡ 0x341) ⊎ (addr ≡ 0x141))
    → read (write c addr val) addr
      ≡ (if addr == 0x341 || addr == 0x141 then bit_and val (not64 1) else val)
unfolding read write
read-write c addr val h (inl p) =
    let plain : (addr == 0x341 || addr == 0x141) ≡ false = ground (arith, p) in
    elim (plain_side addr p) [
      | inl (m, s) ↦ rw (plain, s) (read-write_machine c addr val h m)
      | inr (v, s) ↦ rw (plain, s) (read-write_supervisor c addr val v)
    ]
read-write c addr val h (inr (inl e)) = rw e (unfold read_machine write_machine in refl)
read-write c addr val h (inr (inr e)) = rw e (unfold read_supervisor write_supervisor in refl)
