-- ===== src/Cpu/Return.antt =====
-- Trap and return: `deliver_trap` of src/cpu/mod.rs, then the `mret` or `sret` of
-- src/cpu/execute.rs.
use risc_v_business.Base.{
  ℕ, ◌<◌, ◌≡◌, refl, sym, ap, subst, ◌∙◌, Bool, true, false, not, ◌&&◌, ◌||◌, ◌==◌, if◌then◌else◌,
  arith, bit, bit-clear, bit_and, bit_and-one, bit_and_three, not64, ◌>>>◌, ◌<<<◌,
}
use risc_v_business.Csr.{Csr, trap_entry, s_trap_entry}
use risc_v_business.Csr
use risc_v_business.Csr.Status.{trap_entry_bits, s_trap_entry_bits, s_ret_bits, mret-trap_entry}
use risc_v_business.Mmu.{PrivMode, u, s, m, mode_number}
use risc_v_business.Cpu.{Cpu, is_s, is_m, delegated, deliver_trap, deliver_to_s, deliver_to_m}
use risc_v_business.Cpu.System.{mret, sret, mode_of_mpp}
use risc_v_business.Cpu.Trap.{delivered_to_s, delivered_to_m}

-- Back in the code that trapped, with the given bits of `mstatus`.
pub record Resumed {F : Type 0} (c d : Cpu F) (status : ℕ → ℕ) : Type 0 where
  pub mode : d.mode ≡ c.mode
  pub pc : d.pc ≡ c.pc
  pub status_bits : (k : ℕ) → k < 64 → bit k d.csr.mstatus ≡ status k

-- The two bits of MPP after a trap from mode `p`.
mpp_of_trap : (c : Csr) (p : ℕ) → p < 4 → bit_and ((trap_entry c p).mstatus >>> 11) 3 ≡ p
mpp_of_trap c p h = ground (
  arith,
  bit_and_three ((trap_entry c p).mstatus >>> 11),
  trap_entry_bits c p 11 h (omega arith),
  trap_entry_bits c p 12 h (omega arith),
)

mode_number-lt : (x : PrivMode) → mode_number x < 4
mode_number-lt x = ground arith

mode_of_mpp-mode_number : (x : PrivMode) → mode_of_mpp (mode_number x) ≡ x
mode_of_mpp-mode_number u = refl
mode_of_mpp-mode_number s = refl
mode_of_mpp-mode_number m = refl

abbrev pub after_mret : Csr → ℕ → ℕ → ℕ
after_mret c p k =
    if k == 7
    then 1
    else if k == 11 || k == 12
    then 0
    else if k == 17
    then (if p == 3 then bit 17 c.mstatus else 0)
    else bit k c.mstatus

-- `mret` of the hart clears MPRV after `mret` of the registers.
clears_mprv :
    (x p k : ℕ)
    → k < 64
    → bit k (if not (p == 3) then bit_and x (not64 (1 <<< 17)) else x)
      ≡ (if not (p == 3) && k == 17 then 0 else bit k x)
clears_mprv x p k h = ground (arith, bit-clear k 17 x h (omega arith))

mret_status :
    (c : Csr) (p k : ℕ)
    → p < 4
    → k < 64
    → let e = trap_entry c p in
      let x = (Csr.mret e).mstatus in
      bit k (if not (bit_and (e.mstatus >>> 11) 3 == 3) then bit_and x (not64 (1 <<< 17)) else x)
      ≡ after_mret c p k
mret_status c p k hp h =
    let x = (Csr.mret (trap_entry c p)).mstatus in
    ap (λ z. bit k (if not (z == 3) then bit_and x (not64 (1 <<< 17)) else x)) (mpp_of_trap c p hp)
    ∙ (clears_mprv x p k h ∙ ground (arith, mret-trap_entry c p k hp h))

abbrev pub after_sret : Csr → ℕ → ℕ
after_sret c k = if k == 5 then 1 else if k == 8 || k == 17 then 0 else bit k c.mstatus

-- The mode that SPP remembers, of a trap that did not come from M-mode.
mode_of_spp :
    (x : PrivMode) (b : ℕ)
    → is_m x ≡ false
    → b ≡ (if is_s x then 1 else 0)
    → (if b == 1 then s else u) ≡ x
mode_of_spp u b h e = ground (arith, h)
mode_of_spp s b h e = ground (arith, h)
mode_of_spp m b h e = absurd (ground (arith, h))

spp_of_trap :
    (c : Csr) (x : PrivMode)
    → bit_and ((s_trap_entry c (is_s x)).mstatus >>> 8) 1 ≡ (if is_s x then 1 else 0)
spp_of_trap c x = ground (
  arith,
  bit_and-one ((s_trap_entry c (is_s x)).mstatus >>> 8),
  s_trap_entry_bits c (is_s x) 8 (omega arith),
)

sret_status :
    (c : Csr) (from_smode : Bool) (k : ℕ)
    → k < 64
    → let e = s_trap_entry c from_smode in
      bit k (Csr.s_ret (record e { mstatus = bit_and e.mstatus (not64 (1 <<< 17)) })).mstatus
      ≡ after_sret c k
sret_status c from_smode k h =
    let e = s_trap_entry c from_smode in
    ground (
      arith,
      s_ret_bits (record e { mstatus = bit_and e.mstatus (not64 (1 <<< 17)) }) k h,
      bit-clear k 17 e.mstatus h (omega arith),
      bit-clear 5 17 e.mstatus (omega arith) (omega arith),
      s_trap_entry_bits c from_smode k h,
      s_trap_entry_bits c from_smode 5 (omega arith),
    )

module _ {F : Type 0} where
  mret_resumes_from_m :
      (c : Cpu F) (cause tval : ℕ)
      → Resumed c (mret (deliver_to_m c cause tval)) (after_mret c.csr (mode_number c.mode))
  unfolding mret deliver_to_m Csr.mret
  mret_resumes_from_m c cause tval =
      let p = mode_number c.mode in
      record {
        mode =
            ap mode_of_mpp (mpp_of_trap c.csr p (mode_number-lt c.mode))
            ∙ mode_of_mpp-mode_number c.mode;
        pc = refl;
        status_bits = λ k h. mret_status c.csr p k (mode_number-lt c.mode) h;
      }

  -- A trap to M-mode, then `mret`: the hart is back in the mode and at the instruction that trapped.
  -- The bits of `mstatus` are as before the trap but for MPIE, which is set, MPP, which is cleared,
  -- and MPRV, which is cleared unless the trap came from M-mode.
  pub mret-deliver_trap :
      (c : Cpu F) (cause tval : ℕ)
      → delegated c cause ≡ false
      → Resumed c (mret (deliver_trap c cause tval)) (after_mret c.csr (mode_number c.mode))
  mret-deliver_trap c cause tval h =
      subst (λ d. Resumed c (mret d) (after_mret c.csr (mode_number c.mode)))
        (sym (delivered_to_m c cause tval h)) (mret_resumes_from_m c cause tval)

  not_from_m : (c : Cpu F) (cause : ℕ) → delegated c cause ≡ true → is_m c.mode ≡ false
  unfolding delegated
  not_from_m c cause h = ground (arith, h)

  -- `sret` where TSR does not stop it.
  abbrev sret_done : Cpu F → Cpu F
  sret_done c =
      let cleared = record c.csr { mstatus = bit_and c.csr.mstatus (not64 (1 <<< 17)) } in
      record c {
        mode = if bit_and (c.csr.mstatus >>> 8) 1 == 1 then s else u;
        csr = Csr.s_ret cleared;
        pc = c.csr.sepc;
      }

  sret_allowed : (c : Cpu F) → bit 22 c.csr.mstatus ≡ 0 → sret c ≡ sret_done c
  unfolding sret
  sret_allowed c h =
      ap (λ b. if b then deliver_trap c 2 0x10200073 else sret_done c)
        {x = is_s c.mode && not (bit_and (c.csr.mstatus >>> 22) 1 == 0)} {y = false}
        (ground (arith, bit_and-one (c.csr.mstatus >>> 22), h))

  sret_resumes_from_s :
      (c : Cpu F) (cause tval : ℕ)
      → is_m c.mode ≡ false
      → Resumed c (sret_done (deliver_to_s c cause tval)) (after_sret c.csr)
  unfolding deliver_to_s s_trap_entry Csr.s_ret
  sret_resumes_from_s c cause tval hm =
      let e = (s_trap_entry c.csr (is_s c.mode)).mstatus in
      record {
        mode = mode_of_spp c.mode (bit_and (e >>> 8) 1) hm (spp_of_trap c.csr c.mode);
        pc = refl;
        status_bits = λ k h. sret_status c.csr (is_s c.mode) k h;
      }

  tsr_kept :
      (c : Cpu F) (cause tval : ℕ)
      → bit 22 c.csr.mstatus ≡ 0
      → bit 22 (deliver_to_s c cause tval).csr.mstatus ≡ 0
  unfolding deliver_to_s
  tsr_kept c cause tval h = omega (arith, s_trap_entry_bits c.csr (is_s c.mode) 22 (omega arith), h)

  -- A trap to S-mode, then `sret` with TSR clear: the hart is back in the mode and at the instruction
  -- that trapped. The bits of `mstatus` are as before the trap but for SPIE, which is set, and SPP and
  -- MPRV, which are cleared.
  pub sret-deliver_trap :
      (c : Cpu F) (cause tval : ℕ)
      → delegated c cause ≡ true
      → bit 22 c.csr.mstatus ≡ 0
      → Resumed c (sret (deliver_trap c cause tval)) (after_sret c.csr)
  sret-deliver_trap c cause tval h ht =
      subst (λ d. Resumed c (sret d) (after_sret c.csr)) (sym (delivered_to_s c cause tval h))
        (subst (λ d. Resumed c d (after_sret c.csr))
          (sym (sret_allowed (deliver_to_s c cause tval) (tsr_kept c cause tval ht)))
          (sret_resumes_from_s c cause tval (not_from_m c cause h)))
