-- ===== src/Jit/Accesses.antt =====
-- The compiled loads and stores of src/jit.rs, in terms of what their callouts do.
use risc_v_business.Base.{
  ℕ, zero, suc, ◌-◌, ◌/◌, ◌%◌, ◌^◌, ◌≡◌, refl, ap, ◌∙◌, Bool-cases, inl, inr, false, ◌==◌, List, [],
  ◌∷◌, get_or, set, arith, u32, max_u64, wrapping_add, none, some, ok,
}
use risc_v_business.VirtioBlk.{Disk}
use risc_v_business.Cpu.{Cpu, reg, set_reg}
use risc_v_business.Execute.Alu.{sext}
use risc_v_business.Jit.{jit_load, jit_store}
use risc_v_business.Jit.Asm.{Value, num, Scratch, compared}
use risc_v_business.Jit.Asm.Run.{run, step}
use risc_v_business.Jit.Emit.{off, emit_load, emit_store, emit_fault_return, store_rd, spread}
use risc_v_business.Jit.Equivalence.{ZeroKept, Leads, Simulates, inside, slot-reg}
use risc_v_business.Jit.Jumps.{Leaves}

set-set :
    (xs : List ℕ) (i v : ℕ) (f : ℕ → ℕ)
    → set (set xs i v) i (f (get_or (set xs i v) i 0)) ≡ set xs i (f v)
set-set [] i v f = refl
set-set (x ∷ xs) zero v f = refl
set-set (x ∷ xs) (suc i) v f = ap (◌∷◌ x) (set-set xs i v f)

module _ {F : Type 0} (D : Disk F) (rounds clobbered : ℕ) (c d : Cpu F)
    (zero_kept : ZeroKept c) where
  pub load-Simulates :
      (rd rs1 i width guest_pc v : ℕ)
      → sext (u32 i) 31 ≡ i
      → jit_load D rounds width (wrapping_add (reg c rs1) i) c ≡ (d, ok v)
      → (v == max_u64) ≡ false
      → Simulates D rounds clobbered (emit_load rd rs1 i width guest_pc) c (set_reg d rd v)
  unfolding emit_load emit_fault_return store_rd set_reg run step
  load-Simulates rd rs1 i width guest_pc v h k n w st =
      let e = slot-reg c rs1 zero_kept in
      let o : off rd / 8 ≡ rd = omega arith in
      let ones : sext (2 ^ 32 - 1) 31 ≡ max_u64 = unfold sext in refl in
      let w' : Scratch = record {
        rax = v;
        rcx = clobbered;
        rdx = clobbered;
        rsi = num clobbered;
        rdi = num clobbered;
        flags = some (compared v max_u64);
      } in
      elim (Bool-cases (rd == 0)) [
        | inl t ↦ (w', record { leads = λ rest. rw (t, e, h, k, ones, n) refl })
        | inr t ↦ (w', record { leads = λ rest. rw (t, e, h, k, ones, n, o) refl })
      ]

  -- A fault of a load returns to the caller, the hart being at the instruction.
  pub load-Leaves :
      (rd rs1 i width guest_pc : ℕ)
      → sext (u32 i) 31 ≡ i
      → jit_load D rounds width (wrapping_add (reg c rs1) i) c ≡ (d, ok max_u64)
      → Leaves D rounds clobbered
          (emit_load rd rs1 i width guest_pc)
          c
          (record d { pc = guest_pc })
          max_u64
  unfolding emit_load emit_fault_return store_rd run step
  load-Leaves rd rs1 i width guest_pc h k w x v14 v15 st =
      let e = slot-reg c rs1 zero_kept in
      let ones : sext (2 ^ 32 - 1) 31 ≡ max_u64 = unfold sext in refl in
      let w' : Scratch = record {
        rax = max_u64;
        rcx = clobbered;
        rdx = clobbered;
        rsi = num clobbered;
        rdi = num clobbered;
        flags = none;
      } in
      elim (Bool-cases (rd == 0)) [
        | inl t ↦ (w', (refl, λ rest. rw (t, e, h, k, ones) refl))
        | inr t ↦ (w', (refl, λ rest. rw (t, e, h, k, ones) refl))
      ]

  pub store-Simulates :
      (rs1 rs2 i width guest_pc : ℕ)
      → sext (u32 i) 31 ≡ i
      → jit_store D rounds width (wrapping_add (reg c rs1) i) (reg c rs2) c ≡ (d, ok 0)
      → Simulates D rounds clobbered (emit_store rs1 rs2 i width guest_pc) c d
  unfolding emit_store emit_fault_return run step
  store-Simulates rs1 rs2 i width guest_pc h k w st =
      let e = slot-reg c rs1 zero_kept in
      let f = slot-reg c rs2 zero_kept in
      let ones : sext (2 ^ 32 - 1) 31 ≡ max_u64 = unfold sext in refl in
      (
        record {
          rax = 0;
          rcx = clobbered;
          rdx = clobbered;
          rsi = num clobbered;
          rdi = num clobbered;
          flags = some (compared 0 max_u64);
        },
        record { leads = λ rest. rw (e, f, h, k, ones) refl },
      )

  pub store-Leaves :
      (rs1 rs2 i width guest_pc : ℕ)
      → sext (u32 i) 31 ≡ i
      → jit_store D rounds width (wrapping_add (reg c rs1) i) (reg c rs2) c ≡ (d, ok max_u64)
      → Leaves D rounds clobbered
          (emit_store rs1 rs2 i width guest_pc)
          c
          (record d { pc = guest_pc })
          max_u64
  unfolding emit_store emit_fault_return run step
  store-Leaves rs1 rs2 i width guest_pc h k w x v14 v15 st =
      let e = slot-reg c rs1 zero_kept in
      let f = slot-reg c rs2 zero_kept in
      let ones : sext (2 ^ 32 - 1) 31 ≡ max_u64 = unfold sext in refl in
      (
        record {
          rax = max_u64;
          rcx = clobbered;
          rdx = clobbered;
          rsi = num clobbered;
          rdi = num clobbered;
          flags = none;
        },
        (refl, λ rest. rw (e, f, h, k, ones) refl),
      )

-- The sign that a load gives its value afterwards.
module _ {F : Type 0} (D : Disk F) (rounds clobbered : ℕ) (d : Cpu F) where
  pub spread-Leads :
      (bits rd v : ℕ) (w : Scratch) (st : List Value)
      → ((x : ℕ) → sext (x % 2 ^ bits) (bits - 1) ≡ sext x (bits - 1))
      → (w' : Scratch) × Leads D rounds clobbered
          (spread bits rd)
          (inside (set_reg d rd v) w st)
          (inside (set_reg d rd (sext v (bits - 1))) w' st)
  unfolding spread set_reg run step
  spread-Leads bits rd v w st low = elim (Bool-cases (rd == 0)) [
    | inl t ↦ (w, record { leads = λ rest. rw t refl })
    | inr t ↦
        let o : off rd / 8 ≡ rd = omega arith in
        let s =
          set-set d.regs rd v (λ x. sext (x % 2 ^ bits) (bits - 1)) ∙ ap (set d.regs rd) (low v) in
        (
          record w { rax = sext (get_or (set d.regs rd v) rd 0 % 2 ^ bits) (bits - 1) },
          record { leads = λ rest. rw (t, o, s) refl },
        )
  ]
