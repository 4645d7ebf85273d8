-- ===== src/Jit/Asm/Run.antt =====
-- What the x86-64 instructions of src/jit.rs do, and code that runs up to its `ret`.
use risc_v_business.Base.{
  ℕ, ◌+◌, ◌-◌, ◌*◌, ◌/◌, ◌%◌, ◌^◌, Bool, true, not, ◌||◌, ltb, leb, ◌==◌, if◌then◌else◌, Option,
  none, some, List, [], ◌∷◌, get_or, set, u32, u64, max_u64, ◌>>>◌, Exit, ok, panic, proceed,
}
use risc_v_business.VirtioBlk.{Disk}
use risc_v_business.Cpu.{Cpu}
use risc_v_business.Execute.Alu.{sext, widen, times, quotient, remainder}
use risc_v_business.Jit.{jit_load, jit_store}
use risc_v_business.Jit.Asm.{
  Width, w64, Reg, rax, rdx, Operand, reg, slot, imm, Callout, load, store, Op, mov_load,
  movsx_load, mov_store, mov_imm, mov_imm32, mov, binary, shift_cl, shift_imm, cmp, test, set_al,
  movzx_al, movsxd, cqo, imul_rcx, mul_rcx, div_rcx, idiv_rcx, div_ecx, mov_rsi_slot, add_rsi,
  mov_rdi_r14, mov_r15_rdi, mov_r14_rsi, mov_pc, call, push_r15, push_r14, pop_r14, pop_r15,
  sub_rsp_8, add_rsp_8, jmp, label, jcc, ret, Value, cpu_ptr, num, Scratch, X64, get, put, cut,
  binary_value, shift_value, compared, in_regs, in_cpu, set_low_byte, condition, add_to, tested,
  fits,
}

module _ {F : Type 0} where
  abbrev pub operand : Width → Operand → X64 F → ℕ
  operand w (reg r) s = cut w (get r s.scratch)
  operand w (slot off) s = cut w (get_or s.cpu.regs (off / 8) 0)
  operand w (imm i) s = cut w (sext i 31)

  -- An access through a pointer that has to be the right one.
  abbrev pub guarded : Bool → X64 F → X64 F → X64 F × Exit ⊥ (Unit {0})
  guarded good s t = if good then (t, ok tt) else (s, panic)

  abbrev pub scratched : Scratch → X64 F → X64 F × Exit ⊥ (Unit {0})
  scratched w s = (record s { scratch = w }, ok tt)

  -- A result that leaves no flags to read.
  abbrev pub resulted : Reg → ℕ → X64 F → X64 F × Exit ⊥ (Unit {0})
  resulted r v s = scratched (record (put r v s.scratch) { flags = none }) s

  abbrev pub divided : Bool → ℕ → ℕ → X64 F → X64 F × Exit ⊥ (Unit {0})
  divided good q r s =
      guarded good s (record s { scratch = record s.scratch { rax = q; rdx = r; flags = none } })

  abbrev pub set_condition : Option Bool → X64 F → X64 F × Exit ⊥ (Unit {0})
  set_condition none s = (s, panic)
  set_condition (some t) s = scratched (record s.scratch { rax = set_low_byte s.scratch.rax t }) s

  abbrev pub popped : List Value → X64 F → (Value → X64 F → X64 F) → X64 F × Exit ⊥ (Unit {0})
  popped [] s f = (s, panic)
  popped (v ∷ vs) s f = (f v (record s { stack = vs }), ok tt)

  module _ (D : Disk F) (rounds clobbered : ℕ) where
    -- The helpers keep rax for their result and may leave anything in the registers that a call may
    -- change: rcx, rdx, rsi, rdi and the flags.
    abbrev pub returned : X64 F → Cpu F × Exit ⊥ ℕ → X64 F × Exit ⊥ (Unit {0})
    returned s (c, r) =
        proceed
          (λ v t. (
            record t {
              scratch = record {
                rax = v;
                rcx = clobbered;
                rdx = clobbered;
                rsi = num clobbered;
                rdi = num clobbered;
                flags = none;
              };
            },
            ok tt,
          ))
          (record s { cpu = c }) r

    abbrev pub called : Callout → Value → Value → X64 F → X64 F × Exit ⊥ (Unit {0})
    called (load width) cpu_ptr (num addr) s = returned s (jit_load D rounds width addr s.cpu)
    called (store width) cpu_ptr (num addr) s =
        returned s (jit_store D rounds width addr s.scratch.rdx s.cpu)
    called _ _ _ s = (s, panic)

    -- An instruction that is no jump.
    unfoldable pub step : Op → X64 F → X64 F × Exit ⊥ (Unit {0})
    step (mov_load w r off) s =
        guarded (in_regs s.r15) s (record s { scratch = put r (operand w (slot off) s) s.scratch })
    step (movsx_load bits r off) s = guarded (in_regs s.r15) s (record s {
      scratch = put r (sext (operand w64 (slot off) s % 2 ^ bits) (bits - 1)) s.scratch;
    })
    step (mov_store off r) s =
        guarded (in_regs s.r15) s
          (record s { cpu = record s.cpu { regs = set s.cpu.regs (off / 8) (get r s.scratch) } })
    step (mov_imm r v) s = scratched (put r v s.scratch) s
    step (mov_imm32 r v) s = scratched (put r (sext v 31) s.scratch) s
    step (mov r from) s = scratched (put r (get from s.scratch) s.scratch) s
    step (binary op w r o) s =
        resulted r (binary_value op w (cut w (get r s.scratch)) (operand w o s)) s
    step (shift_cl op w) s =
        resulted rax (shift_value op w (cut w s.scratch.rax) (s.scratch.rcx % 2 ^ 8)) s
    step (shift_imm op w k) s = resulted rax (shift_value op w (cut w s.scratch.rax) k) s
    step (cmp r o) s =
        scratched (record s.scratch { flags = some (compared (get r s.scratch) (operand w64 o s)) })
          s
    step (test w r) s =
        scratched (record s.scratch { flags = some (compared (tested w (get r s.scratch)) 0) }) s
    step (set_al c) s = set_condition (condition c s.scratch.flags) s
    step movzx_al s = scratched (put rax (s.scratch.rax % 2 ^ 8) s.scratch) s
    step (movsxd r) s = scratched (put rax (sext (u32 (get r s.scratch)) 31) s.scratch) s
    step cqo s = scratched (put rdx (if ltb s.scratch.rax (2 ^ 63) then 0 else max_u64) s.scratch) s
    step imul_rcx s =
        let p = times (widen s.scratch.rax) (widen s.scratch.rcx) in
        divided true (u64 p) (p >>> 64) s
    step mul_rcx s = let p = s.scratch.rax * s.scratch.rcx in divided true (u64 p) (p >>> 64) s
    step div_rcx s =
        let n = s.scratch.rdx * 2 ^ 64 + s.scratch.rax in
        let q = n / s.scratch.rcx in
        divided (not (s.scratch.rcx == 0 || leb (2 ^ 64) q)) q (n % s.scratch.rcx) s
    step idiv_rcx s =
        let n = s.scratch.rdx * 2 ^ 64 + s.scratch.rax in
        let q = quotient 128 n (widen s.scratch.rcx) in
        divided (not (s.scratch.rcx == 0 || not (fits q))) (u64 q)
          (u64 (remainder 128 n (widen s.scratch.rcx))) s
    step div_ecx s =
        let n = u32 s.scratch.rdx * 2 ^ 32 + u32 s.scratch.rax in
        let d = u32 s.scratch.rcx in
        let q = n / d in divided (not (d == 0 || leb (2 ^ 32) q)) q (n % d) s
    step (mov_rsi_slot off) s =
        guarded (in_regs s.r15) s
          (record s { scratch = record s.scratch { rsi = num (operand w64 (slot off) s) } })
    step (add_rsi i) s =
        scratched (record s.scratch { rsi = add_to i s.scratch.rsi; flags = none }) s
    step mov_rdi_r14 s = scratched (record s.scratch { rdi = s.r14 }) s
    step mov_r15_rdi s = (record s { r15 = s.scratch.rdi }, ok tt)
    step mov_r14_rsi s = (record s { r14 = s.scratch.rsi }, ok tt)
    step mov_pc s =
        guarded (in_cpu s.r14) s (record s { cpu = record s.cpu { pc = s.scratch.rax } })
    step (call f) s = called f s.scratch.rdi s.scratch.rsi s
    step push_r15 s = (record s { stack = s.r15 ∷ s.stack }, ok tt)
    step push_r14 s = (record s { stack = s.r14 ∷ s.stack }, ok tt)
    step pop_r14 s = popped s.stack s λ v t. record t { r14 = v }
    step pop_r15 s = popped s.stack s λ v t. record t { r15 = v }
    step sub_rsp_8 s =
        scratched (record s.scratch { flags = none }) (record s { stack = num clobbered ∷ s.stack })
    step add_rsp_8 s =
        popped s.stack s λ v t. record t { scratch = record t.scratch { flags = none } }
    step _ s = (s, panic)

    -- The code from here on, up to a `ret`; behind a jump it is skipped up to the label. Code that
    -- comes to its end without one goes wrong.
    unfoldable mutual
      pub run : List Op → X64 F → X64 F × Exit ⊥ (Unit {0})
      run [] s = (s, panic)
      run (ret ∷ code) s = (s, ok tt)
      run (label k ∷ code) s = run code s
      run (jmp k ∷ code) s = skip k code s
      run (jcc c k ∷ code) s =
          let jump = skip k code s in
          let go_on = run code s in
          elim (condition c s.scratch.flags) [
            | none ↦ (s, panic)
            | some t ↦ if t then jump else go_on
          ]
      run (op ∷ code) s = let (s', r) = step op s in proceed (λ _. run code) s' r

      pub skip : ℕ → List Op → X64 F → X64 F × Exit ⊥ (Unit {0})
      skip k [] s = (s, panic)
      skip k (label i ∷ code) s =
          let here = run code s in let on = skip k code s in if i == k then here else on
      skip k (op ∷ code) s = skip k code s
