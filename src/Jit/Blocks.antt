-- ===== src/Jit/Blocks.antt =====
-- Whole blocks of src/jit.rs, from the call of the block to its return, against the interpreter,
-- src/cpu/execute.rs.
use risc_v_business.Base.{
  ℕ, ◌≡◌, refl, sym, ap, ◌∙◌, List, [], ◌∷◌, ◌++◌, append_assoc, append-nil, none, wrapping_add, ok,
  ◌>>=◌, return,
}
use risc_v_business.VirtioBlk.{Disk}
use risc_v_business.Decode.{Instruction}
use risc_v_business.Cpu.{Cpu}
use risc_v_business.Execute.{Arm}
use risc_v_business.Execute.Full.{execute}
use risc_v_business.Execute.Float.{Floats}
use risc_v_business.Jit.Asm.{Op, num, cpu_ptr, regs_ptr}
use risc_v_business.Jit.Asm.Run.{run, step}
use risc_v_business.Jit.Emit.{emit_prologue, emit_return}
use risc_v_business.Jit.Arms.{emit}
use risc_v_business.Jit.Equivalence.{Simulates, inside}
use risc_v_business.Jit.Straight.{at}
use risc_v_business.Jit.Jumps.{Leaves, return-Leaves}
use risc_v_business.Machine.Compiled.{call_block}

module _ {F : Type 0} (D : Disk F) (rounds clobbered : ℕ) (fl : Floats) where
  -- The instructions of four bytes, one after the other, in the interpreter.
  abbrev pub execute_all : List Instruction → Arm F
  execute_all [] = return tt
  execute_all (i ∷ is) = execute D rounds fl i >>= λ _. execute_all is

  -- The code of a block, by its instructions, as the loop of `compile` puts it together: it goes on
  -- behind an instruction, ends with a jump, or ends because the block is long enough.
  pub data Block : List Instruction → Cpu F → ℕ → List Op → Cpu F → ℕ → Type 0 where
    stops : (c : Cpu F) (pc : ℕ) → Block [] c pc (emit_return pc) c pc
    jumps :
        (i : Instruction) (c d : Cpu F) (pc next : ℕ)
        → execute D rounds fl i (at c pc) ≡ (at d next, ok tt)
        → Leaves D rounds clobbered (emit i pc).0 c d next
        → Block (i ∷ []) c pc (emit i pc).0 d next
    goes_on :
        (i : Instruction) (is : List Instruction) (code : List Op) (c d e : Cpu F) (pc next : ℕ)
        → execute D rounds fl i (at c pc) ≡ (at d (wrapping_add pc 4), ok tt)
        → Simulates D rounds clobbered (emit i pc).0 c d
        → Block is d (wrapping_add pc 4) code e next
        → Block (i ∷ is) c pc ((emit i pc).0 ++ code) e next

  Block-Leaves :
      {is : List Instruction} {code : List Op} {c d : Cpu F} {pc next : ℕ}
      → Block is c pc code d next
      → Leaves D rounds clobbered code c d next
  Block-Leaves (stops c pc) w x v14 v15 st = return-Leaves D rounds clobbered c pc w x v14 v15 st
  Block-Leaves (jumps i c d pc next h k) w x v14 v15 st = k w x v14 v15 st
  Block-Leaves (goes_on i is code c d e pc next h k b) w x v14 v15 st =
      let (w1, j) = k w (x ∷ v14 ∷ v15 ∷ st) in
      let (w2, (r, l)) = Block-Leaves b w1 x v14 v15 st in
      (
        w2,
        (
          r,
          λ rest.
              ap (λ ops. run D rounds clobbered ops (inside c w (x ∷ v14 ∷ v15 ∷ st)))
                (append_assoc (emit i pc).0 code rest)
              ∙ (j.leads (code ++ rest) ∙ l rest),
        ),
      )

  Block-execute_all :
      {is : List Instruction} {code : List Op} {c d : Cpu F} {pc next : ℕ}
      → Block is c pc code d next
      → execute_all is (at c pc) ≡ (at d next, ok tt)
  Block-execute_all (stops c pc) = refl
  Block-execute_all (jumps i c d pc next h k) = rw h refl
  Block-execute_all (goes_on i is code c d e pc next h k b) = rw h (Block-execute_all b)

  Block-call_block :
      {is : List Instruction} {code : List Op} {c d : Cpu F} {pc next : ℕ}
      → Block is c pc code d next
      → call_block D rounds clobbered fl (emit_prologue ++ code) c ≡ (d, ok next)
  unfolding call_block run step
  Block-call_block {code = code} {c = c} b =
      let (w, (e, k)) =
        Block-Leaves b
          (record {
            rax = clobbered;
            rcx = clobbered;
            rdx = clobbered;
            rsi = cpu_ptr;
            rdi = regs_ptr;
            flags = none;
          })
          (num clobbered) (num clobbered) (num clobbered) [] in
      rw (sym (append-nil code)) (rw (k [], e) refl)

  -- A block of four-byte instructions, each of which agrees with the interpreter where it stands,
  -- and the last of which may leave the block: the call of the block, its prologue included,
  -- returns the address at which the interpreter is after executing all of them, and leaves the
  -- hart in which it is but for the program counter and the size of the last instruction.
  pub blocks_agree :
      {is : List Instruction} {code : List Op} {c d : Cpu F} {pc next : ℕ}
      → Block is c pc code d next
      → (execute_all is (at c pc) ≡ (at d next, ok tt))
        × (call_block D rounds clobbered fl (emit_prologue ++ code) c ≡ (d, ok next))
  blocks_agree b = (Block-execute_all b, Block-call_block b)
