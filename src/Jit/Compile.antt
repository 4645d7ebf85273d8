-- ===== src/Jit/Compile.antt =====
-- The cache of compiled blocks and `compile`, src/jit.rs. A block is the assembly between its entry and
-- its end; the cache is a list of blocks by the address of the guest they start at.
use risc_v_business.Base.{
  ℕ, zero, suc, ◌+◌, leb, not, ◌==◌, if◌then◌else◌, Option, none, some, List, [], ◌∷◌, ◌++◌,
  bit_and, u16, wrapping_add, Run, Exit, ok, err, panic, hang, ◌>>=◌, return,
}
use risc_v_business.VirtioBlk.{Disk}
use risc_v_business.Mmu.{fetch}
use risc_v_business.Decode.{Decoded}
use risc_v_business.Decode.Full.{decode}
use risc_v_business.Cpu.{Cpu}
use risc_v_business.Execute.{trap, translate, bus_load}
use risc_v_business.Jit.Asm.{Op}
use risc_v_business.Jit.Emit.{
  Effect, seq, terminal, unhandled, emit_prologue, emit_return, emit_slow_path,
}
use risc_v_business.Jit.Arms.{emit}
use risc_v_business.Jit.Compressed.{emit_rvc}

pub record JitCache : Type 0 where
  pub blocks : List (ℕ × List Op)

abbrev pub new : JitCache
new = record { blocks = [] }

unfoldable pub lookup : List (ℕ × List Op) → ℕ → Option (List Op)
lookup [] pc = none
lookup ((at, code) ∷ rest) pc = if at == pc then some code else lookup rest pc

abbrev pub get : JitCache → ℕ → Option (List Op)
get k pc = lookup k.blocks pc

abbrev pub invalidate : JitCache → JitCache
invalidate k = record k { blocks = [] }

abbrev pub insert : JitCache → ℕ → List Op → JitCache
insert k pc code = record k { blocks = (pc, code) ∷ k.blocks }

-- `max_block`, the most instructions of a block.
abbrev pub max_block : ℕ
max_block = 128

-- The code written so far, and the number of instructions.
abbrev pub Written : Type 0
Written = List Op × ℕ

unfoldable pub block_exit : (count guest_pc : ℕ) → List Op
block_exit count guest_pc = if count == 0 then emit_slow_path else emit_return guest_pc

module _ {F : Type 0} where
  -- `match` on the result of a call that may fail.
  abbrev pub chosen :
      {E A B : Type 0}
      → Run (Cpu F) ⊥ B
      → (A → Run (Cpu F) ⊥ B)
      → Cpu F
      → Exit E A
      → Cpu F × Exit ⊥ B
  chosen failed good c (ok a) = good a c
  chosen failed good c (err e) = failed c
  chosen failed good c panic = (c, panic)
  chosen failed good c hang = (c, hang)

  abbrev pub on_ok :
      {E A B : Type 0} → Run (Cpu F) E A → Run (Cpu F) ⊥ B → (A → Run (Cpu F) ⊥ B) → Run (Cpu F) ⊥ B
  on_ok m failed good c = let (c', r) = m c in chosen failed good c' r

  abbrev pub unless_found :
      {B : Type 0} → Option (List Op) → (found missing : Run (Cpu F) ⊥ B) → Run (Cpu F) ⊥ B
  unless_found (some code) found missing = found
  unless_found none found missing = missing

  -- The code of an instruction, before that of the rest of the block.
  abbrev pub prefixed : List Op → Run (Cpu F) ⊥ Written → Run (Cpu F) ⊥ Written
  prefixed code rest = rest >>= λ w. return (code ++ w.0, w.1)

  abbrev pub continued :
      List Op × Effect → (count guest_pc : ℕ) → Run (Cpu F) ⊥ Written → Run (Cpu F) ⊥ Written
  continued (code, seq) count guest_pc rest = prefixed code rest
  continued (code, terminal) count guest_pc rest = return (code, count + 1)
  continued (code, unhandled) count guest_pc rest =
      return (code ++ block_exit count guest_pc, count)

  abbrev pub decoded :
      Decoded → (count guest_pc : ℕ) → Run (Cpu F) ⊥ Written → Run (Cpu F) ⊥ Written
  decoded (ok inst) count guest_pc rest = continued (emit inst guest_pc) count guest_pc rest
  decoded (err e) count guest_pc rest = return (block_exit count guest_pc, count)
  decoded panic count guest_pc rest = λ c. (c, panic)
  decoded hang count guest_pc rest = λ c. (c, hang)

  -- The test after an instruction that goes on to `next_pc`: a block of 128 is full.
  abbrev pub unless_full : (count next_pc : ℕ) → Run (Cpu F) ⊥ Written → Run (Cpu F) ⊥ Written
  unless_full count next_pc rest =
      if leb max_block (count + 1) then return (emit_return next_pc, count + 1) else rest

  module _ (D : Disk F) (rounds : ℕ) where
    -- The loop of `compile` at an instruction, after `count` others.
    unfoldable pub compile_from : (fuel count guest_pc : ℕ) → Run (Cpu F) ⊥ Written
    compile_from zero count guest_pc c = (c, hang)
    compile_from (suc fuel) count guest_pc c =
        let next_2 = wrapping_add guest_pc 2 in
        let next_4 = wrapping_add guest_pc 4 in
        let by_2 = compile_from fuel (count + 1) next_2 in
        let by_4 = compile_from fuel (count + 1) next_4 in
        let leave : Run (Cpu F) ⊥ Written = return (block_exit count guest_pc, count) in
        on_ok (translate D rounds fetch c.mode guest_pc) leave
          (λ pa. on_ok (bus_load pa 4 (trap 1 guest_pc)) leave λ raw.
            if not (bit_and raw 3 == 3)
            then continued (emit_rvc (u16 raw) guest_pc) count guest_pc
                (unless_full count next_2 by_2)
            else decoded (decode raw) count guest_pc (unless_full count next_4 by_4))
          c

    -- The block that is made, and put into the cache if it has an instruction.
    unfoldable pub fill : JitCache → (start_pc : ℕ) → Run (Cpu F) ⊥ JitCache
    fill k start_pc = compile_from max_block 0 start_pc >>= λ w.
        return (if w.1 == 0 then k else insert k start_pc (emit_prologue ++ w.0))

    unfoldable pub compile : JitCache → (start_pc : ℕ) → Run (Cpu F) ⊥ JitCache
    compile k start_pc c =
        unless_found (get k start_pc) (return k)
          (on_ok (translate D rounds fetch c.mode start_pc) (return k)
            λ pa. on_ok (bus_load pa 4 (trap 1 start_pc)) (return k) λ raw. fill k start_pc)
          c
