-- ===== src/Machine/Compiled.antt =====
-- The loop of src/main.rs with `--jit`: a cached block runs in place of a step, an instruction that has no
-- block is stepped and then compiled, and the flags that the hart sets drop the cache.
use risc_v_business.Base.{
  ℕ, false, not, ◌&&◌, ◌||◌, leb, ◌==◌, if◌then◌else◌, none, some, List, [], ◌∷◌, bit_and, max_u64,
  wrapping_add, wrapping_sub, Run, Exit, ok, err, panic, hang, ◌>>=◌, ◌>>◌, proceed, return,
}
use risc_v_business.VirtioBlk.{Disk}
use risc_v_business.Cpu.{Cpu, is_m}
use risc_v_business.Execute.Float.{Floats}
use risc_v_business.Execute.Step.{step}
use risc_v_business.Jit.Asm.{Op, X64, num, regs_ptr, cpu_ptr}
use risc_v_business.Jit.Asm.Run.{run}
use risc_v_business.Jit.Compile.{JitCache, get, invalidate, compile}
use risc_v_business.Machine.{Supply, poll}

pub record Compiled (F : Type 0) : Type 0 where
  pub cpu : Cpu F
  pub cache : JitCache
  pub tick : ℕ
  pub last_fence_i_flush : ℕ

module _ {F : Type 0} where
  -- The host as it calls a block: the two arguments, and what the caller has in r14 and r15.
  abbrev pub called_with : Cpu F → (other : ℕ) → X64 F
  called_with c other = record {
    cpu = c;
    scratch = record {
      rax = other;
      rcx = other;
      rdx = other;
      rsi = cpu_ptr;
      rdi = regs_ptr;
      flags = none;
    };
    r14 = num other;
    r15 = num other;
    stack = [];
  }

  module _ (D : Disk F) (rounds clobbered : ℕ) (fl : Floats) where
    -- `f(cpu.regs.as_mut_ptr(), &mut cpu)`: the next address, in rax.
    unfoldable pub call_block : List Op → Run (Cpu F) ⊥ ℕ
    call_block code c =
        let (s, r) = run D rounds clobbered code (called_with c clobbered) in
        proceed (λ _ d. (d, ok s.scratch.rax)) s.cpu r

    -- What a cached block does for the loop, and the ticks that it counts for.
    unfoldable pub use_block : List Op → Run (Cpu F) ⊥ ℕ
    use_block code c =
        let ticks = if is_m c.mode then 64 else 8 in
        (call_block code >>= λ next. if next == max_u64 then step D rounds fl >> return 1 else λ d.
        (record d { pc = next }, ok ticks))
          c

    -- Without a block: a step, and then the block is compiled, unless the cache is to be dropped.
    unfoldable pub step_and_compile : JitCache → Run (Cpu F) ⊥ (JitCache × ℕ)
    step_and_compile k c =
        let pc = c.pc in
        (step D rounds fl >>= λ _ d.
        (if not d.jit_invalidate && not d.fence_i_pending
            then (compile D rounds k pc >>= λ k'. return (k', 1))
            else return (k, 1))
          d)
          c

    unfoldable pub advance_guest : JitCache → Run (Cpu F) ⊥ (JitCache × ℕ)
    advance_guest k c = elim (get k c.pc) [
      | some code ↦ (use_block code >>= λ ticks. return (k, ticks)) c
      | none ↦ step_and_compile k c
    ]

    -- The flags that drop the cache, at once or at most once in 65536 ticks.
    unfoldable pub flush : Compiled F → Compiled F
    flush k =
        let c = k.cpu in
        let due = c.fence_i_pending && leb 65536 (wrapping_sub k.tick k.last_fence_i_flush) in
        record k {
          cpu = record c { jit_invalidate = false; fence_i_pending = false };
          cache = if c.jit_invalidate || due then invalidate k.cache else k.cache;
          last_fence_i_flush = if due then k.tick else k.last_fence_i_flush;
        }

    unfoldable pub advance_ticks : Supply → ℕ → Compiled F → Compiled F
    advance_ticks w ticks k =
        let tick = wrapping_add k.tick ticks in
        record k { tick = tick; cpu = if bit_and tick 1023 == 0 then poll w k.cpu else k.cpu }

    unfoldable pub after_advance :
        Supply → Compiled F → Cpu F → Exit ⊥ (JitCache × ℕ) → Compiled F × Exit ⊥ (Unit {0})
    after_advance w k c (ok (cache, ticks)) =
        (advance_ticks w ticks (flush (record k { cpu = c; cache = cache })), ok tt)
    after_advance w k c (err e) = absurd e
    after_advance w k c panic = (record k { cpu = c }, panic)
    after_advance w k c hang = (record k { cpu = c }, hang)

    unfoldable pub round : Supply → Compiled F → Compiled F × Exit ⊥ (Unit {0})
    round w k = let (c, r) = advance_guest k.cache k.cpu in after_advance w k c r

    -- The loop, one round for each supply, until a round does not return.
    unfoldable pub loop : List Supply → Compiled F → Compiled F × Exit ⊥ (Unit {0})
    loop [] k = (k, ok tt)
    loop (w ∷ ws) k = (round w >>= λ _. loop ws) k
