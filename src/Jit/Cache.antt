-- ===== src/Jit/Cache.antt =====
-- What `compile` of src/jit.rs does to the cache of blocks.
use risc_v_business.Base.{
  ℕ, ◌≡◌, refl, subst, arith, Bool-cases, inl, inr, false, ◌==◌, if◌then◌else◌, Option, none, some,
  List, ◌++◌, Run, Exit, ok, err, panic, hang, proceed, return,
}
use risc_v_business.VirtioBlk.{Disk}
use risc_v_business.Mmu.{fetch}
use risc_v_business.Cpu.{Cpu}
use risc_v_business.Execute.{trap, translate, bus_load}
use risc_v_business.Jit.Asm.{Op}
use risc_v_business.Jit.Emit.{emit_prologue}
use risc_v_business.Jit.Compile.{
  JitCache, get, lookup, insert, max_block, Written, unless_found, compile_from, fill, compile,
}
use risc_v_business.Jit.Returns.{Holds, Ends, on_ok-Ends}

-- The blocks that were there stay, and only the address may get one.
abbrev pub Grown : JitCache → ℕ → JitCache → Type 0
Grown k start_pc k' =
    ((pc : ℕ) (code : List Op) → get k pc ≡ some code → get k' pc ≡ some code)
    × ((pc : ℕ) → (start_pc == pc) ≡ false → get k' pc ≡ get k pc)

same-Grown : (k : JitCache) (start_pc : ℕ) → Grown k start_pc k
same-Grown k start_pc = (λ pc code h. h, λ pc h. refl)

insert-Grown :
    (k : JitCache) (start_pc : ℕ) (code : List Op)
    → get k start_pc ≡ none
    → Grown k start_pc (insert k start_pc code)
unfolding lookup
insert-Grown k start_pc code h = (
  λ pc other e. elim (Bool-cases (start_pc == pc)) [
    | inl t ↦ let same : start_pc ≡ pc = ground (arith, t) in absurd cc
    | inr t ↦ rw t e
  ],
  λ pc t. rw t refl,
)

module _ {F : Type 0} (D : Disk F) (rounds : ℕ) where
  filled-Holds :
      (k : JitCache) (start_pc : ℕ) (c : Cpu F) (r : Exit ⊥ Written)
      → get k start_pc ≡ none
      → Holds
          (Grown k start_pc)
          (proceed
            (λ (w : Written).
              return (if w.1 == 0 then k else insert k start_pc (emit_prologue ++ w.0)))
            c
            r).1
  filled-Holds k start_pc c (ok (code, n)) h = elim (Bool-cases (n == 0)) [
    | inl t ↦ rw t (same-Grown k start_pc)
    | inr t ↦ rw t (insert-Grown k start_pc (emit_prologue ++ code) h)
  ]
  filled-Holds k start_pc c (err e) h = tt
  filled-Holds k start_pc c panic h = tt
  filled-Holds k start_pc c hang h = tt

  missing-Ends :
      (k : JitCache) (start_pc : ℕ) (o : Option (List Op)) (missing : Run (Cpu F) ⊥ JitCache)
      → (o ≡ none → Ends (Grown k start_pc) missing)
      → Ends (Grown k start_pc) (unless_found o (return k) missing)
  missing-Ends k start_pc (some code) missing h = record { ends = λ d. same-Grown k start_pc }
  missing-Ends k start_pc none missing h = h refl

  fill-Ends :
      (k : JitCache) (start_pc : ℕ)
      → get k start_pc ≡ none
      → Ends (Grown k start_pc) (fill {F = F} D rounds k start_pc)
  unfolding fill
  fill-Ends k start_pc h = record {
    ends = λ d.
        let (e, r) = compile_from D rounds max_block 0 start_pc d in filled-Holds k start_pc e r h;
  }

  compiled-Holds :
      (k : JitCache) (start_pc : ℕ) (c : Cpu F)
      → Holds (Grown k start_pc) (compile D rounds k start_pc c).1
  unfolding compile
  compiled-Holds k start_pc c =
      let keep : Ends (Grown k start_pc) (return k) = record {
        ends = λ d. same-Grown k start_pc;
      } in
      (missing-Ends k start_pc (get k start_pc) _ λ h.
          on_ok-Ends (Grown k start_pc) (translate D rounds fetch c.mode start_pc) _ _ keep λ pa.
            on_ok-Ends (Grown k start_pc) (bus_load pa 4 (trap 1 start_pc)) _ _ keep
              λ raw. fill-Ends k start_pc h).ends
        c

  -- If `compile` returns, then every block that the cache had is there unchanged, and no address
  -- but the one compiled has got a block.
  pub compile-Grown :
      (k k' : JitCache) (start_pc : ℕ) (c d : Cpu F)
      → compile D rounds k start_pc c ≡ (d, ok k')
      → Grown k start_pc k'
  compile-Grown k k' start_pc c d h =
      subst (λ o. Holds (Grown k start_pc) o.1) h (compiled-Holds k start_pc c)
