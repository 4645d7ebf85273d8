-- ===== src/Jit/Bounds.antt =====
-- How long the loop of `compile` of src/jit.rs runs, and what it writes.
use mathlib.Core.Path.{ap₂}
use risc_v_business.Base.{
  ℕ, zero, suc, ◌≤◌, ◌<◌, ◌≡◌, refl, arith, not, ap, Bool-cases, inl, inr, ◌==◌, leb, ◌+◌,
  if◌then◌else◌, bit_and, u16, wrapping_add, Run, Exit, ok, err, panic, hang, return,
}
use risc_v_business.VirtioBlk.{Disk}
use risc_v_business.Mmu.{fetch}
use risc_v_business.Decode.Full.{decode}
use risc_v_business.Cpu.{Cpu}
use risc_v_business.Execute.{trap, translate, bus_load}
use risc_v_business.Jit.Compressed.{emit_rvc}
use risc_v_business.Jit.Compile.{
  max_block, Written, block_exit, on_ok, continued, decoded, compile_from, unless_full,
}
use risc_v_business.Jit.Returns.{Holds}
use risc_v_business.Jit.Chain.{IsChain, Chain-le, compile_from-IsChain}

module _ {F : Type 0} (D : Disk F) (rounds : ℕ) where
  unless_full-same :
      (count next : ℕ) (rest rest' : Run (Cpu F) ⊥ Written)
      → (count + 1 < 128 → rest ≡ rest')
      → unless_full count next rest ≡ unless_full count next rest'
  unless_full-same count next rest rest' h = elim (Bool-cases (leb max_block (count + 1))) [
    | inl t ↦ rw t refl
    | inr t ↦ rw t (h (ground (arith, t)))
  ]

  -- Any fuel for the instructions that the block may still take gives the same.
  enough_fuel :
      (fuel fuel' count pc : ℕ)
      → count < 128
      → 128 ≤ count + fuel
      → 128 ≤ count + fuel'
      → compile_from D rounds fuel count pc ≡ compile_from D rounds fuel' count pc
  unfolding compile_from
  enough_fuel zero fuel' count pc h k k' = absurd (omega (arith, h, k))
  enough_fuel (suc fuel) zero count pc h k k' = absurd (omega (arith, h, k'))
  enough_fuel (suc fuel) (suc fuel') count pc h k k' =
      let rest : (next : ℕ)
          → unless_full count next (compile_from D rounds fuel (count + 1) next)
            ≡ unless_full count next (compile_from D rounds fuel' (count + 1) next) =
        λ next.
          unless_full-same count next (compile_from D rounds fuel (count + 1) next)
            (compile_from D rounds fuel' (count + 1) next)
            λ l. enough_fuel fuel fuel' (count + 1) next l (omega (arith, k)) (omega (arith, k')) in
      let leave : Run (Cpu F) ⊥ Written = return (block_exit count pc, count) in
      let round : (x y : Run (Cpu F) ⊥ Written) → Run (Cpu F) ⊥ Written = λ x y c.
        on_ok (translate D rounds fetch c.mode pc) leave
          (λ pa. on_ok (bus_load pa 4 (trap 1 pc)) leave λ raw.
            if not (bit_and raw 3 == 3)
            then continued (emit_rvc (u16 raw) pc) count pc x
            else decoded (decode raw) count pc y)
          c in
      ap₂ round (rest (wrapping_add pc 2)) (rest (wrapping_add pc 4))

  counted :
      (pc : ℕ) (c : Cpu F) (r : Exit ⊥ Written)
      → Holds (IsChain D rounds 0 pc c) r
      → Holds (λ w. IsChain D rounds 0 pc c w × (w.1 ≤ 128)) r
  counted pc c (ok w) h = (h, Chain-le D rounds 0 pc w.1 c w.0 (omega arith) h)
  counted pc c (err e) h = tt
  counted pc c panic h = tt
  counted pc c hang h = tt

  -- The loop of `compile` does the same with any fuel of at least 128 instructions. If it returns,
  -- its code is one piece for each instruction from the start on, in the order of the addresses and
  -- made of the word that is fetched there, up to the first that cannot be fetched or decoded or is
  -- not compiled, or to a jump, or to the 128th, and then the way back; the number returned is that
  -- of the instructions compiled, at most 128.
  pub compiled_blocks :
      (fuel start_pc : ℕ) (c : Cpu F)
      → 128 ≤ fuel
      → let o = compile_from D rounds fuel 0 start_pc c in
        (o ≡ compile_from D rounds max_block 0 start_pc c)
        × Holds (λ w. IsChain D rounds 0 start_pc c w × (w.1 ≤ 128)) o.1
  compiled_blocks fuel start_pc c h = (
    ap (λ (f : Run (Cpu F) ⊥ Written). f c)
        (enough_fuel fuel max_block 0 start_pc (omega arith) (omega (arith, h)) (omega arith)),
    counted start_pc c (compile_from D rounds fuel 0 start_pc c).1
        (compile_from-IsChain D rounds fuel 0 start_pc c),
  )
