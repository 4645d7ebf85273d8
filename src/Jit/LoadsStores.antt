-- ===== src/Jit/LoadsStores.antt =====
-- Loads and stores of src/jit.rs against the interpreter, src/cpu/execute.rs.
use risc_v_business.Base.{
  ℕ, ◌+◌, ◌-◌, ◌%◌, ◌^◌, ◌≡◌, refl, ap, ◌∙◌, true, false, leb, ◌==◌, List, ◌∷◌, ◌++◌, append_assoc,
  arith, u32, max_u64, asr64, wrapping_add, Exit, ok,
}
use risc_v_business.VirtioBlk.{Disk}
use risc_v_business.Decode.{Instruction, lb, lh, lw, ld, lbu, lhu, lwu, sb, sh, sw, sd}
use risc_v_business.Mmu.{MmuFault}
use risc_v_business.Cpu.{Cpu, reg, set_reg}
use risc_v_business.Execute.{ls_mode, page_offset, mmu_load, mmu_store, settle}
use risc_v_business.Execute.Alu.{sext}
use risc_v_business.Execute.Memory.{effective, load_integer, store_integer}
use risc_v_business.Execute.Full.{execute}
use risc_v_business.Execute.Float.{Floats}
use risc_v_business.Jit.{sentinel, jit_load, jit_store}
use risc_v_business.Jit.Asm.{Op}
use risc_v_business.Jit.Asm.Run.{run}
use risc_v_business.Jit.Emit.{spread, emit_load, emit_store}
use risc_v_business.Jit.Arms.{emit, emit_words, emit_divisions, emit_memory, emit_jumps}
use risc_v_business.Jit.Arithmetic.{sext-u32}
use risc_v_business.Jit.Callouts.{store_code, callouts_agree}
use risc_v_business.Jit.Equivalence.{ZeroKept, Leads-append, Simulates, inside}
use risc_v_business.Jit.Straight.{at, writes}
use risc_v_business.Jit.Relocation.{load_at, store_at}
use risc_v_business.Execute.{write}
use risc_v_business.Jit.Jumps.{Leaves}
use risc_v_business.Jit.Accesses.{
  load-Simulates, load-Leaves, store-Simulates, store-Leaves, spread-Leads,
}

-- The integer loads and stores, by the number of bytes and, for loads, what is made of the value.
pub data Load : Instruction → (width : ℕ) → (extend : ℕ → ℕ) → (rd rs1 imm : ℕ) → Type 0 where
  is_lb : (rd rs1 imm : ℕ) → Load (lb rd rs1 imm) 1 (λ v. sext v 7) rd rs1 imm
  is_lh : (rd rs1 imm : ℕ) → Load (lh rd rs1 imm) 2 (λ v. sext v 15) rd rs1 imm
  is_lw : (rd rs1 imm : ℕ) → Load (lw rd rs1 imm) 4 (λ v. sext v 31) rd rs1 imm
  is_ld : (rd rs1 imm : ℕ) → Load (ld rd rs1 imm) 8 (λ v. v) rd rs1 imm
  is_lbu : (rd rs1 imm : ℕ) → Load (lbu rd rs1 imm) 1 (λ v. v) rd rs1 imm
  is_lhu : (rd rs1 imm : ℕ) → Load (lhu rd rs1 imm) 2 (λ v. v) rd rs1 imm
  is_lwu : (rd rs1 imm : ℕ) → Load (lwu rd rs1 imm) 4 (λ v. v) rd rs1 imm

pub data Store : Instruction → (width rs1 rs2 imm : ℕ) → Type 0 where
  is_sb : (rs1 rs2 imm : ℕ) → Store (sb rs1 rs2 imm) 1 rs1 rs2 imm
  is_sh : (rs1 rs2 imm : ℕ) → Store (sh rs1 rs2 imm) 2 rs1 rs2 imm
  is_sw : (rs1 rs2 imm : ℕ) → Store (sw rs1 rs2 imm) 4 rs1 rs2 imm
  is_sd : (rs1 rs2 imm : ℕ) → Store (sd rs1 rs2 imm) 8 rs1 rs2 imm

low_8 : (x : ℕ) → sext (x % 2 ^ 8) 7 ≡ sext x 7
unfolding sext
low_8 x = ap (λ t. asr64 t 56) (omega arith)

low_16 : (x : ℕ) → sext (x % 2 ^ 16) 15 ≡ sext x 15
unfolding sext
low_16 x = ap (λ t. asr64 t 48) (omega arith)

module _ {F : Type 0} (D : Disk F) (rounds clobbered : ℕ) (c d : Cpu F) where
  spread-Simulates :
      (code : List Op) (bits rd v : ℕ)
      → ((x : ℕ) → sext (x % 2 ^ bits) (bits - 1) ≡ sext x (bits - 1))
      → Simulates D rounds clobbered code c (set_reg d rd v)
      → Simulates D rounds clobbered (code ++ spread bits rd) c (set_reg d rd (sext v (bits - 1)))
  spread-Simulates code bits rd v low h w st =
      let (w1, k) = h w st in
      let (w2, j) = spread-Leads D rounds clobbered d bits rd v w1 st low in
      (w2, Leads-append D rounds clobbered code (spread bits rd) _ _ _ k j)

  Leaves-append :
      (code more : List Op) (next : ℕ)
      → Leaves D rounds clobbered code c d next
      → Leaves D rounds clobbered (code ++ more) c d next
  Leaves-append code more next h w x v14 v15 st =
      let (w', (e, k)) = h w x v14 v15 st in
      (
        w',
        (
          e,
          λ rest.
              ap (λ ops. run D rounds clobbered ops (inside c w (x ∷ v14 ∷ v15 ∷ st)))
                (append_assoc code more rest)
              ∙ k (more ++ rest),
        ),
      )

module _ {F : Type 0} (D : Disk F) (rounds clobbered : ℕ) (fl : Floats) (c d : Cpu F)
    (zero_kept : ZeroKept c) (same_mode : ls_mode c ≡ c.mode) (guest_pc width rs1 imm : ℕ)
    (imm_wide : sext (u32 imm) 31 ≡ imm)
    (one_page : leb (page_offset (effective c rs1 imm) + width) 0x1000 ≡ true) where
  load_runs :
      (extend : ℕ → ℕ) (rd v : ℕ)
      → mmu_load D rounds (ls_mode c) (effective c rs1 imm) width c ≡ (d, ok v)
      → load_integer D rounds width extend rd rs1 imm (at c guest_pc)
        ≡ (at (set_reg d rd (extend v)) (wrapping_add guest_pc 4), ok tt)
  unfolding load_integer settle ls_mode reg write
  load_runs extend rd v k =
      rw (load_at D rounds guest_pc c _ width _ one_page, k) (writes d guest_pc rd (extend v))

  load_calls :
      (r : Exit MmuFault ℕ)
      → mmu_load D rounds (ls_mode c) (effective c rs1 imm) width c ≡ (d, r)
      → jit_load D rounds width (effective c rs1 imm) c ≡ (d, sentinel r)
  load_calls r k =
      (callouts_agree D rounds c (effective c rs1 imm) width 0 one_page same_mode).0
      ∙ ap (λ (o : Cpu F × Exit MmuFault ℕ). (o.0, sentinel o.1)) k

  load_simulates :
      (rd v : ℕ)
      → mmu_load D rounds (ls_mode c) (effective c rs1 imm) width c ≡ (d, ok v)
      → (v == max_u64) ≡ false
      → Simulates D rounds clobbered (emit_load rd rs1 imm width guest_pc) c (set_reg d rd v)
  load_simulates rd v k n =
      load-Simulates D rounds clobbered c d zero_kept rd rs1 imm width guest_pc v imm_wide
        (load_calls (ok v) k) n

  stored_calls :
      (rs2 : ℕ) (r : Exit MmuFault (Unit {0}))
      → mmu_store D rounds (ls_mode c) (effective c rs1 imm) width (reg c rs2) c ≡ (d, r)
      → jit_store D rounds width (effective c rs1 imm) (reg c rs2) c ≡ (d, store_code r)
  stored_calls rs2 r k =
      (callouts_agree D rounds c (effective c rs1 imm) width (reg c rs2) one_page same_mode).1
      ∙ ap (λ (o : Cpu F × Exit MmuFault (Unit {0})). (o.0, store_code o.1)) k

  store_agrees :
      (rs2 : ℕ)
      → mmu_store D rounds (ls_mode c) (effective c rs1 imm) width (reg c rs2) c ≡ (d, ok tt)
      → (store_integer D rounds width rs1 rs2 imm (at c guest_pc)
          ≡ (at d (wrapping_add guest_pc 4), ok tt))
        × Simulates D rounds clobbered (emit_store rs1 rs2 imm width guest_pc) c d
  unfolding store_integer settle ls_mode reg
  store_agrees rs2 k = (
    rw (store_at D rounds guest_pc c _ width _ _ one_page, k) refl,
    store-Simulates D rounds clobbered c d zero_kept rs1 rs2 imm width guest_pc imm_wide
        (stored_calls rs2 (ok tt) k),
  )

module _ {F : Type 0} (D : Disk F) (rounds clobbered : ℕ) (fl : Floats) (c d : Cpu F)
    (zero_kept : ZeroKept c) (same_mode : ls_mode c ≡ c.mode) (guest_pc : ℕ) where
  load_leaves :
      (width rd rs1 imm : ℕ) (r : Exit MmuFault ℕ)
      → sext (u32 imm) 31 ≡ imm
      → leb (page_offset (effective c rs1 imm) + width) 0x1000 ≡ true
      → mmu_load D rounds (ls_mode c) (effective c rs1 imm) width c ≡ (d, r)
      → sentinel r ≡ ok max_u64
      → Leaves D rounds clobbered
          (emit_load rd rs1 imm width guest_pc)
          c
          (record d { pc = guest_pc })
          max_u64
  load_leaves width rd rs1 imm r h p k e =
      load-Leaves D rounds clobbered c d zero_kept rd rs1 imm width guest_pc h (
        load_calls D rounds clobbered fl c d zero_kept same_mode guest_pc width rs1 imm h p r k
        ∙ ap (λ o. (d, o)) e)

  -- For every integer load on one page, with an offset that is the sign extension of its low 32
  -- bits, where x0 holds 0 and MPRV does not change the mode of loads: if the interpreter's access
  -- gives a value other than 2^64 - 1, then the interpreter ends at the next instruction with the
  -- value, extended as the instruction says, in the register, and the compiled code brings the host
  -- into the same hart, but for the program counter and the size of the last instruction, which it
  -- does not keep up.
  pub loads_agree :
      (i : Instruction) (width : ℕ) (extend : ℕ → ℕ) (rd rs1 imm v : ℕ)
      → Load i width extend rd rs1 imm
      → sext (u32 imm) 31 ≡ imm
      → leb (page_offset (effective c rs1 imm) + width) 0x1000 ≡ true
      → mmu_load D rounds (ls_mode c) (effective c rs1 imm) width c ≡ (d, ok v)
      → (v == max_u64) ≡ false
      → (execute D rounds fl i (at c guest_pc)
          ≡ (at (set_reg d rd (extend v)) (wrapping_add guest_pc 4), ok tt))
        × Simulates D rounds clobbered (emit i guest_pc).0 c (set_reg d rd (extend v))
  unfolding execute emit emit_words emit_divisions emit_memory emit_jumps
  loads_agree _ _ _ _ _ _ v (is_lb rd rs1 imm) h p k n = (
    load_runs D rounds clobbered fl c d zero_kept same_mode guest_pc 1 rs1 imm h p _ rd v k,
    spread-Simulates D rounds clobbered c d _ 8 rd v low_8 (
        load_simulates D rounds clobbered fl c d zero_kept same_mode guest_pc 1 rs1 imm h p rd v k
          n),
  )
  loads_agree _ _ _ _ _ _ v (is_lh rd rs1 imm) h p k n = (
    load_runs D rounds clobbered fl c d zero_kept same_mode guest_pc 2 rs1 imm h p _ rd v k,
    spread-Simulates D rounds clobbered c d _ 16 rd v low_16 (
        load_simulates D rounds clobbered fl c d zero_kept same_mode guest_pc 2 rs1 imm h p rd v k
          n),
  )
  loads_agree _ _ _ _ _ _ v (is_lw rd rs1 imm) h p k n = (
    load_runs D rounds clobbered fl c d zero_kept same_mode guest_pc 4 rs1 imm h p _ rd v k,
    spread-Simulates D rounds clobbered c d _ 32 rd v sext-u32 (
        load_simulates D rounds clobbered fl c d zero_kept same_mode guest_pc 4 rs1 imm h p rd v k
          n),
  )
  loads_agree _ _ _ _ _ _ v (is_ld rd rs1 imm) h p k n = (
    load_runs D rounds clobbered fl c d zero_kept same_mode guest_pc 8 rs1 imm h p _ rd v k,
    load_simulates D rounds clobbered fl c d zero_kept same_mode guest_pc 8 rs1 imm h p rd v k n,
  )
  loads_agree _ _ _ _ _ _ v (is_lbu rd rs1 imm) h p k n = (
    load_runs D rounds clobbered fl c d zero_kept same_mode guest_pc 1 rs1 imm h p _ rd v k,
    load_simulates D rounds clobbered fl c d zero_kept same_mode guest_pc 1 rs1 imm h p rd v k n,
  )
  loads_agree _ _ _ _ _ _ v (is_lhu rd rs1 imm) h p k n = (
    load_runs D rounds clobbered fl c d zero_kept same_mode guest_pc 2 rs1 imm h p _ rd v k,
    load_simulates D rounds clobbered fl c d zero_kept same_mode guest_pc 2 rs1 imm h p rd v k n,
  )
  loads_agree _ _ _ _ _ _ v (is_lwu rd rs1 imm) h p k n = (
    load_runs D rounds clobbered fl c d zero_kept same_mode guest_pc 4 rs1 imm h p _ rd v k,
    load_simulates D rounds clobbered fl c d zero_kept same_mode guest_pc 4 rs1 imm h p rd v k n,
  )

  -- For every integer store on one page, with an offset that is the sign extension of its low 32
  -- bits, where x0 holds 0 and MPRV does not change the mode of stores: if the interpreter's access
  -- succeeds, then the interpreter ends at the next instruction, and the compiled code brings the
  -- host into the same hart, but for the program counter and the size of the last instruction,
  -- which it does not keep up.
  pub stores_agree :
      (i : Instruction) (width rs1 rs2 imm : ℕ)
      → Store i width rs1 rs2 imm
      → sext (u32 imm) 31 ≡ imm
      → leb (page_offset (effective c rs1 imm) + width) 0x1000 ≡ true
      → mmu_store D rounds (ls_mode c) (effective c rs1 imm) width (reg c rs2) c ≡ (d, ok tt)
      → (execute D rounds fl i (at c guest_pc) ≡ (at d (wrapping_add guest_pc 4), ok tt))
        × Simulates D rounds clobbered (emit i guest_pc).0 c d
  unfolding execute emit emit_words emit_divisions emit_memory emit_jumps
  stores_agree _ _ _ _ _ (is_sb rs1 rs2 imm) h p k =
      store_agrees D rounds clobbered fl c d zero_kept same_mode guest_pc 1 rs1 imm h p rs2 k
  stores_agree _ _ _ _ _ (is_sh rs1 rs2 imm) h p k =
      store_agrees D rounds clobbered fl c d zero_kept same_mode guest_pc 2 rs1 imm h p rs2 k
  stores_agree _ _ _ _ _ (is_sw rs1 rs2 imm) h p k =
      store_agrees D rounds clobbered fl c d zero_kept same_mode guest_pc 4 rs1 imm h p rs2 k
  stores_agree _ _ _ _ _ (is_sd rs1 rs2 imm) h p k =
      store_agrees D rounds clobbered fl c d zero_kept same_mode guest_pc 8 rs1 imm h p rs2 k

  -- For every integer load on one page, with an offset that is the sign extension of its low 32
  -- bits, where x0 holds 0 and MPRV does not change the mode of loads: if the interpreter's access
  -- traps, or gives 2^64 - 1, then the compiled code returns 2^64 - 1 with the hart that the access
  -- leaves, put at the instruction, and with the caller's r14, r15 and stack.
  pub load_falls_back :
      (i : Instruction) (width : ℕ) (extend : ℕ → ℕ) (rd rs1 imm : ℕ) (r : Exit MmuFault ℕ)
      → Load i width extend rd rs1 imm
      → sext (u32 imm) 31 ≡ imm
      → leb (page_offset (effective c rs1 imm) + width) 0x1000 ≡ true
      → mmu_load D rounds (ls_mode c) (effective c rs1 imm) width c ≡ (d, r)
      → sentinel r ≡ ok max_u64
      → Leaves D rounds clobbered (emit i guest_pc).0 c (record d { pc = guest_pc }) max_u64
  unfolding emit emit_words emit_divisions emit_memory emit_jumps
  load_falls_back _ _ _ _ _ _ r (is_lb rd rs1 imm) h p k e =
      Leaves-append D rounds clobbered c (record d { pc = guest_pc }) _ _ max_u64
        (load_leaves 1 rd rs1 imm r h p k e)
  load_falls_back _ _ _ _ _ _ r (is_lh rd rs1 imm) h p k e =
      Leaves-append D rounds clobbered c (record d { pc = guest_pc }) _ _ max_u64
        (load_leaves 2 rd rs1 imm r h p k e)
  load_falls_back _ _ _ _ _ _ r (is_lw rd rs1 imm) h p k e =
      Leaves-append D rounds clobbered c (record d { pc = guest_pc }) _ _ max_u64
        (load_leaves 4 rd rs1 imm r h p k e)
  load_falls_back _ _ _ _ _ _ r (is_ld rd rs1 imm) h p k e = load_leaves 8 rd rs1 imm r h p k e
  load_falls_back _ _ _ _ _ _ r (is_lbu rd rs1 imm) h p k e = load_leaves 1 rd rs1 imm r h p k e
  load_falls_back _ _ _ _ _ _ r (is_lhu rd rs1 imm) h p k e = load_leaves 2 rd rs1 imm r h p k e
  load_falls_back _ _ _ _ _ _ r (is_lwu rd rs1 imm) h p k e = load_leaves 4 rd rs1 imm r h p k e

  store_leaves :
      (width rs1 rs2 imm : ℕ) (r : Exit MmuFault (Unit {0}))
      → sext (u32 imm) 31 ≡ imm
      → leb (page_offset (effective c rs1 imm) + width) 0x1000 ≡ true
      → mmu_store D rounds (ls_mode c) (effective c rs1 imm) width (reg c rs2) c ≡ (d, r)
      → store_code r ≡ ok max_u64
      → Leaves D rounds clobbered
          (emit_store rs1 rs2 imm width guest_pc)
          c
          (record d { pc = guest_pc })
          max_u64
  store_leaves width rs1 rs2 imm r h p k e =
      store-Leaves D rounds clobbered c d zero_kept rs1 rs2 imm width guest_pc h (
        stored_calls D rounds clobbered fl c d zero_kept same_mode guest_pc width rs1 imm h p rs2 r
          k
        ∙ ap (λ o. (d, o)) e)

  -- For every integer store on one page, with an offset that is the sign extension of its low 32
  -- bits, where x0 holds 0 and MPRV does not change the mode of stores: if the interpreter's access
  -- traps, then the compiled code returns 2^64 - 1 with the hart that the access leaves, put at the
  -- instruction, and with the caller's r14, r15 and stack.
  pub store_falls_back :
      (i : Instruction) (width rs1 rs2 imm : ℕ) (r : Exit MmuFault (Unit {0}))
      → Store i width rs1 rs2 imm
      → sext (u32 imm) 31 ≡ imm
      → leb (page_offset (effective c rs1 imm) + width) 0x1000 ≡ true
      → mmu_store D rounds (ls_mode c) (effective c rs1 imm) width (reg c rs2) c ≡ (d, r)
      → store_code r ≡ ok max_u64
      → Leaves D rounds clobbered (emit i guest_pc).0 c (record d { pc = guest_pc }) max_u64
  unfolding emit emit_words emit_divisions emit_memory emit_jumps
  store_falls_back _ _ _ _ _ r (is_sb rs1 rs2 imm) h p k e = store_leaves 1 rs1 rs2 imm r h p k e
  store_falls_back _ _ _ _ _ r (is_sh rs1 rs2 imm) h p k e = store_leaves 2 rs1 rs2 imm r h p k e
  store_falls_back _ _ _ _ _ r (is_sw rs1 rs2 imm) h p k e = store_leaves 4 rs1 rs2 imm r h p k e
  store_falls_back _ _ _ _ _ r (is_sd rs1 rs2 imm) h p k e = store_leaves 8 rs1 rs2 imm r h p k e
