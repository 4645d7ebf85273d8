-- ===== src/Jit/Chain.antt =====
-- The code of a block against the instructions of the guest, src/jit.rs.
use risc_v_business.Base.{
  ℕ, zero, suc, ◌≤◌, ◌<◌, ◌≡◌, refl, arith, not, Bool-cases, inl, inr, true, false, ◌==◌, leb, ◌+◌,
  if◌then◌else◌, List, ◌++◌, bit_and, u16, wrapping_add, Run, Exit, ok, err, panic, hang, proceed,
  return,
}
use risc_v_business.VirtioBlk.{Disk}
use risc_v_business.Mmu.{fetch, MmuFault}
use risc_v_business.Decode.{Decoded, Instruction, IllegalInstruction}
use risc_v_business.Decode.Full.{decode}
use risc_v_business.Cpu.{Cpu}
use risc_v_business.Execute.{trap, translate, bus_load}
use risc_v_business.Jit.Asm.{Op}
use risc_v_business.Jit.Emit.{Effect, seq, terminal, unhandled, emit_return}
use risc_v_business.Jit.Arms.{emit}
use risc_v_business.Jit.Compressed.{emit_rvc}
use risc_v_business.Jit.Compile.{
  max_block, Written, block_exit, on_ok, continued, decoded, compile_from, prefixed, unless_full,
}
use risc_v_business.Jit.Returns.{Holds, on_ok-Holds, if-Holds}

-- The code of the instruction with the word `raw` at `pc`, and its size.
pub data Emits (pc raw : ℕ) : ℕ → List Op × Effect → Type 0 where
  compressed : (bit_and raw 3 == 3) ≡ false → Emits pc raw 2 (emit_rvc (u16 raw) pc)
  uncompressed :
      (i : Instruction)
      → (bit_and raw 3 == 3) ≡ true
      → decode raw ≡ ok i
      → Emits pc raw 4 (emit i pc)

module _ {F : Type 0} (D : Disk F) (rounds : ℕ) where
  -- The word at `pc`, and the state in which reading it leaves the hart.
  pub record Fetches (pc : ℕ) (c : Cpu F) (raw : ℕ) (d : Cpu F) : Type 0 where
    pub pa : ℕ
    pub between : Cpu F
    pub translated : translate D rounds fetch c.mode pc c ≡ (between, ok pa)
    pub loaded : bus_load pa 4 (trap 1 pc) between ≡ (d, ok raw)

  -- Why there is no instruction at `pc`.
  pub data Refuses (pc : ℕ) (c : Cpu F) : Type 0 where
    untranslated :
        (d : Cpu F) (f : MmuFault)
        → translate D rounds fetch c.mode pc c ≡ (d, err f)
        → Refuses pc c
    unmapped :
        (pa : ℕ) (d e : Cpu F) (f : MmuFault)
        → translate D rounds fetch c.mode pc c ≡ (d, ok pa)
        → bus_load pa 4 (trap 1 pc) d ≡ (e, err f)
        → Refuses pc c
    undecoded :
        (raw : ℕ) (d : Cpu F) (e : IllegalInstruction)
        → Fetches pc c raw d
        → (bit_and raw 3 == 3) ≡ true
        → decode raw ≡ err e
        → Refuses pc c

  -- The code of the rest of a block that has `count` instructions before `pc`, and the number of
  -- instructions at its end: one piece of code for each instruction, in the order of the addresses,
  -- up to the first that is not there, cannot be compiled or jumps, and to the 128th at most.
  pub data Chain : (count pc : ℕ) → Cpu F → List Op → ℕ → Type 0 where
    refused :
        (count pc : ℕ) (c : Cpu F) → Refuses pc c → Chain count pc c (block_exit count pc) count
    uncompiled :
        (count pc raw size : ℕ) (c d : Cpu F) (code : List Op)
        → Fetches pc c raw d
        → Emits pc raw size (code, unhandled)
        → Chain count pc c (code ++ block_exit count pc) count
    jumped :
        (count pc raw size : ℕ) (c d : Cpu F) (code : List Op)
        → Fetches pc c raw d
        → Emits pc raw size (code, terminal)
        → Chain count pc c code (count + 1)
    full :
        (count pc raw size : ℕ) (c d : Cpu F) (code : List Op)
        → Fetches pc c raw d
        → Emits pc raw size (code, seq)
        → 128 ≤ count + 1
        → Chain count pc c (code ++ emit_return (wrapping_add pc size)) (count + 1)
    more :
        (count pc raw size n : ℕ) (c d : Cpu F) (code rest : List Op)
        → Fetches pc c raw d
        → Emits pc raw size (code, seq)
        → count + 1 < 128
        → Chain (count + 1) (wrapping_add pc size) d rest n
        → Chain count pc c (code ++ rest) n

  abbrev pub IsChain : (count pc : ℕ) → Cpu F → Written → Type 0
  IsChain count pc c w = Chain count pc c w.0 w.1

  pub Chain-le :
      (count pc n : ℕ) (c : Cpu F) (code : List Op)
      → count < 128
      → Chain count pc c code n
      → n ≤ 128
  Chain-le count pc n c code h (refused _ _ _ _) = omega (arith, h)
  Chain-le count pc n c code h (uncompiled _ _ _ _ _ _ _ _ _) = omega (arith, h)
  Chain-le count pc n c code h (jumped _ _ _ _ _ _ _ _ _) = omega (arith, h)
  Chain-le count pc n c code h (full _ _ _ _ _ _ _ _ _ _) = omega (arith, h)
  Chain-le count pc n c code h (more _ pc' _ size _ _ d _ rest _ _ k r) =
      Chain-le (count + 1) (wrapping_add pc' size) n d rest k r

  more-Holds :
      (count pc raw size : ℕ) (c d e : Cpu F) (code : List Op) (r : Exit ⊥ Written)
      → Fetches pc c raw d
      → Emits pc raw size (code, seq)
      → count + 1 < 128
      → Holds (IsChain (count + 1) (wrapping_add pc size) d) r
      → Holds (IsChain count pc c) (proceed (λ (w : Written). return (code ++ w.0, w.1)) e r).1
  more-Holds count pc raw size c d e code (ok w) hf he h k =
      more count pc raw size w.1 c d code w.0 hf he h k
  more-Holds count pc raw size c d e code (err x) hf he h k = tt
  more-Holds count pc raw size c d e code panic hf he h k = tt
  more-Holds count pc raw size c d e code hang hf he h k = tt

  seq-Holds :
      (count pc raw size : ℕ) (c d : Cpu F) (code : List Op) (rest : Run (Cpu F) ⊥ Written)
      → Fetches pc c raw d
      → Emits pc raw size (code, seq)
      → Holds (IsChain (count + 1) (wrapping_add pc size) d) (rest d).1
      → Holds
          (IsChain count pc c)
          (prefixed code (unless_full count (wrapping_add pc size) rest) d).1
  seq-Holds count pc raw size c d code rest hf he k =
      elim (Bool-cases (leb max_block (count + 1))) [
        | inl t ↦ rw t (full count pc raw size c d code hf he (ground (arith, t)))
        | inr t ↦ rw t (
            more-Holds count pc raw size c d (rest d).0 code (rest d).1 hf he (ground (arith, t)) k)
      ]

  continued-Holds :
      (piece : List Op × Effect) (count pc raw size : ℕ) (c d : Cpu F)
      (rest : Run (Cpu F) ⊥ Written)
      → Fetches pc c raw d
      → Emits pc raw size piece
      → Holds (IsChain (count + 1) (wrapping_add pc size) d) (rest d).1
      → Holds
          (IsChain count pc c)
          (continued piece count pc (unless_full count (wrapping_add pc size) rest) d).1
  continued-Holds (code, seq) count pc raw size c d rest hf he k =
      seq-Holds count pc raw size c d code rest hf he k
  continued-Holds (code, terminal) count pc raw size c d rest hf he k =
      jumped count pc raw size c d code hf he
  continued-Holds (code, unhandled) count pc raw size c d rest hf he k =
      uncompiled count pc raw size c d code hf he

  decoded-Holds :
      (r : Decoded) (count pc raw : ℕ) (c d : Cpu F) (rest : Run (Cpu F) ⊥ Written)
      → Fetches pc c raw d
      → (bit_and raw 3 == 3) ≡ true
      → decode raw ≡ r
      → Holds (IsChain (count + 1) (wrapping_add pc 4) d) (rest d).1
      → Holds
          (IsChain count pc c)
          (decoded r count pc (unless_full count (wrapping_add pc 4) rest) d).1
  decoded-Holds (ok i) count pc raw c d rest hf h e k =
      continued-Holds (emit i pc) count pc raw 4 c d rest hf (uncompressed i h e) k
  decoded-Holds (err x) count pc raw c d rest hf h e k =
      refused count pc c (undecoded raw d x hf h e)
  decoded-Holds panic count pc raw c d rest hf h e k = tt
  decoded-Holds hang count pc raw c d rest hf h e k = tt

  pub compile_from-IsChain :
      (fuel count pc : ℕ) (c : Cpu F)
      → Holds (IsChain count pc c) (compile_from D rounds fuel count pc c).1
  unfolding compile_from
  compile_from-IsChain zero count pc c = tt
  compile_from-IsChain (suc fuel) count pc c =
      let tr = translate D rounds fetch c.mode pc in
      let ld : ℕ → Run (Cpu F) MmuFault ℕ = λ pa. bus_load pa 4 (trap 1 pc) in
      let P = IsChain count pc c in
      let next_2 = wrapping_add pc 2 in
      let next_4 = wrapping_add pc 4 in
      let by_2 : Run (Cpu F) ⊥ Written = compile_from D rounds fuel (count + 1) next_2 in
      let by_4 : Run (Cpu F) ⊥ Written = compile_from D rounds fuel (count + 1) next_4 in
      let leave : Run (Cpu F) ⊥ Written = return (block_exit count pc, count) in
      let short : ℕ → Run (Cpu F) ⊥ Written =
        λ raw. continued (emit_rvc (u16 raw) pc) count pc (unless_full count next_2 by_2) in
      let long : ℕ → Run (Cpu F) ⊥ Written =
        λ raw. decoded (decode raw) count pc (unless_full count next_4 by_4) in
      let either : ℕ → Run (Cpu F) ⊥ Written =
        λ raw. if not (bit_and raw 3 == 3) then short raw else long raw in
      on_ok-Holds P tr leave (λ pa. on_ok (ld pa) leave either) c (tr c).0 (tr c).1 refl
        (λ f e. refused count pc c (untranslated (tr c).0 f e))
        λ pa e.
          on_ok-Holds P (ld pa) leave either (tr c).0 (ld pa (tr c).0).0 (ld pa (tr c).0).1 refl
            (λ f k. refused count pc c (unmapped pa (tr c).0 (ld pa (tr c).0).0 f e k))
            λ raw k.
              let d = (ld pa (tr c).0).0 in
              let hf : Fetches pc c raw d = record {
                pa = pa;
                between = (tr c).0;
                translated = e;
                loaded = k;
              } in
              if-Holds P (bit_and raw 3 == 3) (short raw) (long raw) d
                (λ t.
                  continued-Holds (emit_rvc (u16 raw) pc) count pc raw 2 c d by_2 hf (compressed t)
                    (compile_from-IsChain fuel (count + 1) next_2 d))
                λ t.
                  decoded-Holds (decode raw) count pc raw c d by_4 hf t refl
                    (compile_from-IsChain fuel (count + 1) next_4 d)
