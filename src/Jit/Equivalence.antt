-- ===== src/Jit/Equivalence.antt =====
-- The assembly of src/jit.rs against the interpreter, src/cpu/execute.rs.
use risc_v_business.Base.{
  ℕ, ◌/◌, ◌≡◌, refl, ap, subst, ◌∙◌, Bool-cases, inl, inr, ◌==◌, List, ◌++◌, append_assoc, get_or,
  set, arith,
}
use risc_v_business.VirtioBlk.{Disk}
use risc_v_business.Cpu.{Cpu, set_reg}
use risc_v_business.Cpu
use risc_v_business.Jit.Asm.{Op, Scratch, X64, Value, cpu_ptr, regs_ptr}
use risc_v_business.Jit.Asm.Run.{step, run}
use risc_v_business.Jit.Emit.{off, store_rd}

module _ {F : Type 0} where
  -- The host inside a block.
  abbrev pub inside : Cpu F → Scratch → List Value → X64 F
  inside c w st = record { cpu = c; scratch = w; r14 = cpu_ptr; r15 = regs_ptr; stack = st }

  -- Register x0 holds 0.
  abbrev pub ZeroKept : Cpu F → Type 0
  ZeroKept c = get_or c.regs 0 0 ≡ 0

  -- What the code reads of a register's place is the register.
  pub slot-reg : (c : Cpu F) (r : ℕ) → ZeroKept c → get_or c.regs (off r / 8) 0 ≡ Cpu.reg c r
  unfolding Cpu.reg
  slot-reg c r h = elim (Bool-cases (r == 0)) [
    | inl t ↦ rw t (ap (λ i. get_or c.regs i 0) {x = off r / 8} {y = 0} (ground (arith, t)) ∙ h)
    | inr t ↦ rw t (ap (λ i. get_or c.regs i 0) {x = off r / 8} {y = r} (omega arith))
  ]

  module _ (D : Disk F) (rounds clobbered : ℕ) where
    -- The code, whatever follows it, brings the host from one state to the other.
    pub record Leads (code : List Op) (s t : X64 F) : Type 0 where
      pub leads :
          (rest : List Op) → run D rounds clobbered (code ++ rest) s ≡ run D rounds clobbered rest t

    pub Leads-append :
        (xs ys : List Op) (s t u : X64 F) → Leads xs s t → Leads ys t u → Leads (xs ++ ys) s u
    Leads-append xs ys s t u h k = record {
      leads = λ rest.
          ap (λ code. run D rounds clobbered code s) (append_assoc xs ys rest)
          ∙ (h.leads (ys ++ rest) ∙ k.leads rest);
    }

    pub store_rd-Leads :
        (rd : ℕ) (c : Cpu F) (w : Scratch) (st : List Value)
        → Leads (store_rd rd) (inside c w st) (inside (set_reg c rd w.rax) w st)
    unfolding store_rd set_reg run step
    store_rd-Leads rd c w st = elim (Bool-cases (rd == 0)) [
      | inl t ↦ rw t (record { leads = λ rest. refl })
      | inr t ↦ rw t (record {
        leads = λ rest.
            ap
              (λ i.
                run D rounds clobbered rest (inside (record c { regs = set c.regs i w.rax }) w st))
              {x = off rd / 8} {y = rd} (omega arith);
      })
    ]

    -- The code, from any state of the host inside a block, ends inside it with the hart `d`.
    abbrev pub Simulates : List Op → Cpu F → Cpu F → Type 0
    Simulates code c d =
        (w : Scratch) (st : List Value)
        → (w' : Scratch) × Leads code (inside c w st) (inside d w' st)

    -- Code that leaves a value in rax, and then stores it.
    pub stored-Simulates :
        (code : List Op) (rd v : ℕ) (c : Cpu F)
        → ((w : Scratch) (st : List Value)
            → (w' : Scratch) × ((w'.rax ≡ v) × Leads code (inside c w st) (inside c w' st)))
        → Simulates (code ++ store_rd rd) c (set_reg c rd v)
    stored-Simulates code rd v c h w st =
        let (w', (e, k)) = h w st in
        (
          w',
          Leads-append code (store_rd rd) (inside c w st) (inside c w' st)
              (inside (set_reg c rd v) w' st) k
              (subst (λ x. Leads (store_rd rd) (inside c w' st) (inside (set_reg c rd x) w' st)) e
                (store_rd-Leads rd c w' st)),
        )
