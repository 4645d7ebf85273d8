-- ===== src/Jit/Shapes.antt =====
-- The shapes of the compiled arithmetic of src/jit.rs: what each shape does, given what the operation
-- in it does.
use mathlib.Core.Path.{ap₂}
use risc_v_business.Base.{
  ℕ, ◌-◌, ◌/◌, ◌%◌, ◌^◌, ◌≡◌, refl, ap, ◌∙◌, Bool, Bool-cases, inl, inr, true, false, ◌==◌, List,
  [], ◌∷◌, ◌++◌, set, arith, u32,
}
use risc_v_business.VirtioBlk.{Disk}
use risc_v_business.Cpu.{Cpu, set_reg, reg}
use risc_v_business.Execute.Alu.{sext, as_number}
use risc_v_business.Jit.Asm.{
  Op, rax, rcx, rdx, Binary, binary, Operand, div_rcx, div_ecx, movsx_load, w64, w32, mov_load,
  movsxd, Scratch, Value, set_low_byte, cmp, set_al, Condition, compared, holds, slot, movzx_al,
}
use risc_v_business.Jit.Asm.Run.{step, run}
use risc_v_business.Jit.Emit.{
  off, store_rd, emit_r_op, emit_i_op, emit_w_op, emit_iw_op, emit_constant, against_rs2,
  guarded_division, unsigned_division, signed_64, signed_32, unsigned_64, unsigned_32,
}
use risc_v_business.Jit.Equivalence.{
  ZeroKept, Leads, Leads-append, Simulates, stored-Simulates, slot-reg, inside,
}

pub set_low_byte-low : (x : ℕ) (t : Bool) → set_low_byte x t % 2 ^ 8 ≡ as_number t
set_low_byte-low x true = omega arith
set_low_byte-low x false = omega arith

module _ {F : Type 0} (D : Disk F) (rounds clobbered : ℕ) (c : Cpu F) where
  -- From a state of the host inside the block with these values in rax and rcx, the code leaves the
  -- value in rax and the guest as it is.
  abbrev pub Computes : List Op → (x y v : ℕ) → Type 0
  Computes code x y v =
      (w : Scratch) (st : List Value)
      → w.rax ≡ x
      → w.rcx ≡ y
      → (w' : Scratch) × ((w'.rax ≡ v)
          × Leads D rounds clobbered code (inside c w st) (inside c w' st))

  abbrev pub Gives : List Op → (rd v : ℕ) → Type 0
  Gives code rd v = Simulates D rounds clobbered code c (set_reg c rd v)

  -- Two loads before an operation.
  before :
      (x op : List Op) (rd a b v : ℕ)
      → ((w : Scratch) (st : List Value)
          → (w' : Scratch) × ((w'.rax ≡ a)
              × ((w'.rcx ≡ b) × Leads D rounds clobbered x (inside c w st) (inside c w' st))))
      → Computes op a b v
      → Gives ((x ++ op) ++ store_rd rd) rd v
  before x op rd a b v hx hop = stored-Simulates D rounds clobbered (x ++ op) rd v c λ w st.
      let (w1, (ea, (eb, k))) = hx w st in
      let (w2, (e, j)) = hop w1 st ea eb in
      (w2, (e, Leads-append D rounds clobbered x op _ _ _ k j))

  -- One load before an operation.
  before_one :
      (x op : List Op) (rd a v : ℕ)
      → ((w : Scratch) (st : List Value)
          → (w' : Scratch) × ((w'.rax ≡ a)
              × Leads D rounds clobbered x (inside c w st) (inside c w' st)))
      → ((y : ℕ) → Computes op a y v)
      → Gives ((x ++ op) ++ store_rd rd) rd v
  before_one x op rd a v hx hop = stored-Simulates D rounds clobbered (x ++ op) rd v c λ w st.
      let (w1, (ea, k)) = hx w st in
      let (w2, (e, j)) = hop w1.rcx w1 st ea refl in
      (w2, (e, Leads-append D rounds clobbered x op _ _ _ k j))

  pub constant_op : (rd v : ℕ) → Gives (emit_constant rd v) rd v
  unfolding emit_constant set_reg run step
  constant_op rd v w st = elim (Bool-cases (rd == 0)) [
    | inl t ↦ rw t (w, record { leads = λ rest. refl })
    | inr t ↦ rw t (
      record w { rax = v },
      record {
        leads = λ rest.
            ap
              (λ i.
                run D rounds clobbered rest
                  (inside (record c { regs = set c.regs i v }) (record w { rax = v }) st))
              {x = off rd / 8} {y = rd} (omega arith);
      },
    )
  ]

  module _ (zero_kept : ZeroKept c) where
    pub r_op :
        (rd rs1 rs2 v : ℕ) (op : List Op)
        → Computes op (reg c rs1) (reg c rs2) v
        → Gives (emit_r_op rd rs1 rs2 op) rd v
    unfolding emit_r_op run step
    r_op rd rs1 rs2 v op h =
        before (mov_load w64 rax (off rs1) ∷ mov_load w64 rcx (off rs2) ∷ []) _ rd _ _ v
          (λ w st. (
            _,
            (slot-reg c rs1 zero_kept, (slot-reg c rs2 zero_kept, record { leads = λ rest. refl })),
          ))
          h

    pub i_op :
        (rd rs1 v : ℕ) (op : List Op)
        → ((y : ℕ) → Computes op (reg c rs1) y v)
        → Gives (emit_i_op rd rs1 op) rd v
    unfolding emit_i_op run step
    i_op rd rs1 v op h =
        before_one (mov_load w64 rax (off rs1) ∷ []) _ rd _ v
          (λ w st. (_, (slot-reg c rs1 zero_kept, record { leads = λ rest. refl }))) h

    pub w_op :
        (rd rs1 rs2 v : ℕ) (op : List Op)
        → Computes (op ++ movsxd rax ∷ []) (u32 (reg c rs1)) (u32 (reg c rs2)) v
        → Gives (emit_w_op rd rs1 rs2 op) rd v
    unfolding emit_w_op run step
    w_op rd rs1 rs2 v op h =
        before (mov_load w32 rax (off rs1) ∷ mov_load w32 rcx (off rs2) ∷ []) _ rd _ _ v
          (λ w st. (
            _,
            (
              ap u32 (slot-reg c rs1 zero_kept),
              (ap u32 (slot-reg c rs2 zero_kept), record { leads = λ rest. refl }),
            ),
          ))
          h

    pub iw_op :
        (rd rs1 v : ℕ) (op : Op)
        → ((y : ℕ) → Computes (op ∷ movsxd rax ∷ []) (u32 (reg c rs1)) y v)
        → Gives (emit_iw_op rd rs1 op) rd v
    unfolding emit_iw_op run step
    iw_op rd rs1 v op h =
        before_one (mov_load w32 rax (off rs1) ∷ []) _ rd _ v
          (λ w st. (_, (ap u32 (slot-reg c rs1 zero_kept), record { leads = λ rest. refl }))) h

    pub signed_64-Gives :
        (rd rs1 rs2 v : ℕ) (zero_case overflow divide : List Op)
        → Computes (guarded_division (2 ^ 63) zero_case overflow divide) (reg c rs1) (reg c rs2) v
        → Gives (signed_64 rd rs1 rs2 zero_case overflow divide) rd v
    unfolding signed_64 run step
    signed_64-Gives rd rs1 rs2 v zero_case overflow divide h =
        before (mov_load w64 rax (off rs1) ∷ mov_load w64 rcx (off rs2) ∷ []) _ rd _ _ v
          (λ w st. (
            _,
            (slot-reg c rs1 zero_kept, (slot-reg c rs2 zero_kept, record { leads = λ rest. refl })),
          ))
          h

    pub signed_32-Gives :
        (rd rs1 rs2 v : ℕ) (zero_case overflow divide : List Op)
        → Computes
            (guarded_division (2 ^ 64 - 2 ^ 31) zero_case overflow divide)
            (sext (u32 (reg c rs1)) 31)
            (sext (u32 (reg c rs2)) 31)
            v
        → Gives (signed_32 rd rs1 rs2 zero_case overflow divide) rd v
    unfolding signed_32 run step
    signed_32-Gives rd rs1 rs2 v zero_case overflow divide h =
        before (movsx_load 32 rax (off rs1) ∷ movsx_load 32 rcx (off rs2) ∷ []) _ rd _ _ v
          (λ w st. (
            _,
            (
              ap (λ v. sext (u32 v) 31) (slot-reg c rs1 zero_kept),
              (
                ap (λ v. sext (u32 v) 31) (slot-reg c rs2 zero_kept),
                record { leads = λ rest. refl },
              ),
            ),
          ))
          h

    pub unsigned_64-Gives :
        (rd rs1 rs2 v : ℕ) (zero_case divide : List Op)
        → Computes
            (unsigned_division w64 zero_case
              (binary Binary.xor w64 rdx (Operand.reg rdx) ∷ div_rcx ∷ divide))
            (reg c rs1)
            (reg c rs2)
            v
        → Gives (unsigned_64 rd rs1 rs2 zero_case divide) rd v
    unfolding unsigned_64 run step
    unsigned_64-Gives rd rs1 rs2 v zero_case divide h =
        before (mov_load w64 rax (off rs1) ∷ mov_load w64 rcx (off rs2) ∷ []) _ rd _ _ v
          (λ w st. (
            _,
            (slot-reg c rs1 zero_kept, (slot-reg c rs2 zero_kept, record { leads = λ rest. refl })),
          ))
          h

    pub unsigned_32-Gives :
        (rd rs1 rs2 v : ℕ) (zero_case divide : List Op)
        → Computes
            (unsigned_division w32 zero_case
              (binary Binary.xor w32 rdx (Operand.reg rdx) ∷ div_ecx ∷ divide))
            (u32 (reg c rs1))
            (u32 (reg c rs2))
            v
        → Gives (unsigned_32 rd rs1 rs2 zero_case divide) rd v
    unfolding unsigned_32 run step
    unsigned_32-Gives rd rs1 rs2 v zero_case divide h =
        before (mov_load w32 rax (off rs1) ∷ mov_load w32 rcx (off rs2) ∷ []) _ rd _ _ v
          (λ w st. (
            _,
            (
              ap u32 (slot-reg c rs1 zero_kept),
              (ap u32 (slot-reg c rs2 zero_kept), record { leads = λ rest. refl }),
            ),
          ))
          h

    pub compare_op :
        (cond : Condition) (rd rs1 rs2 : ℕ)
        → Gives
            (against_rs2 cond rd rs1 rs2)
            rd
            (as_number (holds cond (compared (reg c rs1) (reg c rs2))))
    unfolding against_rs2 run step
    compare_op cond rd rs1 rs2 =
        stored-Simulates D rounds clobbered
          (mov_load w64 rax (off rs1) ∷ cmp rax (slot (off rs2)) ∷ set_al cond ∷ movzx_al ∷ []) rd _
          c
          λ w st. (
            _,
            (
              set_low_byte-low _ _
                  ∙ ap₂ (λ x y. as_number (holds cond (compared x y))) (slot-reg c rs1 zero_kept)
                      (slot-reg c rs2 zero_kept),
              record { leads = λ rest. refl },
            ),
          )
