-- ===== src/Jit/Division.antt =====
-- The compiled divisions of src/jit.rs against what the interpreter computes.
use mathlib.Core.Path.{ap₂}
use native.Mathlib.Nat.{div-le_self}
use risc_v_business.Base.{
  ℕ, ◌+◌, ◌-◌, ◌*◌, ◌/◌, ◌%◌, ◌^◌, ◌<◌, ◌≡◌, refl, ◌∙◌, Bool-cases, inl, inr, false, ◌==◌, leb, [],
  ◌∷◌, arith, u32, u64, max_u64, bit_xor, bit_xor_self, some, none,
}
use risc_v_business.VirtioBlk.{Disk}
use risc_v_business.Cpu.{Cpu}
use risc_v_business.Execute.Alu.{
  sext, widen, quotient, remainder, div_value, rem_value, divu_value, remu_value,
}
use risc_v_business.Execute.Widening.{dividend, idiv-fits, idiv-quotient, idiv-remainder}
use risc_v_business.Jit.Asm.{
  rax, rdx, Scratch, mov, mov_imm, compared, w32, w64, binary, Binary, Operand, div_rcx,
}
use risc_v_business.Jit.Asm.Run.{step, run}
use risc_v_business.Jit.Emit.{unsigned_division, guarded_division}
use risc_v_business.Jit.Shapes.{Computes}

-- The dividend of `div` , after `xor rdx, rdx`.
zero_extended : (x r : ℕ) → bit_xor x x * 2 ^ 64 + r ≡ r
zero_extended x r = omega (arith, bit_xor_self x)

quotient_small : (a b : ℕ) → a < 2 ^ 64 → leb (2 ^ 64) (a / b) ≡ false
quotient_small a b h = ground (arith, h, div-le_self a b)

module _ {F : Type 0} (D : Disk F) (rounds clobbered : ℕ) (c : Cpu F) (a b : ℕ) (ha : a < 2 ^ 64)
    (hb : b < 2 ^ 64) where
  pub divu-Computes :
      Computes D rounds clobbered c
        (unsigned_division w64
          (mov_imm rax max_u64 ∷ [])
          (binary Binary.xor w64 rdx (Operand.reg rdx) ∷ div_rcx ∷ []))
        a
        b
        (divu_value a b)
  unfolding run step divu_value
  divu-Computes w st e f = elim (Bool-cases (w.rcx == 0)) [
    | inl t ↦ (
      record w { rax = max_u64; flags = some (compared w.rcx 0) },
      (ground (arith, t, f), record { leads = λ rest. rw t refl }),
    )
    | inr t ↦
        let x = zero_extended w.rdx w.rax in
        let g = quotient_small w.rax w.rcx (omega (arith, ha, e)) in
        (
          record w { rax = w.rax / w.rcx; rdx = w.rax % w.rcx; flags = none },
          (
            ap₂ (λ x y. x / y) e f ∙ ground (arith, t, f),
            record { leads = λ rest. rw (t, x, g) refl },
          ),
        )
  ]

  pub div-Computes :
      Computes D rounds clobbered c
        (guarded_division (2 ^ 63) (mov_imm rax max_u64 ∷ []) [] [])
        a
        b
        (div_value a b)
  unfolding run step div_value
  div-Computes w st e f = elim (Bool-cases (w.rcx == 0)) [
    | inl t ↦ (
      record w { rax = max_u64; flags = some (compared w.rcx 0) },
      (ground (arith, t, f), record { leads = λ rest. rw t refl }),
    )
    | inr t ↦
        let sx : sext (2 ^ 32 - 1) 31 ≡ max_u64 = unfold sext in refl in
        let la : w.rax < 2 ^ 64 = omega (arith, ha, e) in
        let lb : w.rcx < 2 ^ 64 = omega (arith, hb, f) in
        let fit = idiv-fits w.rax w.rcx la lb t in
        let w' : Scratch = record w {
          rax = u64 (quotient 128 (dividend w.rax) (widen w.rcx));
          rdx = u64 (remainder 128 (dividend w.rax) (widen w.rcx));
          flags = none;
        } in
        let value : quotient 64 w.rax w.rcx ≡ quotient 64 a b = ap₂ (λ x y. quotient 64 x y) e f in
        let whole = idiv-quotient w.rax w.rcx la lb t in
        elim (Bool-cases (w.rax == 2 ^ 63)) [
          | inl m ↦ elim (Bool-cases (w.rcx == max_u64)) [
            | inl o ↦ (
              record w { rdx = 2 ^ 63; flags = some (compared w.rcx (sext (2 ^ 32 - 1) 31)) },
              (ground (arith, t, m, o, e, f), record { leads = λ rest. rw (t, m, sx, o) refl }),
            )
            | inr o ↦
                let g = fit (ground (arith, o)) in
                (
                  w',
                  (
                    whole ∙ (value ∙ ground (arith, t, o, f)),
                    record { leads = λ rest. rw (t, m, sx, o, g) refl },
                  ),
                )
          ]
          | inr m ↦
              let g = fit (ground (arith, m)) in
              (
                w',
                (
                  whole ∙ (value ∙ ground (arith, t, m, e, f)),
                  record { leads = λ rest. rw (t, m, g) refl },
                ),
              )
        ]
  ]

  pub rem-Computes :
      Computes D rounds clobbered c
        (guarded_division
          (2 ^ 63)
          []
          (binary Binary.xor w32 rax (Operand.reg rax) ∷ [])
          (mov rax rdx ∷ []))
        a
        b
        (rem_value a b)
  unfolding run step rem_value
  rem-Computes w st e f = elim (Bool-cases (w.rcx == 0)) [
    | inl t ↦ (
      record w { flags = some (compared w.rcx 0) },
      (ground (arith, t, e, f), record { leads = λ rest. rw t refl }),
    )
    | inr t ↦
        let sx : sext (2 ^ 32 - 1) 31 ≡ max_u64 = unfold sext in refl in
        let la : w.rax < 2 ^ 64 = omega (arith, ha, e) in
        let lb : w.rcx < 2 ^ 64 = omega (arith, hb, f) in
        let fit = idiv-fits w.rax w.rcx la lb t in
        let w' : Scratch = record w {
          rax = u64 (remainder 128 (dividend w.rax) (widen w.rcx));
          rdx = u64 (remainder 128 (dividend w.rax) (widen w.rcx));
          flags = none;
        } in
        let value : remainder 64 w.rax w.rcx ≡ remainder 64 a b =
          ap₂ (λ x y. remainder 64 x y) e f in
        let whole = idiv-remainder w.rax w.rcx la lb t in
        elim (Bool-cases (w.rax == 2 ^ 63)) [
          | inl m ↦ elim (Bool-cases (w.rcx == max_u64)) [
            | inl o ↦ (
              record w { rax = bit_xor (u32 w.rax) (u32 w.rax); rdx = 2 ^ 63; flags = none },
              (
                bit_xor_self _ ∙ ground (arith, t, m, o, e, f),
                record { leads = λ rest. rw (t, m, sx, o) refl },
              ),
            )
            | inr o ↦
                let g = fit (ground (arith, o)) in
                (
                  w',
                  (
                    whole ∙ (value ∙ ground (arith, t, o, f)),
                    record { leads = λ rest. rw (t, m, sx, o, g) refl },
                  ),
                )
          ]
          | inr m ↦
              let g = fit (ground (arith, m)) in
              (
                w',
                (
                  whole ∙ (value ∙ ground (arith, t, m, e, f)),
                  record { leads = λ rest. rw (t, m, g) refl },
                ),
              )
        ]
  ]

  pub remu-Computes :
      Computes D rounds clobbered c
        (unsigned_division w64 []
          (binary Binary.xor w64 rdx (Operand.reg rdx) ∷ div_rcx ∷ mov rax rdx ∷ []))
        a
        b
        (remu_value a b)
  unfolding run step remu_value
  remu-Computes w st e f = elim (Bool-cases (w.rcx == 0)) [
    | inl t ↦ (
      record w { flags = some (compared w.rcx 0) },
      (ground (arith, t, e, f), record { leads = λ rest. rw t refl }),
    )
    | inr t ↦
        let x = zero_extended w.rdx w.rax in
        let g = quotient_small w.rax w.rcx (omega (arith, ha, e)) in
        (
          record w { rax = w.rax % w.rcx; rdx = w.rax % w.rcx; flags = none },
          (
            ap₂ (λ x y. x % y) e f ∙ ground (arith, t, f),
            record { leads = λ rest. rw (t, x, g) refl },
          ),
        )
  ]
