-- ===== src/Jit/WordDivision.antt =====
-- The compiled 32-bit divisions of src/jit.rs against what the interpreter computes.
use mathlib.Core.Path.{ap₂}
use native.Mathlib.Nat.{div-le_self, mod-le}
use risc_v_business.Base.{
  ℕ, ◌+◌, ◌-◌, ◌*◌, ◌/◌, ◌%◌, ◌^◌, ◌<◌, ◌≡◌, refl, sym, ap, ◌∙◌, Bool, Bool-cases, inl, inr, true,
  false, ◌==◌, leb, [], ◌∷◌, arith, u32, u64, max_u64, bit_xor, bit_xor_self, some, none,
}
use risc_v_business.VirtioBlk.{Disk}
use risc_v_business.Cpu.{Cpu}
use risc_v_business.Execute.Alu.{
  sext, widen, quotient, remainder, divw_value, remw_value, divuw_value, remuw_value,
}
use risc_v_business.Execute.Widening.{
  dividend, idiv-fits, idiv-quotient, idiv-remainder, u32-quotient, u32-remainder, quotient-small,
  remainder-small, u32-sext, sext-lt, sext-zero, sext-least, sext-max, sext-least_64,
}
use risc_v_business.Jit.Asm.{
  rax, rdx, Scratch, mov_imm, compared, w32, binary, Binary, Operand, div_ecx, movsxd,
}
use risc_v_business.Jit.Asm.Run.{step, run}
use risc_v_business.Jit.Emit.{unsigned_division, guarded_division}
use risc_v_business.Jit.Shapes.{Computes}

-- A test of the operand, from the same test of the register that holds it.
test_of : {x y : ℕ} {s t : Bool} (p : ℕ → Bool) → x ≡ y → p y ≡ s → p x ≡ t → s ≡ t
test_of p e h k = sym h ∙ (sym (ap p e) ∙ k)

fits_in :
    (a b : ℕ)
    → a < 2 ^ 64
    → b < 2 ^ 64
    → (b == 0) ≡ false
    → (a == 2 ^ 63) ≡ false
    → (widen (u64 (quotient 128 (dividend a) (widen b))) == quotient 128 (dividend a) (widen b))
      ≡ true
fits_in a b ha hb n m = idiv-fits a b ha hb n (ground (arith, m))

-- The dividend of `div` after `xor edx, edx`.
zero_extended : (x r : ℕ) → u32 (bit_xor x x) * 2 ^ 32 + r ≡ r
zero_extended x r = omega (arith, bit_xor_self x)

quotient_small : (a b : ℕ) → a < 2 ^ 32 → leb (2 ^ 32) (a / b) ≡ false
quotient_small a b h = ground (arith, h, div-le_self a b)

u32-quotient_small : (a b : ℕ) → a < 2 ^ 32 → u32 (a / b) ≡ a / b
u32-quotient_small a b h = omega (arith, h, div-le_self a b)

u32-remainder_small : (a b : ℕ) → a < 2 ^ 32 → u32 (a % b) ≡ a % b
u32-remainder_small a b h = omega (arith, h, mod-le a b)

least_value : {x : ℕ} → (x == 2 ^ 64 - 2 ^ 31) ≡ true → x ≡ sext (2 ^ 31) 31
unfolding sext
least_value m = ground (arith, m)

module _ {F : Type 0} (D : Disk F) (rounds clobbered : ℕ) (c : Cpu F) (a b : ℕ) where
  ha : u32 a < 2 ^ 32
  ha = omega arith

  hb : u32 b < 2 ^ 32
  hb = omega arith

  pub divw-Computes :
      Computes D rounds clobbered c
        (guarded_division (2 ^ 64 - 2 ^ 31) (mov_imm rax max_u64 ∷ []) [] (movsxd rax ∷ []))
        (sext (u32 a) 31)
        (sext (u32 b) 31)
        (divw_value a b)
  unfolding run step divw_value
  divw-Computes w st e f = elim (Bool-cases (w.rcx == 0)) [
    | inl t ↦
        let tb = test_of (λ x. x == 0) f (sext-zero (u32 b) hb) t in
        (
          record w { rax = max_u64; flags = some (compared w.rcx 0) },
          (rw tb refl, record { leads = λ rest. rw t refl }),
        )
    | inr t ↦
        let tb = test_of (λ x. x == 0) f (sext-zero (u32 b) hb) t in
        let sx : sext (2 ^ 32 - 1) 31 ≡ max_u64 = unfold sext in refl in
        let la : w.rax < 2 ^ 64 = omega (arith, sext-lt (u32 a) ha, e) in
        let lb : w.rcx < 2 ^ 64 = omega (arith, sext-lt (u32 b) hb, f) in
        let g = fits_in w.rax w.rcx la lb t (ap (λ x. x == 2 ^ 63) e ∙ sext-least_64 (u32 a) ha) in
        let w' : Scratch = record w {
          rax = sext (u32 (u64 (quotient 128 (dividend w.rax) (widen w.rcx)))) 31;
          rdx = u64 (remainder 128 (dividend w.rax) (widen w.rcx));
          flags = none;
        } in
        let whole : sext (u32 (u64 (quotient 128 (dividend w.rax) (widen w.rcx)))) 31
            ≡ sext (quotient 32 (u32 a) (u32 b)) 31 =
          ap (λ x. sext x 31)
            (ap u32 (idiv-quotient w.rax w.rcx la lb t ∙ ap₂ (λ x y. quotient 64 x y) e f)
              ∙ (u32-quotient (u32 a) (u32 b) ha hb ∙ quotient-small (u32 a) (u32 b) ha hb)) in
        elim (Bool-cases (w.rax == 2 ^ 64 - 2 ^ 31)) [
          | inl m ↦
              let ma = test_of (λ x. x == 2 ^ 64 - 2 ^ 31) e (sext-least (u32 a) ha) m in
              elim (Bool-cases (w.rcx == max_u64)) [
                | inl o ↦
                    let ob = test_of (λ x. x == max_u64) f (sext-max (u32 b) hb) o in
                    (
                      record w {
                        rdx = 2 ^ 64 - 2 ^ 31;
                        flags = some (compared w.rcx (sext (2 ^ 32 - 1) 31));
                      },
                      (
                        least_value m ∙ rw (tb, ma, ob) refl,
                        record { leads = λ rest. rw (t, m, sx, o) refl },
                      ),
                    )
                | inr o ↦
                    let ob = test_of (λ x. x == max_u64) f (sext-max (u32 b) hb) o in
                    (
                      w',
                      (
                        whole ∙ rw (tb, ma, ob) refl,
                        record { leads = λ rest. rw (t, m, sx, o, g) refl },
                      ),
                    )
              ]
          | inr m ↦
              let ma = test_of (λ x. x == 2 ^ 64 - 2 ^ 31) e (sext-least (u32 a) ha) m in
              (w', (whole ∙ rw (tb, ma) refl, record { leads = λ rest. rw (t, m, g) refl }))
        ]
  ]

  pub remw-Computes :
      Computes D rounds clobbered c
        (guarded_division
          (2 ^ 64 - 2 ^ 31)
          (movsxd rax ∷ [])
          (binary Binary.xor w32 rax (Operand.reg rax) ∷ [])
          (movsxd rdx ∷ []))
        (sext (u32 a) 31)
        (sext (u32 b) 31)
        (remw_value a b)
  unfolding run step remw_value
  remw-Computes w st e f = elim (Bool-cases (w.rcx == 0)) [
    | inl t ↦
        let tb = test_of (λ x. x == 0) f (sext-zero (u32 b) hb) t in
        (
          record w { rax = sext (u32 w.rax) 31; flags = some (compared w.rcx 0) },
          (
            ap (λ x. sext x 31) (ap u32 e ∙ u32-sext (u32 a) ha) ∙ rw tb refl,
            record { leads = λ rest. rw t refl },
          ),
        )
    | inr t ↦
        let tb = test_of (λ x. x == 0) f (sext-zero (u32 b) hb) t in
        let sx : sext (2 ^ 32 - 1) 31 ≡ max_u64 = unfold sext in refl in
        let la : w.rax < 2 ^ 64 = omega (arith, sext-lt (u32 a) ha, e) in
        let lb : w.rcx < 2 ^ 64 = omega (arith, sext-lt (u32 b) hb, f) in
        let g = fits_in w.rax w.rcx la lb t (ap (λ x. x == 2 ^ 63) e ∙ sext-least_64 (u32 a) ha) in
        let w' : Scratch = record w {
          rax = sext (u32 (u64 (remainder 128 (dividend w.rax) (widen w.rcx)))) 31;
          rdx = u64 (remainder 128 (dividend w.rax) (widen w.rcx));
          flags = none;
        } in
        let whole : sext (u32 (u64 (remainder 128 (dividend w.rax) (widen w.rcx)))) 31
            ≡ sext (remainder 32 (u32 a) (u32 b)) 31 =
          ap (λ x. sext x 31)
            (ap u32 (idiv-remainder w.rax w.rcx la lb t ∙ ap₂ (λ x y. remainder 64 x y) e f)
              ∙ (u32-remainder (u32 a) (u32 b) ha hb tb
                  ∙ remainder-small (u32 a) (u32 b) ha hb tb)) in
        elim (Bool-cases (w.rax == 2 ^ 64 - 2 ^ 31)) [
          | inl m ↦
              let ma = test_of (λ x. x == 2 ^ 64 - 2 ^ 31) e (sext-least (u32 a) ha) m in
              elim (Bool-cases (w.rcx == max_u64)) [
                | inl o ↦
                    let ob = test_of (λ x. x == max_u64) f (sext-max (u32 b) hb) o in
                    (
                      record w {
                        rax = bit_xor (u32 w.rax) (u32 w.rax);
                        rdx = 2 ^ 64 - 2 ^ 31;
                        flags = none;
                      },
                      (
                        bit_xor_self _ ∙ rw (tb, ma, ob) refl,
                        record { leads = λ rest. rw (t, m, sx, o) refl },
                      ),
                    )
                | inr o ↦
                    let ob = test_of (λ x. x == max_u64) f (sext-max (u32 b) hb) o in
                    (
                      w',
                      (
                        whole ∙ rw (tb, ma, ob) refl,
                        record { leads = λ rest. rw (t, m, sx, o, g) refl },
                      ),
                    )
              ]
          | inr m ↦
              let ma = test_of (λ x. x == 2 ^ 64 - 2 ^ 31) e (sext-least (u32 a) ha) m in
              (w', (whole ∙ rw (tb, ma) refl, record { leads = λ rest. rw (t, m, g) refl }))
        ]
  ]

  pub divuw-Computes :
      Computes D rounds clobbered c
        (unsigned_division w32
          (mov_imm rax max_u64 ∷ [])
          (binary Binary.xor w32 rdx (Operand.reg rdx) ∷ div_ecx ∷ movsxd rax ∷ []))
        (u32 a)
        (u32 b)
        (divuw_value a b)
  unfolding run step divuw_value
  divuw-Computes w st e f =
      let ee : u32 w.rax ≡ u32 a = omega (arith, e) in
      let ff : u32 w.rcx ≡ u32 b = omega (arith, f) in
      elim (Bool-cases (u32 w.rcx == 0)) [
        | inl t ↦
            let z = sext-zero (u32 w.rcx) (omega arith) ∙ t in
            let tb = ap (λ x. x == 0) (sym ff) ∙ t in
            (
              record w { rax = max_u64; flags = some (compared (sext (u32 w.rcx) 31) 0) },
              (rw tb refl, record { leads = λ rest. rw z refl }),
            )
        | inr t ↦
            let z = sext-zero (u32 w.rcx) (omega arith) ∙ t in
            let tb = ap (λ x. x == 0) (sym ff) ∙ t in
            let x = zero_extended (u32 w.rdx) (u32 w.rax) in
            let g = quotient_small (u32 w.rax) (u32 w.rcx) (omega arith) in
            (
              record w {
                rax = sext (u32 (u32 w.rax / u32 w.rcx)) 31;
                rdx = u32 w.rax % u32 w.rcx;
                flags = none;
              },
              (
                ap (λ x. sext x 31)
                      (u32-quotient_small (u32 w.rax) (u32 w.rcx) (omega arith)
                        ∙ ap₂ (λ x y. x / y) ee ff)
                    ∙ rw tb refl,
                record { leads = λ rest. rw (z, x, t, g) refl },
              ),
            )
      ]

  pub remuw-Computes :
      Computes D rounds clobbered c
        (unsigned_division w32
          (movsxd rax ∷ [])
          (binary Binary.xor w32 rdx (Operand.reg rdx) ∷ div_ecx ∷ movsxd rdx ∷ []))
        (u32 a)
        (u32 b)
        (remuw_value a b)
  unfolding run step remuw_value
  remuw-Computes w st e f =
      let ee : u32 w.rax ≡ u32 a = omega (arith, e) in
      let ff : u32 w.rcx ≡ u32 b = omega (arith, f) in
      elim (Bool-cases (u32 w.rcx == 0)) [
        | inl t ↦
            let z = sext-zero (u32 w.rcx) (omega arith) ∙ t in
            let tb = ap (λ x. x == 0) (sym ff) ∙ t in
            (
              record w {
                rax = sext (u32 w.rax) 31;
                flags = some (compared (sext (u32 w.rcx) 31) 0);
              },
              (ap (λ x. sext x 31) ee ∙ rw tb refl, record { leads = λ rest. rw z refl }),
            )
        | inr t ↦
            let z = sext-zero (u32 w.rcx) (omega arith) ∙ t in
            let tb = ap (λ x. x == 0) (sym ff) ∙ t in
            let x = zero_extended (u32 w.rdx) (u32 w.rax) in
            let g = quotient_small (u32 w.rax) (u32 w.rcx) (omega arith) in
            (
              record w {
                rax = sext (u32 (u32 w.rax % u32 w.rcx)) 31;
                rdx = u32 w.rax % u32 w.rcx;
                flags = none;
              },
              (
                ap (λ x. sext x 31)
                      (u32-remainder_small (u32 w.rax) (u32 w.rcx) (omega arith)
                        ∙ ap₂ (λ x y. x % y) ee ff)
                    ∙ rw tb refl,
                record { leads = λ rest. rw (z, x, t, g) refl },
              ),
            )
      ]
