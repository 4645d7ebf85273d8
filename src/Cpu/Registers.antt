-- ===== src/Cpu/Registers.antt =====
-- The integer registers of `Cpu`, and the instructions that reach its control registers.
use native.Mathlib.Omega.{arith}
use risc_v_business.Base.{
  ℕ, ◌<◌, ◌≡◌, ◌≢◌, ◌⊎◌, ap, true, false, ◌&&◌, ◌==◌, if◌then◌else◌, length, get_or, set,
  get_or-set_self, get_or-set_ne,
}
use risc_v_business.Cpu.{Cpu, reg, set_reg, csr_read}
use risc_v_business.Cpu.System.{
  CsrOp, set_bits, clear_bits, csr_access, satp_address, traps_vm, next,
}

module _ {F : Type 0} where
  -- The integer registers are 32.
  abbrev pub IsHart : Cpu F → Type 0
  IsHart c = length c.regs ≡ 32

  -- A register reads what was last written to it, and the others are unchanged; register 0 reads 0
  -- whatever is written. Register numbers are below 32.
  pub reg-set_reg :
      (c : Cpu F) (n k val : ℕ)
      → IsHart c
      → n < 32
      → reg (set_reg c n val) k ≡ (if k == 0 then 0 else if k == n then val else reg c k)
  unfolding reg set_reg
  reg-set_reg c n k val hl hn = ground (
    arith,
    hl,
    hn,
    get_or-set_self c.regs n val 0 (omega (arith, hl, hn)),
    λ (h : n ≢ k). get_or-set_ne c.regs n k val 0 h,
    ap (λ i. get_or (set c.regs n val) i 0) {x = k} {y = n},
  )

  -- A set or a clear whose operand's field is 0 writes no control register, so that it may read
  -- those that a write would change: unless it traps on `satp`, the control registers are as they
  -- were, and the destination has the value read.
  pub reads_only :
      (c : Cpu F) (op : CsrOp) (rd addr operand : ℕ)
      → (op ≡ set_bits) ⊎ (op ≡ clear_bits)
      → (addr == satp_address && traps_vm c) ≡ false
      → csr_access op rd addr operand true c ≡ next (set_reg c rd (csr_read c addr))
  unfolding csr_access
  reads_only c op rd addr operand h ht = ground (arith, h, ht)
