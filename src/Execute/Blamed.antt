-- ===== src/Execute/Blamed.antt =====
-- The ways in which a load or a store of src/cpu/execute.rs traps, and the value of the trap.
use risc_v_business.Base.{
  ℕ, ◌+◌, ◌-◌, ◌*◌, ◌^◌, ◌<◌, ◌≡◌, ap, subst, Bool, inl, inr, true, false, not, if◌then◌else◌, leb,
  ltb, bit_and-page, bit_and-ones, ◌⊎◌, inl, inr, bit_and, ◌>>>◌, wrapping_add, arith, Exit, ok,
  err,
}
use risc_v_business.Bus.{Bus, BusFault}
use risc_v_business.Mmu.{AccessType, MmuFault, Query, pf_cause, af_cause}
use risc_v_business.Mmu.Walk.{Faults, IsFaultOf}
use risc_v_business.Cpu.{Cpu}
use risc_v_business.Execute.{Attempt, trap, next_page, page_offset}
use risc_v_business.Execute.Blame.{Stops}

-- Does the access reach into the next page?
abbrev pub crosses : ℕ → ℕ → Bool
crosses va width = not (leb (page_offset va + width) 0x1000)

-- The physical address of byte `k` of an access whose first page has `first` of its bytes.
abbrev pub byte_address : (pa1 pa2 first k : ℕ) → ℕ
byte_address pa1 pa2 first k =
    if ltb k first then wrapping_add pa1 k else wrapping_add pa2 (k - first)

-- Byte `k` of the value stored.
abbrev pub byte_of : ℕ → ℕ → ℕ
byte_of val k = bit_and (val >>> (k * 8)) 0xff

-- A page fault or an access fault of the kind of access, at the address.
abbrev pub IsFaultFrom : AccessType → ℕ → MmuFault → Type 0
IsFaultFrom access addr f =
    ((f.cause ≡ pf_cause access) ⊎ (f.cause ≡ af_cause access)) × (f.tval ≡ addr)

-- The next page is where the bytes after the first part stand.
pub next_page_lem :
    (va : ℕ) → va < 2 ^ 64 → next_page va ≡ wrapping_add va (0x1000 - page_offset va)
next_page_lem va h = omega (arith, bit_and-page va h, bit_and-ones 12 va)

-- The four ways in which an access of the bytes from `va` traps: the translation of the first page
-- and of the second, the one access of the bus when a single page is touched, and the first byte that
-- the bus refuses when two are.
pub data Blamed {F A B : Type 0} (access : AccessType) (tr : ℕ → Attempt F ℕ)
    (one : ℕ → Bus F → Bus F × Exit BusFault A) (each : ℕ → ℕ → Bus F → Bus F × Exit BusFault B)
    (va width : ℕ) (c : Cpu F) : MmuFault → Type 0 where
  on_first :
      (f : MmuFault)
      → (tr va c).1 ≡ err f
      → IsFaultFrom access va f
      → Blamed access tr one each va width c f
  on_second :
      (f : MmuFault) (pa : ℕ)
      → crosses va width ≡ true
      → (tr va c).1 ≡ ok pa
      → (tr (next_page va) (tr va c).0).1 ≡ err f
      → IsFaultFrom access (next_page va) f
      → Blamed access tr one each va width c f
  in_page :
      (pa : ℕ) (e : BusFault)
      → crosses va width ≡ false
      → (tr va c).1 ≡ ok pa
      → (one pa (tr va c).0.bus).1 ≡ err e
      → Blamed access tr one each va width c (trap (af_cause access) va)
  in_byte :
      (f : MmuFault) (pa1 pa2 : ℕ)
      → crosses va width ≡ true
      → (tr va c).1 ≡ ok pa1
      → (tr (next_page va) (tr va c).0).1 ≡ ok pa2
      → Stops
          (λ k. each k (byte_address pa1 pa2 (0x1000 - page_offset va) k))
          (af_cause access)
          va
          width
          0
          (tr (next_page va) (tr va c).0).0.bus
          f
      → Blamed access tr one each va width c f

pub byte_address-first :
    (pa1 pa2 first n j : ℕ)
    → n ≡ 0 + j
    → n < first
    → byte_address pa1 pa2 first n ≡ wrapping_add pa1 j
byte_address-first pa1 pa2 first n j e h = ground (arith, e, h)

pub byte_address-second :
    (pa1 pa2 first n j : ℕ) → n ≡ first + j → byte_address pa1 pa2 first n ≡ wrapping_add pa2 j
byte_address-second pa1 pa2 first n j e = ground (arith, e)

pub fault_from :
    {A : Type 0} (q : Query) (f : MmuFault) (r : Exit MmuFault A)
    → Faults q r
    → r ≡ err f
    → IsFaultFrom q.access q.addr f
unfolding IsFaultOf
fault_from q f r h e = elim (subst (Faults q) e h) [
  | inl p ↦ (inl (ap (λ g. g.cause) p), ap (λ g. g.tval) p)
  | inr p ↦ (inr (ap (λ g. g.cause) p), ap (λ g. g.tval) p)
]
