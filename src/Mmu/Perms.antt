-- ===== src/Mmu/Perms.antt =====
-- The permission check of `Mmu`, against the bits of the page-table entry.
use risc_v_business.Base.{
  ℕ, ◌≡◌, ◌⊎◌, ◌↔◌, inl, inr, refl, Bool, true, false, ◌&&◌, if◌then◌else◌, arith, bit, bit-lt,
  bit_and-one, bit_and-pow_zero, ◌>>>◌, ok, err, Exit,
}
use risc_v_business.Mmu.{
  PrivMode, u, s, m, AccessType, fetch, load, store, mode_allows, page_allows, check_perms,
  pf_cause, MmuFault,
}

-- The mode may touch the page: U-mode its own pages, S-mode those of U-mode only under SUM.
pub ModeMay : ℕ → ℕ → PrivMode → Type 0
ModeMay pte mstatus u = bit 4 pte ≡ 1
ModeMay pte mstatus s = (bit 4 pte ≡ 0) ⊎ (bit 18 mstatus ≡ 1)
ModeMay pte mstatus m = Unit

-- The page may be so accessed: X for a fetch, R for a load, or X under MXR, W for a store.
pub PageMay : ℕ → ℕ → AccessType → Type 0
PageMay pte mstatus fetch = bit 3 pte ≡ 1
PageMay pte mstatus load = (bit 1 pte ≡ 1) ⊎ ((bit 19 mstatus ≡ 1) × (bit 3 pte ≡ 1))
PageMay pte mstatus store = bit 2 pte ≡ 1

mode_allows_iff :
    (pte mstatus : ℕ) (mode : PrivMode)
    → (mode_allows pte mstatus mode ≡ true) ↔ ModeMay pte mstatus mode
unfolding mode_allows ModeMay
mode_allows_iff pte mstatus u = ground (arith, bit_and-pow_zero 4 pte)
mode_allows_iff pte mstatus s =
    ground
      (arith, bit_and-pow_zero 4 pte, bit_and-one (mstatus >>> 18), bit-lt 18 mstatus, bit-lt 4 pte)
mode_allows_iff pte mstatus m = (λ h. tt, λ h. refl)

page_allows_iff :
    (pte mstatus : ℕ) (access : AccessType)
    → (page_allows pte mstatus access ≡ true) ↔ PageMay pte mstatus access
unfolding page_allows PageMay
page_allows_iff pte mstatus fetch = ground (arith, bit_and-pow_zero 3 pte)
page_allows_iff pte mstatus load = ground (
  arith,
  bit_and-pow_zero 1 pte,
  bit_and-pow_zero 3 pte,
  bit_and-one (mstatus >>> 19),
  bit-lt 19 mstatus,
)
page_allows_iff pte mstatus store = ground (arith, bit_and-pow_zero 2 pte)

-- Both tests, each of them known to decide a proposition.
decides :
    {P Q : Type 0} (x y : Bool)
    → ((x ≡ true) ↔ P)
    → ((y ≡ true) ↔ Q)
    → (f : MmuFault)
    → let r : Exit MmuFault (Unit {0}) = if x && y then ok tt else err f in
      ((r ≡ ok tt) ↔ (P × Q)) × ((r ≡ ok tt) ⊎ (r ≡ err f))
decides true true a b f = ((λ h. (a.0 refl, b.0 refl), λ h. refl), inl refl)
decides true false a b f =
    ((λ h. absurd (ground (arith, h)), λ h. absurd (ground (arith, b.1 h.1))), inr refl)
decides false y a b f =
    ((λ h. absurd (ground (arith, h)), λ h. absurd (ground (arith, a.1 h.0))), inr refl)

-- `check_perms` lets through what the mode may touch and the page may be used for, and answers
-- everything else with the page fault of the access at the address given.
pub check_perms_decides :
    (pte mstatus tval : ℕ) (mode : PrivMode) (access : AccessType)
    → ((check_perms pte mstatus mode access tval ≡ ok tt)
        ↔ (ModeMay pte mstatus mode × PageMay pte mstatus access))
      × ((check_perms pte mstatus mode access tval ≡ ok tt)
          ⊎ (check_perms pte mstatus mode access tval
              ≡ err (record { cause = pf_cause access; tval = tval })))
unfolding check_perms
check_perms_decides pte mstatus tval mode access =
    decides (mode_allows pte mstatus mode) (page_allows pte mstatus access)
      (mode_allows_iff pte mstatus mode) (page_allows_iff pte mstatus access)
      (record { cause = pf_cause access; tval = tval })
