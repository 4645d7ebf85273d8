-- ===== src/Mmu/Touch.antt =====
-- The flags that the TLB caches: those of the page-table entry after an access, src/cpu/mmu.rs.
use mathlib.Core.Path.{ap₂}
use risc_v_business.Base.{
  ℕ, ◌<◌, ◌^◌, ◌≡◌, max, refl, sym, ap, ◌∙◌, Bool, true, not, ◌==◌, ==_iff, arith, bit, bit-lt,
  bit_ext, bit_and, bit_or, bit-bit_and, bit-bit_or, bit-ones, bit_and-lt_right, bit_or-lt,
  bit_and-pow_zero, Exit, ok, err, bit-mul_pow, ◌>>>◌, ◌&&◌, ◌||◌, if◌then◌else◌,
}
use risc_v_business.Mmu.{
  PrivMode, u, s, m, AccessType, fetch, load, store, touch, has_flag, mode_allows, page_allows,
  check_perms, MmuFault, pf_cause,
}

-- The flags that an access sets.
abbrev pub touched_flags : AccessType → ℕ
touched_flags fetch = 0x40
touched_flags load = 0x40
touched_flags store = 0xC0

bit-touch :
    (k x : ℕ) (access : AccessType)
    → k < 8
    → bit k (touch x access) ≡ max (bit k x) (bit k (touched_flags access))
bit-touch k x fetch h = bit-bit_or k x 0x40
bit-touch k x load h = bit-bit_or k x 0x40
bit-touch k x store h = omega (
  arith,
  bit-bit_or k (bit_or x 0x40) 0x80,
  bit-bit_or k x 0x40,
  ap (bit k) {x = 0xC0} {y = bit_or 0x40 0x80} refl,
  bit-bit_or k 0x40 0x80,
)

bit-flags : (k x : ℕ) → k < 8 → bit k (bit_and x 0xFF) ≡ bit k x
bit-flags k x h = ground (arith, bit-bit_and k x 0xFF, bit-ones 8 k, bit-lt k x)

touch-lt : (x : ℕ) (access : AccessType) → x < 2 ^ 8 → touch x access < 2 ^ 8
touch-lt x fetch h = bit_or-lt 8 x 0x40 h (omega arith)
touch-lt x load h = bit_or-lt 8 x 0x40 h (omega arith)
touch-lt x store h =
    bit_or-lt 8 (bit_or x 0x40) 0x80 (bit_or-lt 8 x 0x40 h (omega arith)) (omega arith)

-- A second access of the same kind sets no flag.
pub touch-touch :
    (pte : ℕ) (access : AccessType)
    → let flags = bit_and (touch pte access) 0xFF in (touch flags access == flags) ≡ true
touch-touch pte access =
    let flags = bit_and (touch pte access) 0xFF in
    let small : flags < 2 ^ 8 = bit_and-lt_right 8 (touch pte access) 0xFF (omega arith) in
    (==_iff (touch flags access) flags).1 (
      bit_ext 8 (touch flags access) flags (touch-lt flags access small) small λ k hk. omega (
        arith,
        bit-touch k flags access hk,
        bit-flags k (touch pte access) hk,
        bit-touch k pte access hk,
      ))

bit-touched_flags : (k : ℕ) (access : AccessType) → k < 6 → bit k (touched_flags access) ≡ 0
bit-touched_flags k fetch h = ground (arith, bit-mul_pow 6 k 1)
bit-touched_flags k load h = ground (arith, bit-mul_pow 6 k 1)
bit-touched_flags k store h = ground (arith, bit-mul_pow 6 k 3)

-- An access changes no flag that its permissions depend on.
flag_kept :
    (k pte : ℕ) (access : AccessType)
    → k < 6
    → has_flag (bit_and (touch pte access) 0xFF) (2 ^ k) ≡ has_flag (bit_and pte 0xFF) (2 ^ k)
flag_kept k pte access hk =
    let same : bit k (bit_and (touch pte access) 0xFF) ≡ bit k (bit_and pte 0xFF) = omega (
      arith,
      bit-flags k (touch pte access) (omega (arith, hk)),
      bit-flags k pte (omega (arith, hk)),
      bit-touch k pte access (omega (arith, hk)),
      bit-touched_flags k access hk,
    ) in
    ap not (
      bit_and-pow_zero k (bit_and (touch pte access) 0xFF)
      ∙ (ap (λ b. not (b == 1)) same ∙ sym (bit_and-pow_zero k (bit_and pte 0xFF))))

mode_allows-touch :
    (pte mstatus : ℕ) (mode : PrivMode) (access : AccessType)
    → mode_allows (bit_and (touch pte access) 0xFF) mstatus mode
      ≡ mode_allows (bit_and pte 0xFF) mstatus mode
unfolding mode_allows
mode_allows-touch pte mstatus u access = flag_kept 4 pte access (omega arith)
mode_allows-touch pte mstatus s access =
    ap (λ b. not (b && bit_and (mstatus >>> 18) 1 == 0)) (flag_kept 4 pte access (omega arith))
mode_allows-touch pte mstatus m access = refl

page_allows-touch :
    (pte mstatus : ℕ) (access : AccessType)
    → page_allows (bit_and (touch pte access) 0xFF) mstatus access
      ≡ page_allows (bit_and pte 0xFF) mstatus access
unfolding page_allows
page_allows-touch pte mstatus fetch = flag_kept 3 pte fetch (omega arith)
page_allows-touch pte mstatus load =
    ap₂ (λ r x. r || (not (bit_and (mstatus >>> 19) 1 == 0) && x))
      (flag_kept 1 pte load (omega arith)) (flag_kept 3 pte load (omega arith))
page_allows-touch pte mstatus store = flag_kept 2 pte store (omega arith)

-- The flags after an access have the permissions of those before it.
pub check_perms-touch :
    (pte mstatus tval : ℕ) (mode : PrivMode) (access : AccessType)
    → check_perms (bit_and (touch pte access) 0xFF) mstatus mode access tval
      ≡ check_perms (bit_and pte 0xFF) mstatus mode access tval
unfolding check_perms
check_perms-touch pte mstatus tval mode access =
    ap₂
      (λ (x y : Bool).
        let r : Exit MmuFault (Unit {0}) =
          if x && y then ok tt else err (record { cause = pf_cause access; tval = tval }) in
        r)
      (mode_allows-touch pte mstatus mode access) (page_allows-touch pte mstatus access)
