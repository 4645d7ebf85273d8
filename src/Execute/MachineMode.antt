-- ===== src/Execute/MachineMode.antt =====
-- `mmu_load` and `mmu_store` of src/cpu/execute.rs in M-mode, as reads and writes of a memory of bytes.
use native.Mathlib.Nat.{pow-succ'}
use risc_v_business.Base.{
  ℕ, zero, suc, ◌+◌, ◌-◌, ◌*◌, ◌/◌, ◌%◌, ◌^◌, ◌≤◌, ◌<◌, ◌≡◌, inl, inr, refl, ap, subst, ◌∙◌,
  Bool-cases, true, false, leb, arith, Exit, ok, ◌>>=◌, proceed, map_err,
}
use risc_v_business.VirtioBlk.{Disk}
use risc_v_business.Bus
use risc_v_business.Bus.{Bus, is_width}
use risc_v_business.Bus.Access.{IsPlain, load_inside}
use risc_v_business.Bus.ByteMemory.{Bytes, word_at, with_word, Agrees, read_le-word_at}
use risc_v_business.Mmu.{AccessType, MmuFault, m, load}
use risc_v_business.Cpu.{Cpu}
use risc_v_business.Execute.{
  Attempt, trap, bus_load, load_bytes, translate, mmu_load, next_page, page_offset,
}
use risc_v_business.Execute.Blamed.{next_page_lem}
use risc_v_business.Execute.Physical.{IsPhysical, load_bytes_lem, translate_machine}
use risc_v_business.Execute.Physical.Parts.{AreBytes, byte_pow, with_part}

-- A word of `n + k` bytes from two words.
word_at-append :
    (mem : Bytes) (a n k : ℕ)
    → word_at mem a (n + k) ≡ word_at mem a n + 2 ^ (n * 8) * word_at mem (a + n) k
unfolding word_at
word_at-append mem a zero k =
    ap (word_at mem a) {x = 0 + k} {y = k} (omega arith)
    ∙ (ap (λ t. word_at mem t k) {x = a} {y = a + 0} (omega arith) ∙ omega arith)
word_at-append mem a (suc n) k =
    let next = word_at mem (suc a + n) k in
    ap (word_at mem a) {x = suc n + k} {y = suc (n + k)} (omega arith)
    ∙ omega (
      arith,
      word_at-append mem (suc a) n k,
      ap (λ t. t * next) (byte_pow n),
      ap (λ t. 2 ^ (suc n * 8) * word_at mem t k) {x = a + suc n} {y = suc a + n} (omega arith),
    )

word_at-lt : (mem : Bytes) (a n : ℕ) → AreBytes mem → word_at mem a n < 2 ^ (n * 8)
unfolding word_at
word_at-lt mem a zero h = omega arith
word_at-lt mem a (suc n) h = omega (arith, h a, word_at-lt mem (suc a) n h, byte_pow n)

-- The two parts of a word written, which together are the word.
word_pow : (k : ℕ) → 256 ^ k ≡ 2 ^ (k * 8)
word_pow zero = refl
word_pow (suc k) = omega (arith, pow-succ' 256 k, word_pow k, byte_pow k)

pub two_parts :
    (mem : Bytes) (va first width val a : ℕ)
    → first < width
    → with_part (with_part mem va 0 0 first val) (va + first) first 0 (width - first) val a
      ≡ with_word mem va width val a
unfolding with_word
two_parts mem va first width val a h = ground (
  arith,
  h,
  ap (λ t. val / t % 256) (word_pow (a - va)),
  ap (λ t. val / 2 ^ (t * 8) % 256) {x = 0 + (a - va)} {y = a - va} (omega arith),
  λ (p : va + first ≤ a).
      ap (λ t. val / 2 ^ (t * 8) % 256) {x = first + (a - (va + first))} {y = a - va}
        (omega (arith, p)),
)

pub is_width-le : (width : ℕ) → is_width width ≡ true → (0 < width) × (width ≤ 8)
is_width-le width h = ground (arith, h)

module _ {F : Type 0} where
  -- The `n` bytes from byte `d` of an access.
  pub IsPhysical-part :
      (b : Bus F) (va width d n a : ℕ)
      → a ≡ va + d
      → d + n ≤ width
      → IsPhysical b va width
      → IsPhysical b a n
  IsPhysical-part b va width d n a e hd h = record {
    plain = λ i hi.
        subst IsPlain {x = va + (d + i)} {y = a + i} (omega (arith, e))
          (h.plain (d + i) (omega (arith, hd, hi)));
    fits = h.fits;
    in_ram = ground (arith, h.in_ram, e, hd);
  }

  pub IsPlain-first : (b : Bus F) (va width : ℕ) → 0 < width → IsPhysical b va width → IsPlain va
  IsPlain-first b va width hw h = subst IsPlain {x = va + 0} {y = va} (omega arith) (h.plain 0 hw)

  pub load_word :
      (c : Cpu F) (mem : Bytes) (va width : ℕ) (f : MmuFault)
      → IsPhysical c.bus va width
      → is_width width ≡ true
      → Agrees c.bus mem
      → bus_load va width f c ≡ (c, ok (word_at mem va width))
  unfolding bus_load
  load_word c mem va width f hp hw ha =
      let off = va - c.bus.ram_base in
      let r = hp.in_ram in
      let plain = IsPlain-first c.bus va width (is_width-le width hw).0 hp in
      ap (λ (o : Bus F × Exit Bus.BusFault ℕ). (record c { bus = o.0 }, map_err f o.1))
        (load_inside c.bus va width plain hw hp.fits r)
      ∙ ap (λ t. (c, ok t))
          (read_le-word_at c.bus mem off width ha (omega (arith, r))
            ∙ ap (λ t. word_at mem t width) {x = c.bus.ram_base + off} {y = va} (omega (arith, r)))

  -- The second page of an access that crosses.
  pub second_page :
      (b : Bus F) (va width : ℕ)
      → IsPhysical b va width
      → 0 < width
      → leb (page_offset va + width) 0x1000 ≡ false
      → (next_page va ≡ va + (0x1000 - page_offset va)) × (0x1000 - page_offset va < width)
  second_page b va width hp h0 t =
      let small : 0x1000 - page_offset va < width = ground (arith, t, h0) in
      let top : va + width < 2 ^ 64 = ground (arith, hp.fits, hp.in_ram) in
      (omega (arith, next_page_lem va (omega (arith, top)), top, small), small)

  module _ (D : Disk F) (rounds : ℕ) where
    -- What follows a translation, in M-mode.
    pub translated :
        {A : Type 0} (c : Cpu F) (access : AccessType) (va : ℕ) (k : ℕ → Attempt F A)
        → (translate D rounds access m va >>= k) c ≡ k va c
    translated c access va k =
        ap (λ (o : Cpu F × Exit MmuFault ℕ). proceed k o.0 o.1)
          (translate_machine D rounds access va c)

    crossing_load :
        (c : Cpu F) (mem : Bytes) (va width : ℕ)
        → IsPhysical c.bus va width
        → is_width width ≡ true
        → Agrees c.bus mem
        → AreBytes mem
        → leb (page_offset va + width) 0x1000 ≡ false
        → let first = 0x1000 - page_offset va in
          (translate D rounds load m va >>= λ pa1.
          translate D rounds load m (next_page va) >>= λ pa2. load_bytes va pa1 0 first 0 0 >>= λ v.
          load_bytes (next_page va) pa2 first (width - first) 0 v)
            c
          ≡ (c, ok (word_at mem va width))
    crossing_load c mem va width hp hw ha hb t =
        let first = 0x1000 - page_offset va in
        let va2 = next_page va in
        let (two, small) = second_page c.bus va width hp (is_width-le width hw).0 t in
        let eight = (is_width-le width hw).1 in
        let low = 0 + 2 ^ ((0 + 0) * 8) * word_at mem (va + 0) first in
        let start : low ≡ word_at mem va first =
          omega (arith, ap (λ z. word_at mem z first) {x = va + 0} {y = va} (omega arith)) in
        let scale : 2 ^ ((first + 0) * 8) ≡ 2 ^ (first * 8) =
          ap (λ z. 2 ^ (z * 8)) {x = first + 0} {y = first} (omega arith) in
        let high = word_at mem (va + first) (width - first) in
        let join : ℕ → Attempt F ℕ = λ v. load_bytes va2 va2 first (width - first) 0 v in
        translated c load va (λ pa1. translate D rounds load m va2 >>= λ pa2.
        load_bytes va pa1 0 first 0 0 >>= λ v. load_bytes va2 pa2 first (width - first) 0 v)
        ∙ (translated c load va2 (λ pa2.
              load_bytes va va 0 first 0 0 >>= λ v. load_bytes va2 pa2 first (width - first) 0 v)
            ∙ (ap (λ (o : Cpu F × Exit MmuFault ℕ). proceed join o.0 o.1)
                  (load_bytes_lem c mem va va 0 first 0 0
                    (IsPhysical-part c.bus va width 0 first (va + 0) refl (omega (arith, small)) hp)
                    ha hb (omega (arith, small, eight)) (omega arith))
                ∙ (load_bytes_lem c mem va2 va2 first (width - first) 0 low
                      (IsPhysical-part c.bus va width first (width - first) (va2 + 0)
                        (omega (arith, two)) (omega (arith, small)) hp)
                      ha hb (omega (arith, small, eight))
                      (omega (arith, start, scale, word_at-lt mem va first hb))
                    ∙ ap (λ z. (c, ok z))
                        (omega (
                          arith,
                          start,
                          ap (λ z. z * high) scale,
                          ap (λ z. 2 ^ ((first + 0) * 8) * word_at mem z (width - first))
                              {x = va2 + 0} {y = va + first} (omega (arith, two)),
                          ap (word_at mem va) {x = first + (width - first)} {y = width}
                              (omega (arith, small)),
                          word_at-append mem va first (width - first),
                        )))))

    -- In M-mode, `mmu_load` of 1, 2, 4 or 8 bytes of RAM gives the word that the memory of bytes has
    -- there and changes nothing, on one page as on two. The RAM ends below 2 ^ 64, holds bytes, and no
    -- device answers at the bytes of the access.
    pub mmu_load-word_at :
        (c : Cpu F) (mem : Bytes) (va width : ℕ)
        → IsPhysical c.bus va width
        → is_width width ≡ true
        → Agrees c.bus mem
        → AreBytes mem
        → mmu_load D rounds m va width c ≡ (c, ok (word_at mem va width))
    unfolding mmu_load
    mmu_load-word_at c mem va width hp hw ha hb =
        elim (Bool-cases (leb (page_offset va + width) 0x1000)) [
          | inl t ↦ rw t (
              translated c load va (λ pa. bus_load pa width (trap 5 va))
              ∙ load_word c mem va width (trap 5 va) hp hw ha)
          | inr t ↦ rw t (crossing_load c mem va width hp hw ha hb t)
        ]
