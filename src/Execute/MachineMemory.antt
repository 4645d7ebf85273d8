-- ===== src/Execute/MachineMemory.antt =====
-- Sequences of loads and stores of src/cpu/execute.rs in M-mode, against a memory of bytes.
use risc_v_business.Base.{
  ℕ, ◌+◌, ◌-◌, ◌≡◌, inl, inr, refl, sym, ap, subst, ◌∙◌, Bool-cases, true, false, leb, List, [],
  ◌∷◌, length, arith, Exit, ok, ◌>>=◌, proceed, return,
}
use risc_v_business.VirtioBlk.{Disk}
use risc_v_business.Bus.{Bus, is_width}
use risc_v_business.Bus.ByteMemory.{
  Bytes, word_at, with_word, Agrees, Request, read, write, answers,
}
use risc_v_business.Mmu.{MmuFault, m, store}
use risc_v_business.Cpu.{Cpu}
use risc_v_business.Execute.{
  Attempt, trap, translate, bus_store, store_bytes, mmu_load, mmu_store, next_page, page_offset,
}
use risc_v_business.Execute.Physical.{
  IsPhysical, Stored, Stored-ext, Stored-bind, store_word, store_bytes_lem, IsPhysical-ram,
}
use risc_v_business.Execute.Physical.Parts.{AreBytes, with_part}
use risc_v_business.Execute.MachineMode.{
  two_parts, is_width-le, IsPhysical-part, IsPlain-first, translated, second_page, mmu_load-word_at,
}

with_word-AreBytes :
    (mem : Bytes) (va width val : ℕ) → AreBytes mem → AreBytes (with_word mem va width val)
unfolding with_word
with_word-AreBytes mem va width val h a = ground (arith, h a)

module _ {F : Type 0} where
  -- Each request is for RAM.
  abbrev pub AllPhysical : Bus F → List Request → Type 0
  AllPhysical b [] = Unit
  AllPhysical b (read va width ∷ rs) =
      (IsPhysical b va width × (is_width width ≡ true)) × AllPhysical b rs
  AllPhysical b (write va width val ∷ rs) =
      (IsPhysical b va width × (is_width width ≡ true)) × AllPhysical b rs

  AllPhysical-ram :
      (b : Bus F) (ram : List ℕ) (rs : List Request)
      → length ram ≡ length b.ram
      → AllPhysical b rs
      → AllPhysical (record b { ram = ram }) rs
  AllPhysical-ram b ram [] e h = tt
  AllPhysical-ram b ram (read va width ∷ rs) e ((hp, hw), hs) =
      ((IsPhysical-ram b ram va width e hp, hw), AllPhysical-ram b ram rs e hs)
  AllPhysical-ram b ram (write va width val ∷ rs) e ((hp, hw), hs) =
      ((IsPhysical-ram b ram va width e hp, hw), AllPhysical-ram b ram rs e hs)

  module _ (D : Disk F) (rounds : ℕ) where
    crossing_store :
        (c : Cpu F) (mem : Bytes) (va width val : ℕ)
        → IsPhysical c.bus va width
        → is_width width ≡ true
        → Agrees c.bus mem
        → leb (page_offset va + width) 0x1000 ≡ false
        → let first = 0x1000 - page_offset va in
          Stored c (with_word mem va width val) (
            (translate D rounds store m va >>= λ pa1.
            translate D rounds store m (next_page va) >>= λ pa2.
            store_bytes D rounds va pa1 0 first 0 val >>= λ _.
            store_bytes D rounds (next_page va) pa2 first (width - first) 0 val)
              c)
    crossing_store c mem va width val hp hw ha t =
        let first = 0x1000 - page_offset va in
        let va2 = next_page va in
        let (two, small) = second_page c.bus va width hp (is_width-le width hw).0 t in
        let one = with_part mem va 0 0 first val in
        let both = with_part one va2 first 0 (width - first) val in
        let join : Unit {0} → Attempt F (Unit {0}) =
          λ _. store_bytes D rounds va2 va2 first (width - first) 0 val in
        subst (Stored c (with_word mem va width val))
          (sym (
            translated D rounds c store va (λ pa1. translate D rounds store m va2 >>= λ pa2.
            store_bytes D rounds va pa1 0 first 0 val >>= λ _.
            store_bytes D rounds va2 pa2 first (width - first) 0 val)
            ∙ translated D rounds c store va2 (λ pa2.
              store_bytes D rounds va va 0 first 0 val >>= λ _.
              store_bytes D rounds va2 pa2 first (width - first) 0 val)))
          (Stored-ext c both (with_word mem va width val) _
            (λ a.
              ap (λ p. with_part one p first 0 (width - first) val a) two
              ∙ two_parts mem va first width val a small)
            (Stored-bind c one both _ join
              (store_bytes_lem D rounds c mem va va 0 first 0 val
                (IsPhysical-part c.bus va width 0 first (va + 0) refl (omega (arith, small)) hp) ha)
              λ ram e ag.
                store_bytes_lem D rounds (record c { bus = record c.bus { ram = ram } }) one va2 va2
                  first (width - first) 0 val
                  (IsPhysical-ram c.bus ram (va2 + 0) (width - first) e (
                    IsPhysical-part c.bus va width first (width - first) (va2 + 0)
                      (omega (arith, two)) (omega (arith, small)) hp))
                  ag))

    mmu_store-with_word :
        (c : Cpu F) (mem : Bytes) (va width val : ℕ)
        → IsPhysical c.bus va width
        → is_width width ≡ true
        → Agrees c.bus mem
        → Stored c (with_word mem va width val) (mmu_store D rounds m va width val c)
    unfolding mmu_store
    mmu_store-with_word c mem va width val hp hw ha =
        elim (Bool-cases (leb (page_offset va + width) 0x1000)) [
          | inl t ↦ rw t (
              subst (Stored c (with_word mem va width val))
                (sym (
                  translated D rounds c store va
                    (λ pa. bus_store D rounds pa width val (trap 7 va))))
                (store_word D rounds c mem va width val (trap 7 va)
                  (IsPlain-first c.bus va width (is_width-le width hw).0 hp) hp.fits hp.in_ram hw
                  ha))
          | inr t ↦ rw t (crossing_store c mem va width val hp hw ha t)
        ]

    -- The requests through the MMU in M-mode, until one of them fails.
    unfoldable pub access_all : List Request → Attempt F (List ℕ)
    access_all [] = return []
    access_all (read va width ∷ rs) = do
      v ← mmu_load D rounds m va width
      vs ← access_all rs
      return (v ∷ vs)
    access_all (write va width val ∷ rs) = mmu_store D rounds m va width val >>= λ _. access_all rs

    -- In M-mode, the loads of any sequence of loads and stores of RAM, aligned or not and on one page
    -- or two, give what the same reads give on a map from addresses to bytes that starts with the bytes
    -- of the RAM, all below 256. The widths are 1, 2, 4 or 8, the RAM ends below 2 ^ 64, and no device
    -- answers at the bytes of an access.
    pub access_all-answers :
        (rs : List Request) (c : Cpu F) (mem : Bytes)
        → Agrees c.bus mem
        → AreBytes mem
        → AllPhysical c.bus rs
        → (access_all rs c).1 ≡ ok (answers rs mem)
    unfolding access_all answers
    access_all-answers [] c mem ha hb hs = refl
    access_all-answers (read va width ∷ rs) c mem ha hb ((hp, hw), hs) =
        let value = word_at mem va width in
        ap
          (λ (o : Cpu F × Exit MmuFault ℕ).
            (proceed (λ v. access_all rs >>= λ vs. return (v ∷ vs)) o.0 o.1).1)
          (mmu_load-word_at D rounds c mem va width hp hw ha hb)
        ∙ ap
            (λ (r : Exit MmuFault (List ℕ)).
              (proceed (λ vs. return (value ∷ vs)) (access_all rs c).0 r).1)
            (access_all-answers rs c mem ha hb hs)
    access_all-answers (write va width val ∷ rs) c mem ha hb ((hp, hw), hs) =
        let stored = mmu_store-with_word c mem va width val hp hw ha in
        let c' = record c { bus = record c.bus { ram = stored.ram } } in
        ap (λ (o : Cpu F × Exit MmuFault (Unit {0})). (proceed (λ _. access_all rs) o.0 o.1).1)
          stored.result
        ∙ access_all-answers rs c' (with_word mem va width val) stored.agrees
            (with_word-AreBytes mem va width val hb)
            (AllPhysical-ram c.bus stored.ram rs stored.size hs)
