-- ===== src/Execute/Faults.antt =====
-- The traps that loads and stores of src/cpu/execute.rs may end in.
use risc_v_business.Base.{
  ℕ, ◌+◌, ◌-◌, ◌^◌, ◌<◌, ◌≡◌, refl, ap, ◌∙◌, Bool, true, false, not, if◌then◌else◌, leb,
  bit_and-ones, wrapping_add, arith, Exit, err, ◌>>=◌,
}
use risc_v_business.VirtioBlk.{Disk}
use risc_v_business.Bus
use risc_v_business.Bus.{Bus, BusFault}
use risc_v_business.Mmu.{PrivMode, AccessType, MmuFault, load, store}
use risc_v_business.Mmu.Walk.{translate-Faults}
use risc_v_business.Cpu.{Cpu}
use risc_v_business.Execute.{
  Attempt, trap, bus_load, load_bytes, translate, bus_store, store_bytes, mmu_load, mmu_store,
  next_page, page_offset,
}
use risc_v_business.Execute.Blame.{
  Stops, Explains, map_err-Explains, Explains-map, proceed-Explains, two_pages, load_outcome,
  store_outcome,
}
use risc_v_business.Execute.Blamed.{
  byte_address, byte_of, IsFaultFrom, next_page_lem, Blamed, on_first, on_second, in_page, in_byte,
  byte_address-first, byte_address-second, fault_from,
}

module _ {F : Type 0} where
  if-Explains :
      {A : Type 0} (P : MmuFault → Type 0) (b : Bool) (f g : Attempt F A) (c : Cpu F)
      → (b ≡ true → Explains P (f c).1)
      → (b ≡ false → Explains P (g c).1)
      → Explains P ((if b then f else g) c).1
  if-Explains P true f g c hf hg = hf refl
  if-Explains P false f g c hf hg = hg refl

  module _ (D : Disk F) (rounds : ℕ) where
    translate_fault :
        (access : AccessType) (mode : PrivMode) (addr : ℕ) (c : Cpu F) (f : MmuFault)
        → (translate D rounds access mode addr c).1 ≡ err f
        → IsFaultFrom access addr f
    unfolding translate
    translate_fault access mode addr c f e =
        fault_from _ f _ (translate-Faults D rounds _ (record { mmu = c.mmu; bus = c.bus })) e

    -- The bytes of a load on two pages, from the state after both translations.
    load-Stops :
        (va width pa1 pa2 : ℕ) (c : Cpu F)
        → va < 2 ^ 64
        → 0x1000 - page_offset va < width
        → let first = 0x1000 - page_offset va in
          Explains
            (Stops (λ k. Bus.load (byte_address pa1 pa2 first k) 1) 5 va width 0 c.bus)
            ((load_bytes va pa1 0 first 0 0
                >>= load_bytes (next_page va) pa2 first (width - first) 0)
              c).1
    load-Stops va width pa1 pa2 c hv small =
        let first = 0x1000 - page_offset va in
        let op : ℕ → Bus F → Bus F × Exit BusFault ℕ =
          λ k. Bus.load (byte_address pa1 pa2 first k) 1 in
        let one = load_bytes va pa1 0 first 0 0 c in
        two_pages op 5 va width 0 first width c.bus one.0
          (load_bytes (next_page va) pa2 first (width - first) 0) one.1
          (load_outcome op va width va 0 pa1 first 0 0 0 first c (omega (arith, hv)) refl
            (omega arith) (omega (arith, small))
            λ n j e h. ap (λ a. Bus.load a 1) (byte_address-first pa1 pa2 first n j e h))
          λ v.
            load_outcome op va width (next_page va) first pa2 (width - first) 0 v first width one.0
              (next_page_lem va hv) (omega arith) (omega (arith, small)) (omega arith)
              λ n j e h. ap (λ a. Bus.load a 1) (byte_address-second pa1 pa2 first n j e)

    load-Explains :
        (mode : PrivMode) (va width : ℕ) (c : Cpu F)
        → va < 2 ^ 64
        → Explains
            (Blamed load
              (translate D rounds load mode)
              (λ pa. Bus.load pa width)
              (λ k pa. Bus.load pa 1)
              va
              width
              c)
            (mmu_load D rounds mode va width c).1
    unfolding mmu_load bus_load
    load-Explains mode va width c hv =
        let first = 0x1000 - page_offset va in
        let tr = translate D rounds load mode in
        let P : MmuFault → Type 0 =
          Blamed load tr (λ pa. Bus.load pa width) (λ k pa. Bus.load pa 1) va width c in
        let one = tr va c in
        let two = tr (next_page va) one.0 in
        let bytes : ℕ → ℕ → Attempt F ℕ = λ pa1 pa2.
          load_bytes va pa1 0 first 0 0 >>= load_bytes (next_page va) pa2 first (width - first) 0 in
        if-Explains P (leb (page_offset va + width) 0x1000) _ _ c
          (λ t.
            proceed-Explains P (λ pa. bus_load pa width (trap 5 va)) one.0 one.1
              (λ f e. on_first f e (translate_fault load mode va c f e))
              λ pa e.
                map_err-Explains P (trap 5 va) (Bus.load pa width one.0.bus).1
                  λ x h. in_page pa x (ap not t) e h)
          λ t.
            proceed-Explains P (λ pa1. tr (next_page va) >>= bytes pa1) one.0 one.1
              (λ f e. on_first f e (translate_fault load mode va c f e))
              λ pa1 e1.
                proceed-Explains P (bytes pa1) two.0 two.1
                  (λ f e.
                    on_second f pa1 (ap not t) e1 e
                      (translate_fault load mode (next_page va) one.0 f e))
                  λ pa2 e2.
                    Explains-map _ P (bytes pa1 pa2 two.0).1
                      (λ f s. in_byte f pa1 pa2 (ap not t) e1 e2 s)
                      (load-Stops va width pa1 pa2 two.0 hv (ground (arith, t, bit_and-ones 12 va)))

    -- The bytes of a store on two pages, from the state after both translations.
    store-Stops :
        (va width val pa1 pa2 : ℕ) (c : Cpu F)
        → va < 2 ^ 64
        → 0x1000 - page_offset va < width
        → let first = 0x1000 - page_offset va in
          Explains
            (Stops
              (λ k. Bus.store D rounds (byte_address pa1 pa2 first k) 1 (byte_of val k))
              7
              va
              width
              0
              c.bus)
            ((store_bytes D rounds va pa1 0 first 0 val >>= λ x.
                store_bytes D rounds (next_page va) pa2 first (width - first) 0 val)
              c).1
    store-Stops va width val pa1 pa2 c hv small =
        let first = 0x1000 - page_offset va in
        let op : ℕ → Bus F → Bus F × Exit BusFault (Unit {0}) =
          λ k. Bus.store D rounds (byte_address pa1 pa2 first k) 1 (byte_of val k) in
        let same : (n d j a : ℕ)
            → n ≡ d + j
            → byte_address pa1 pa2 first n ≡ a
            → op n ≡ Bus.store D rounds a 1 (byte_of val (d + j)) =
          λ n d j a e h.
            ap (λ a. Bus.store D rounds a 1 (byte_of val n)) h
            ∙ ap (λ i. Bus.store D rounds a 1 (byte_of val i)) e in
        let one = store_bytes D rounds va pa1 0 first 0 val c in
        two_pages op 7 va width 0 first width c.bus one.0
          (λ x. store_bytes D rounds (next_page va) pa2 first (width - first) 0 val) one.1
          (store_outcome D rounds op va width va 0 pa1 first 0 val 0 first c (omega (arith, hv))
            refl (omega arith) (omega (arith, small))
            λ n j e h. same n 0 j (wrapping_add pa1 j) e (byte_address-first pa1 pa2 first n j e h))
          λ v.
            store_outcome D rounds op va width (next_page va) first pa2 (width - first) 0 val first
              width one.0 (next_page_lem va hv) (omega arith) (omega (arith, small)) (omega arith)
              λ n j e h.
                same n first j (wrapping_add pa2 j) e (byte_address-second pa1 pa2 first n j e)

    store-Explains :
        (mode : PrivMode) (va width val : ℕ) (c : Cpu F)
        → va < 2 ^ 64
        → Explains
            (Blamed store
              (translate D rounds store mode)
              (λ pa. Bus.store D rounds pa width val)
              (λ k pa. Bus.store D rounds pa 1 (byte_of val k))
              va
              width
              c)
            (mmu_store D rounds mode va width val c).1
    unfolding mmu_store bus_store
    store-Explains mode va width val c hv =
        let first = 0x1000 - page_offset va in
        let tr = translate D rounds store mode in
        let P : MmuFault → Type 0 =
          Blamed store tr (λ pa. Bus.store D rounds pa width val)
            (λ k pa. Bus.store D rounds pa 1 (byte_of val k)) va width c in
        let one = tr va c in
        let two = tr (next_page va) one.0 in
        let bytes : ℕ → ℕ → Attempt F (Unit {0}) = λ pa1 pa2.
          store_bytes D rounds va pa1 0 first 0 val >>= λ x.
          store_bytes D rounds (next_page va) pa2 first (width - first) 0 val in
        if-Explains P (leb (page_offset va + width) 0x1000) _ _ c
          (λ t.
            proceed-Explains P (λ pa. bus_store D rounds pa width val (trap 7 va)) one.0 one.1
              (λ f e. on_first f e (translate_fault store mode va c f e))
              λ pa e.
                map_err-Explains P (trap 7 va) (Bus.store D rounds pa width val one.0.bus).1
                  λ x h. in_page pa x (ap not t) e h)
          λ t.
            proceed-Explains P (λ pa1. tr (next_page va) >>= bytes pa1) one.0 one.1
              (λ f e. on_first f e (translate_fault store mode va c f e))
              λ pa1 e1.
                proceed-Explains P (bytes pa1) two.0 two.1
                  (λ f e.
                    on_second f pa1 (ap not t) e1 e
                      (translate_fault store mode (next_page va) one.0 f e))
                  λ pa2 e2.
                    Explains-map _ P (bytes pa1 pa2 two.0).1
                      (λ f s. in_byte f pa1 pa2 (ap not t) e1 e2 s)
                      (store-Stops va width val pa1 pa2 two.0 hv
                        (ground (arith, t, bit_and-ones 12 va)))

    -- A load or a store of bytes at any address, in any mode and whatever the tables hold, where it
    -- traps. An access that stays in its page traps with the fault of the translation of its
    -- address, or with the access fault of its kind at its address when the bus refuses it. One that
    -- reaches into the next page traps with the fault of the translation of its address, or of the
    -- start of the next page when the first page is translated; when both are, the bytes are accessed
    -- one after another at the physical addresses of their pages, and the trap is the access fault of
    -- its kind at the address of the first byte that the bus refuses. The faults of a translation
    -- are page faults or access faults of its kind and report the address translated.
    pub mmu-Explains :
        (mode : PrivMode) (va width val : ℕ) (c : Cpu F)
        → va < 2 ^ 64
        → Explains
            (Blamed load
              (translate D rounds load mode)
              (λ pa. Bus.load pa width)
              (λ k pa. Bus.load pa 1)
              va
              width
              c)
            (mmu_load D rounds mode va width c).1
          × Explains
              (Blamed store
                (translate D rounds store mode)
                (λ pa. Bus.store D rounds pa width val)
                (λ k pa. Bus.store D rounds pa 1 (byte_of val k))
                va
                width
                c)
              (mmu_store D rounds mode va width val c).1
    mmu-Explains mode va width val c hv =
        (load-Explains mode va width c hv, store-Explains mode va width val c hv)
