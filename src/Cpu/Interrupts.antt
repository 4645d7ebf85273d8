-- ===== src/Cpu/Interrupts.antt =====
-- Which interrupt `check_interrupts` of `Cpu` takes.
use risc_v_business.Base.{
  ℕ, ◌≡◌, ◌⊎◌, inl, inr, refl, sym, ap, Bool, true, false, ◌==◌, if◌then◌else◌, arith, List, [],
  ◌∷◌, ◌++◌, Bool-cases, ==_iff, subst, ◌↔◌, bit, bit_and, bit_or, bit_and-one, bit-bit_and, not,
  ◌&&◌, bit-lt, bit-of_zero, ◌>>>◌, ◌<<<◌,
}
use risc_v_business.Csr
use risc_v_business.Mmu.{PrivMode, u, s, m}
use risc_v_business.Cpu.{
  Cpu, is_m, can_fire, fire_first, interrupt_order, check_interrupts, deliver_trap,
}

-- The cause of interrupt `code`.
abbrev pub interrupt_cause : ℕ → ℕ
interrupt_cause code = bit_or (1 <<< 63) code

-- Every member of the list has the property.
pub data Every (P : ℕ → Type 0) : List ℕ → Type 0 where
  end : Every P []
  also : {x : ℕ} {xs : List ℕ} → P x → Every P xs → Every P (x ∷ xs)

-- Whether the mode takes an interrupt, by `mideleg` and `mstatus`: M-mode takes those that are not
-- delegated, with MIE set; the other modes take these always and the delegated ones with SIE set.
abbrev pub Takes : PrivMode → ℕ → ℕ → ℕ → Type 0
Takes m mideleg mstatus code = (bit code mideleg ≡ 0) × (bit 3 mstatus ≡ 1)
Takes s mideleg mstatus code = (bit code mideleg ≡ 0) ⊎ (bit 1 mstatus ≡ 1)
Takes u mideleg mstatus code = (bit code mideleg ≡ 0) ⊎ (bit 1 mstatus ≡ 1)

can_fire_in :
    (mode : PrivMode) (mideleg mstatus code : ℕ)
    → let own = bit_and (mideleg >>> code) 1 == 1 in
      ((if is_m mode
          then not own && bit_and (mstatus >>> 3) 1 == 1
          else if own
          then bit_and (mstatus >>> 1) 1 == 1
          else true)
        ≡ true)
      ↔ Takes mode mideleg mstatus code
can_fire_in m mideleg mstatus code =
    ground (arith, bit_and-one (mideleg >>> code), bit-lt code mideleg, bit_and-one (mstatus >>> 3))
can_fire_in s mideleg mstatus code =
    ground (arith, bit_and-one (mideleg >>> code), bit-lt code mideleg, bit_and-one (mstatus >>> 1))
can_fire_in u mideleg mstatus code =
    ground (arith, bit_and-one (mideleg >>> code), bit-lt code mideleg, bit_and-one (mstatus >>> 1))

module _ {F : Type 0} where
  can_fire_iff :
      (c : Cpu F) (code : ℕ)
      → (can_fire c code ≡ true) ↔ Takes c.mode c.csr.mideleg c.csr.mstatus code
  unfolding can_fire Csr.mie_bit
  can_fire_iff c code = can_fire_in c.mode c.csr.mideleg c.csr.mstatus code

  -- The interrupt is pending and enabled, and the mode takes it.
  abbrev pub Fires : Cpu F → ℕ → Type 0
  Fires c code =
      (bit code c.csr.mip ≡ 1)
      × ((bit code c.csr.mie ≡ 1) × Takes c.mode c.csr.mideleg c.csr.mstatus code)

  -- The first interrupt of the list that fires is taken.
  pub record FirstFires (c : Cpu F) (codes : List ℕ) (out : Cpu F × Bool) : Type 0 where
    pub code : ℕ
    pub before : List ℕ
    pub after : List ℕ
    pub splits : codes ≡ before ++ code ∷ after
    pub none_before : Every (λ j. ¬ Fires c j) before
    pub fires : Fires c code
    pub taken : out ≡ (deliver_trap c (interrupt_cause code) 0, true)

  -- None of the list fires, and nothing changes.
  pub record NoneFires (c : Cpu F) (codes : List ℕ) (out : Cpu F × Bool) : Type 0 where
    pub none : Every (λ j. ¬ Fires c j) codes
    pub untouched : out ≡ (c, false)

  skip_code :
      (c : Cpu F) (code : ℕ) (codes : List ℕ) (out : Cpu F × Bool)
      → ¬ Fires c code
      → FirstFires c codes out ⊎ NoneFires c codes out
      → FirstFires c (code ∷ codes) out ⊎ NoneFires c (code ∷ codes) out
  skip_code c code codes out h (inl f) = inl (record {
    code = f.code;
    before = code ∷ f.before;
    after = f.after;
    splits = ap (λ l. code ∷ l) f.splits;
    none_before = also h f.none_before;
    fires = f.fires;
    taken = f.taken;
  })
  skip_code c code codes out h (inr n) =
      inr (record { none = also h n.none; untouched = n.untouched })

  take_code :
      (c : Cpu F) (code : ℕ) (codes : List ℕ)
      → Fires c code
      → FirstFires c (code ∷ codes) (deliver_trap c (interrupt_cause code) 0, true)
  take_code c code codes h = record {
    code = code;
    before = [];
    after = codes;
    splits = refl;
    none_before = end;
    fires = h;
    taken = refl;
  }

  -- One round of the loop, with its two tests taken out.
  round-cases :
      (c : Cpu F) (code : ℕ) (codes : List ℕ) (idle gate : Bool) (rest : Cpu F × Bool)
      → (Fires c code ↔ ((idle ≡ false) × (gate ≡ true)))
      → FirstFires c codes rest ⊎ NoneFires c codes rest
      → let out =
          if idle
          then rest
          else if gate
          then (deliver_trap c (interrupt_cause code) 0, true)
          else rest in
        FirstFires c (code ∷ codes) out ⊎ NoneFires c (code ∷ codes) out
  round-cases c code codes true gate rest h r =
      skip_code c code codes rest (λ f. ground (arith, h.0 f)) r
  round-cases c code codes false true rest h r = inl (take_code c code codes (h.1 (refl, refl)))
  round-cases c code codes false false rest h r =
      skip_code c code codes rest (λ f. ground (arith, h.0 f)) r

  Fires-iff :
      (c : Cpu F) (code : ℕ)
      → let pending = bit_and c.csr.mip c.csr.mie in
        Fires c code ↔ (((bit_and (pending >>> code) 1 == 0) ≡ false) × (can_fire c code ≡ true))
  Fires-iff c code =
      let pending = bit_and c.csr.mip c.csr.mie in
      let both = bit-bit_and code c.csr.mip c.csr.mie in
      let low = bit_and-one (pending >>> code) in
      let may = can_fire_iff c code in
      (
        (λ f. (ground (arith, low, both, f.0, f.1.0, bit-lt code pending), may.1 f.1.1)),
        (λ h.
            let hits : (bit code c.csr.mip ≡ 1) × (bit code c.csr.mie ≡ 1) =
              ground (arith, low, both, h.0, bit-lt code c.csr.mip, bit-lt code c.csr.mie) in
            (hits.0, (hits.1, may.0 h.1))),
      )

  fire_first-cases :
      (c : Cpu F) (codes : List ℕ)
      → let out = fire_first c (bit_and c.csr.mip c.csr.mie) codes in
        FirstFires c codes out ⊎ NoneFires c codes out
  unfolding fire_first
  fire_first-cases c [] = inr (record { none = end; untouched = refl })
  fire_first-cases c (code ∷ codes) =
      let pending = bit_and c.csr.mip c.csr.mie in
      round-cases c code codes (bit_and (pending >>> code) 1 == 0) (can_fire c code)
        (fire_first c pending codes) (Fires-iff c code) (fire_first-cases c codes)

  none_pending :
      (c : Cpu F) (codes : List ℕ)
      → bit_and c.csr.mip c.csr.mie ≡ 0
      → Every (λ j. ¬ Fires c j) codes
  none_pending c [] h = end
  none_pending c (code ∷ codes) h =
      also
        (λ f. omega (
          arith,
          f.0,
          f.1.0,
          bit-bit_and code c.csr.mip c.csr.mie,
          ap (bit code) h,
          bit-of_zero code,
        ))
        (none_pending c codes h)

  -- `check_interrupts` takes the first interrupt in the order 11, 3, 7, 9, 1, 5 that fires: its bits
  -- of `mip` and `mie` are 1 and the mode takes it, which is in M-mode that its bit of `mideleg` is
  -- 0 and MIE is 1, and in S-mode and U-mode that its bit of `mideleg` is 0 or SIE is 1. The trap of
  -- that interrupt is delivered, and none before it in the order fires. When none of the six fires
  -- it changes nothing and says so.
  pub check_interrupts_order :
      (c : Cpu F)
      → let order : List ℕ = 11 ∷ 3 ∷ 7 ∷ 9 ∷ 1 ∷ 5 ∷ [] in
        FirstFires c order (check_interrupts c) ⊎ NoneFires c order (check_interrupts c)
  unfolding check_interrupts
  check_interrupts_order c =
      let pending = bit_and c.csr.mip c.csr.mie in
      elim (Bool-cases (pending == 0)) [
        | inl h ↦ inr (record {
          none = none_pending c interrupt_order ((==_iff pending 0).0 h);
          untouched = ap (λ b. if b then (c, false) else fire_first c pending interrupt_order) h;
        })
        | inr h ↦
            subst
              (λ (o : Cpu F × Bool). FirstFires c interrupt_order o ⊎ NoneFires c interrupt_order o)
              (sym (ap (λ b. if b then (c, false) else fire_first c pending interrupt_order) h))
              (fire_first-cases c interrupt_order)
      ]
