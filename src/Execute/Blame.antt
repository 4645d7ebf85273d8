-- ===== src/Execute/Blame.antt =====
-- What a load or a store of src/cpu/execute.rs was doing where it traps, page by page and byte by
-- byte, against the value that the trap reports.
use risc_v_business.Base.{
  ℕ, zero, suc, ◌+◌, ◌*◌, ◌≤◌, ◌<◌, ◌≡◌, refl, subst, bit_and, bit_or, ◌<<<◌, ◌>>>◌, wrapping_add,
  arith, Exit, ok, err, panic, hang, proceed, map_err,
}
use risc_v_business.VirtioBlk.{Disk}
use risc_v_business.Bus
use risc_v_business.Bus.{Bus, BusFault}
use risc_v_business.Mmu.{MmuFault}
use risc_v_business.Cpu.{Cpu}
use risc_v_business.Execute.{Attempt, trap, bus_load, load_bytes, bus_store, store_bytes}

module _ {F A : Type 0} where
  -- The accesses of the bus numbered from `k` to `k'` succeed one after another and lead from the
  -- first state of the bus to the second.
  pub data Passes (op : ℕ → Bus F → Bus F × Exit BusFault A) : ℕ → Bus F → ℕ → Bus F → Type 0 where
    none_yet : (k : ℕ) (b : Bus F) → Passes op k b k b
    one_more :
        (k k' : ℕ) (b b' : Bus F) (a : A)
        → (op k b).1 ≡ ok a
        → Passes op (suc k) (op k b).0 k' b'
        → Passes op k b k' b'

  -- The first access that fails, from the `k`th on, is that of the byte that the fault reports.
  pub record Stops (op : ℕ → Bus F → Bus F × Exit BusFault A) (cause va end k : ℕ) (b : Bus F)
      (f : MmuFault) : Type 0 where
    pub byte : ℕ
    pub in_access : byte < end
    pub before : Bus F
    pub passes : Passes op k b byte before
    pub refused : BusFault
    pub fails : (op byte before).1 ≡ err refused
    pub fault : f ≡ trap cause (wrapping_add va byte)

  -- How the accesses from `k` to `k'` end.
  abbrev pub Outcome :
      {B : Type 0}
      → (ℕ → Bus F → Bus F × Exit BusFault A)
      → (cause va end k k' : ℕ) → Bus F
      → Bus F
      → Exit MmuFault B
      → Type 0
  Outcome op cause va end k k' b d (ok a) = Passes op k b k' d
  Outcome op cause va end k k' b d (err f) = Stops op cause va end k b f
  Outcome op cause va end k k' b d panic = Unit
  Outcome op cause va end k k' b d hang = Unit

  joined :
      (op : ℕ → Bus F → Bus F × Exit BusFault A) (cause va end k j : ℕ) (b d : Bus F) (f : MmuFault)
      → Passes op k b j d
      → Stops op cause va end j d f
      → Stops op cause va end k b f
  joined op cause va end k j b d f (none_yet n e) s = s
  joined op cause va end k j b d f (one_more n n2 e e2 a h p) s =
      let t = joined op cause va end (suc k) j (op k b).0 d f p s in
      record {
        byte = t.byte;
        in_access = t.in_access;
        before = t.before;
        passes = one_more k t.byte b t.before a h t.passes;
        refused = t.refused;
        fails = t.fails;
        fault = t.fault;
      }

  first_step :
      {B : Type 0} (op : ℕ → Bus F → Bus F × Exit BusFault A) (cause va end k k' : ℕ) (b d : Bus F)
      (a : A) (r : Exit MmuFault B)
      → (op k b).1 ≡ ok a
      → Outcome op cause va end (suc k) k' (op k b).0 d r
      → Outcome op cause va end k k' b d r
  first_step op cause va end k k' b d a (ok x) h p = one_more k k' b d a h p
  first_step op cause va end k k' b d a (err f) h s =
      joined op cause va end k (suc k) b (op k b).0 f
        (one_more k (suc k) b (op k b).0 a h (none_yet (suc k) (op k b).0)) s
  first_step op cause va end k k' b d a panic h s = tt
  first_step op cause va end k k' b d a hang h s = tt

  -- One access, and then the others.
  step_outcome :
      {B : Type 0} (op : ℕ → Bus F → Bus F × Exit BusFault A) (cause va end k k' : ℕ) (c : Cpu F)
      (rest : A → Attempt F B) (r : Exit BusFault A)
      → k < end
      → (op k c.bus).1 ≡ r
      → let c' = record c { bus = (op k c.bus).0 } in
        ((a : A) → Outcome op cause va end (suc k) k' c'.bus (rest a c').0.bus (rest a c').1)
        → let o = proceed rest c' (map_err (trap cause (wrapping_add va k)) r) in
          Outcome op cause va end k k' c.bus o.0.bus o.1
  step_outcome op cause va end k k' c rest (ok a) h e hr =
      let c' = record c { bus = (op k c.bus).0 } in
      first_step op cause va end k k' c.bus (rest a c').0.bus a (rest a c').1 e (hr a)
  step_outcome op cause va end k k' c rest (err x) h e hr = record {
    byte = k;
    in_access = h;
    before = c.bus;
    passes = none_yet k c.bus;
    refused = x;
    fails = e;
    fault = refl;
  }
  step_outcome op cause va end k k' c rest panic h e hr = tt
  step_outcome op cause va end k k' c rest hang h e hr = tt

-- Where the exit is a trap, it has the property.
abbrev pub Explains : {B : Type 0} → (MmuFault → Type 0) → Exit MmuFault B → Type 0
Explains P (ok a) = Unit
Explains P (err f) = P f
Explains P panic = Unit
Explains P hang = Unit

pub map_err-Explains :
    {E A : Type 0} (P : MmuFault → Type 0) (f : MmuFault) (r : Exit E A)
    → ((e : E) → r ≡ err e → P f)
    → Explains P (map_err f r)
map_err-Explains P f (ok a) h = tt
map_err-Explains P f (err e) h = h e refl
map_err-Explains P f panic h = tt
map_err-Explains P f hang h = tt

pub Explains-map :
    {A : Type 0} (P Q : MmuFault → Type 0) (r : Exit MmuFault A)
    → ((f : MmuFault) → P f → Q f)
    → Explains P r
    → Explains Q r
Explains-map P Q (ok a) h x = tt
Explains-map P Q (err f) h x = h f x
Explains-map P Q panic h x = tt
Explains-map P Q hang h x = tt

module _ {F : Type 0} where
  pub proceed-Explains :
      {A B : Type 0} (P : MmuFault → Type 0) (k : A → Attempt F B) (c : Cpu F) (r : Exit MmuFault A)
      → ((f : MmuFault) → r ≡ err f → P f)
      → ((a : A) → r ≡ ok a → Explains P (k a c).1)
      → Explains P (proceed k c r).1
  proceed-Explains P k c (ok a) hf hk = hk a refl
  proceed-Explains P k c (err f) hf hk = hf f refl
  proceed-Explains P k c panic hf hk = tt
  proceed-Explains P k c hang hf hk = tt

  stopped :
      {A B : Type 0} (op : ℕ → Bus F → Bus F × Exit BusFault A) (cause va end k j k' : ℕ)
      (b d d' : Bus F) (r : Exit MmuFault B)
      → Passes op k b j d
      → Outcome op cause va end j k' d d' r
      → Explains (Stops op cause va end k b) r
  stopped op cause va end k j k' b d d' (ok a) p o = tt
  stopped op cause va end k j k' b d d' (err f) p o = joined op cause va end k j b d f p o
  stopped op cause va end k j k' b d d' panic p o = tt
  stopped op cause va end k j k' b d d' hang p o = tt

  -- The bytes of the first page, and then those of the second.
  pub two_pages :
      {A B C : Type 0} (op : ℕ → Bus F → Bus F × Exit BusFault A) (cause va end k j k' : ℕ)
      (b : Bus F) (c : Cpu F) (rest : B → Attempt F C) (r : Exit MmuFault B)
      → Outcome op cause va end k j b c.bus r
      → ((a : B) → Outcome op cause va end j k' c.bus (rest a c).0.bus (rest a c).1)
      → Explains (Stops op cause va end k b) (proceed rest c r).1
  two_pages op cause va end k j k' b c rest (ok a) o h =
      stopped op cause va end k j k' b c.bus (rest a c).0.bus (rest a c).1 o (h a)
  two_pages op cause va end k j k' b c rest (err f) o h = o
  two_pages op cause va end k j k' b c rest panic o h = tt
  two_pages op cause va end k j k' b c rest hang o h = tt

  -- One access of the bus under the name of the source, and then the others.
  named_step :
      {A B : Type 0} (op : ℕ → Bus F → Bus F × Exit BusFault A)
      (g : Bus F → Bus F × Exit BusFault A) (cause va end t k k' : ℕ) (c : Cpu F)
      (rest : A → Attempt F B)
      → k < end
      → op k ≡ g
      → wrapping_add va k ≡ t
      → ((a : A) (c' : Cpu F)
          → Outcome op cause va end (suc k) k' c'.bus (rest a c').0.bus (rest a c').1)
      → let o =
          proceed rest (record c { bus = (g c.bus).0 }) (map_err (trap cause t) (g c.bus).1) in
        Outcome op cause va end k k' c.bus o.0.bus o.1
  named_step op g cause va end t k k' c rest h same e hr =
      subst
        (λ g.
          let o =
            proceed rest (record c { bus = (g c.bus).0 }) (map_err (trap cause t) (g c.bus).1) in
          Outcome op cause va end k k' c.bus o.0.bus o.1)
        same
        (subst
          (λ t.
            let o =
              proceed rest (record c { bus = (op k c.bus).0 })
                (map_err (trap cause t) (op k c.bus).1) in
            Outcome op cause va end k k' c.bus o.0.bus o.1)
          e
          (step_outcome op cause va end k k' c rest (op k c.bus).1 h refl
            λ a. hr a (record c { bus = (op k c.bus).0 })))

  -- The bytes of one page of a load, from byte `k` = `d` + `i` of the access on.
  pub load_outcome :
      (op : ℕ → Bus F → Bus F × Exit BusFault ℕ) (va end page d pa left i v k k' : ℕ) (c : Cpu F)
      → page ≡ wrapping_add va d
      → k ≡ d + i
      → k' ≡ k + left
      → k' ≤ end
      → ((n j : ℕ) → n ≡ d + j → n < k' → op n ≡ Bus.load (wrapping_add pa j) 1)
      → let o = load_bytes page pa d left i v c in Outcome op 5 va end k k' c.bus o.0.bus o.1
  unfolding load_bytes bus_load Bus.load
  load_outcome op va end page d pa zero i v k k' c e hk hk' h same =
      subst (λ n. Passes op k c.bus n c.bus) {x = k} {y = k'} (omega (arith, hk'))
        (none_yet k c.bus)
  load_outcome op va end page d pa (suc left) i v k k' c e hk hk' h same =
      let small : k < k' = omega (arith, hk') in
      named_step op (Bus.load (wrapping_add pa i) 1) 5 va end (wrapping_add page i) k k' c
        (λ b. load_bytes page pa d left (suc i) (bit_or v (bit_and b 0xff <<< ((d + i) * 8))))
        (omega (arith, small, h)) (same k i hk small) (omega (arith, e, hk))
        λ a c'.
          load_outcome op va end page d pa left (suc i) _ (suc k) k' c' e (omega (arith, hk))
            (omega (arith, hk')) h same

  module _ (D : Disk F) (rounds : ℕ) where
    -- The bytes of one page of a store, from byte `k` = `d` + `i` of the access on.
    pub store_outcome :
        (op : ℕ → Bus F → Bus F × Exit BusFault (Unit {0})) (va end page d pa left i val k k' : ℕ)
        (c : Cpu F)
        → page ≡ wrapping_add va d
        → k ≡ d + i
        → k' ≡ k + left
        → k' ≤ end
        → ((n j : ℕ)
            → n ≡ d + j
            → n < k'
            → op n
              ≡ Bus.store D rounds (wrapping_add pa j) 1 (bit_and (val >>> ((d + j) * 8)) 0xff))
        → let o = store_bytes D rounds page pa d left i val c in
          Outcome op 7 va end k k' c.bus o.0.bus o.1
    unfolding store_bytes bus_store Bus.store
    store_outcome op va end page d pa zero i val k k' c e hk hk' h same =
        subst (λ n. Passes op k c.bus n c.bus) {x = k} {y = k'} (omega (arith, hk'))
          (none_yet k c.bus)
    store_outcome op va end page d pa (suc left) i val k k' c e hk hk' h same =
        let small : k < k' = omega (arith, hk') in
        named_step op
          (Bus.store D rounds (wrapping_add pa i) 1 (bit_and (val >>> ((d + i) * 8)) 0xff)) 7 va end
          (wrapping_add page i) k k' c (λ x. store_bytes D rounds page pa d left (suc i) val)
          (omega (arith, small, h)) (same k i hk small) (omega (arith, e, hk))
          λ a c'.
            store_outcome op va end page d pa left (suc i) val (suc k) k' c' e (omega (arith, hk))
              (omega (arith, hk')) h same
