-- ===== src/Execute/Physical.antt =====
-- Loads and stores of src/cpu/execute.rs where the address is physical, as in M-mode: on one page and
-- on two, they read and write words of a memory of bytes.
pub mod Parts
use native.Mathlib.Nat.{mul-le-mul, pow-le-pow_right, pow-succ'}
use risc_v_business.Base.{
  ℕ, zero, suc, ◌+◌, ◌-◌, ◌*◌, ◌/◌, ◌%◌, ◌^◌, ◌≤◌, ◌<◌, ◌≡◌, inl, inr, refl, ap, subst, ◌∙◌,
  Bool-cases, true, leb, ltb, ◌==◌, ◌&&◌, if◌then◌else◌, List, length, arith, bit_and, bit_or,
  bit_and-ones, bit_or-join, ◌>>>◌, ◌<<<◌, wrapping_add, Exit, ok, ◌>>=◌, proceed, map_err,
}
use risc_v_business.Ram.{read_le, write_le}
use risc_v_business.Ram.Words.{length-write_le}
use risc_v_business.VirtioBlk.{Disk}
use risc_v_business.Bus
use risc_v_business.Bus.{Bus, is_width}
use risc_v_business.Bus.Access.{IsPlain, Fits, InRam, load_inside, store_inside}
use risc_v_business.Bus.ByteMemory.{Bytes, word_at, with_word, Agrees, written-Agrees}
use risc_v_business.Mmu
use risc_v_business.Mmu.{AccessType, MmuFault, m, load, store, walk_levels}
use risc_v_business.Cpu.{Cpu}
use risc_v_business.Execute.{trap, bus_load, load_bytes, translate, bus_store, store_bytes}
use risc_v_business.Execute.Physical.Parts.{byte_pow, join_byte, part_step, AreBytes, with_part}

-- An access of the RAM that `b` has: every byte of it is there, and is no device's.
pub record IsPhysical {F : Type 0} (b : Bus F) (va width : ℕ) : Type 0 where
  pub plain : (i : ℕ) → i < width → IsPlain (va + i)
  pub fits : Fits b
  pub in_ram : InRam b va width

module _ {F : Type 0} where
  first_byte : (b : Bus F) (va n : ℕ) → IsPhysical b va (suc n) → IsPlain va × InRam b va 1
  first_byte b va n h = (
    subst IsPlain {x = va + 0} {y = va} (omega arith) (h.plain 0 (omega arith)),
    ground (arith, h.in_ram),
  )

  other_bytes : (b : Bus F) (va n : ℕ) → IsPhysical b va (suc n) → IsPhysical b (suc va) n
  other_bytes b va n h = record {
    plain = λ i hi.
        subst IsPlain {x = va + suc i} {y = suc va + i} (omega arith)
          (h.plain (suc i) (omega arith));
    fits = h.fits;
    in_ram = ground (arith, h.in_ram);
  }

  load_byte :
      (c : Cpu F) (mem : Bytes) (pa : ℕ) (f : MmuFault)
      → IsPlain pa
      → Fits c.bus
      → InRam c.bus pa 1
      → Agrees c.bus mem
      → bus_load pa 1 f c ≡ (c, ok (mem pa))
  unfolding bus_load read_le
  load_byte c mem pa f hp hf hr ha =
      let off = pa - c.bus.ram_base in
      ap (λ (o : Bus F × Exit Bus.BusFault ℕ). (record c { bus = o.0 }, map_err f o.1))
        (load_inside c.bus pa 1 hp refl hf hr)
      ∙ ap (λ t. (c, ok t))
          (omega (
            arith,
            ha off (omega (arith, hr)),
            ap mem {x = c.bus.ram_base + off} {y = pa} (omega (arith, hr)),
          ))

  pub load_bytes_lem :
      (c : Cpu F) (mem : Bytes) (va pa first left i v : ℕ)
      → IsPhysical c.bus (pa + i) left
      → Agrees c.bus mem
      → AreBytes mem
      → first + i + left ≤ 8
      → v < 2 ^ ((first + i) * 8)
      → load_bytes va pa first left i v c
        ≡ (c, ok (v + 2 ^ ((first + i) * 8) * word_at mem (pa + i) left))
  unfolding load_bytes word_at
  load_bytes_lem c mem va pa first zero i v hp ha hb h hv = ap (λ t. (c, ok t)) (omega arith)
  load_bytes_lem c mem va pa first (suc left) i v hp ha hb h hv =
      let f = trap 5 (wrapping_add va i) in
      let k = first + i in
      let byte = mem (pa + i) in
      let p = 2 ^ (k * 8) in
      let v' = v + byte * p in
      let here = first_byte c.bus (pa + i) left hp in
      let next : 2 ^ ((first + suc i) * 8) ≡ 256 * p =
        ap (λ t. 2 ^ (t * 8)) {x = first + suc i} {y = suc k} (omega arith) ∙ byte_pow k in
      let small : byte * p ≤ 255 * p =
        mul-le-mul {n₂ = 255} {m₂ = p} (omega (arith, hb (pa + i))) (omega arith) in
      let word = word_at mem (suc (pa + i)) left in
      ap
        (λ a.
          (bus_load a 1 f >>= λ b.
          load_bytes va pa first left (suc i) (bit_or v (bit_and b 0xff <<< (k * 8))))
            c)
        {x = wrapping_add pa i} {y = pa + i} (ground (arith, hp.fits, hp.in_ram))
      ∙ (ap
            (λ (o : Cpu F × Exit MmuFault ℕ).
              proceed
                (λ b. load_bytes va pa first left (suc i) (bit_or v (bit_and b 0xff <<< (k * 8))))
                o.0 o.1)
            (load_byte c mem (pa + i) f here.0 hp.fits here.1 ha)
          ∙ (ap (λ t. load_bytes va pa first left (suc i) t c)
                (join_byte v byte k (hb (pa + i)) (omega (arith, h)) hv)
              ∙ (load_bytes_lem c mem va pa first left (suc i) v'
                    (subst (λ a. IsPhysical c.bus a left) {x = suc (pa + i)} {y = pa + suc i}
                      (omega arith) (other_bytes c.bus (pa + i) left hp))
                    ha hb (omega (arith, h)) (omega (arith, next, hv, small))
                  ∙ ap (λ t. (c, ok t))
                      (ap (λ a. v' + 2 ^ ((first + suc i) * 8) * word_at mem a left)
                          {x = pa + suc i} {y = suc (pa + i)} (omega arith)
                        ∙ omega (arith, ap (λ t. t * word) next)))))

  -- The state after a store: only the RAM has changed, to hold the bytes of `mem`.
  pub record Stored (c : Cpu F) (mem : Bytes) (o : Cpu F × Exit MmuFault (Unit {0})) : Type 0 where
    pub ram : List ℕ
    pub size : length ram ≡ length c.bus.ram
    pub result : o ≡ (record c { bus = record c.bus { ram = ram } }, ok tt)
    pub agrees : Agrees (record c.bus { ram = ram }) mem

  pub Stored-ext :
      (c : Cpu F) (mem mem' : Bytes) (o : Cpu F × Exit MmuFault (Unit {0}))
      → ((a : ℕ) → mem a ≡ mem' a)
      → Stored c mem o
      → Stored c mem' o
  Stored-ext c mem mem' o e h = record {
    ram = h.ram;
    size = h.size;
    result = h.result;
    agrees = λ i hi. h.agrees i hi ∙ e (c.bus.ram_base + i);
  }

  -- One store, then what follows it in the state that it leaves.
  pub Stored-bind :
      (c : Cpu F) (mem mem' : Bytes) (o : Cpu F × Exit MmuFault (Unit {0}))
      (k : Unit {0} → Cpu F → Cpu F × Exit MmuFault (Unit {0}))
      → Stored c mem o
      → ((ram : List ℕ)
          → length ram ≡ length c.bus.ram
          → Agrees (record c.bus { ram = ram }) mem
          → Stored
              (record c { bus = record c.bus { ram = ram } })
              mem'
              (k tt (record c { bus = record c.bus { ram = ram } })))
      → Stored c mem' (proceed k o.0 o.1)
  Stored-bind c mem mem' o k h hk =
      let n = hk h.ram h.size h.agrees in
      record {
        ram = n.ram;
        size = n.size ∙ h.size;
        result =
            ap (λ (o : Cpu F × Exit MmuFault (Unit {0})). proceed k o.0 o.1) h.result ∙ n.result;
        agrees = n.agrees;
      }

  pub IsPhysical-ram :
      (b : Bus F) (ram : List ℕ) (va width : ℕ)
      → length ram ≡ length b.ram
      → IsPhysical b va width
      → IsPhysical (record b { ram = ram }) va width
  IsPhysical-ram b ram va width e h = record {
    plain = h.plain;
    fits = omega (arith, e, h.fits);
    in_ram = (h.in_ram.0, omega (arith, e, h.in_ram.1));
  }

  module _ (D : Disk F) (rounds : ℕ) where
    pub translate_machine :
        (access : AccessType) (va : ℕ) (c : Cpu F) → translate D rounds access m va c ≡ (c, ok va)
    unfolding translate Mmu.translate
    translate_machine access va c = ground arith

    pub store_word :
        (c : Cpu F) (mem : Bytes) (pa width val : ℕ) (f : MmuFault)
        → IsPlain pa
        → Fits c.bus
        → InRam c.bus pa width
        → is_width width ≡ true
        → Agrees c.bus mem
        → Stored c (with_word mem pa width val) (bus_store D rounds pa width val f c)
    unfolding bus_store
    store_word c mem pa width val f hp hf hr hw ha = record {
      ram = write_le c.bus.ram (pa - c.bus.ram_base) width val;
      size = length-write_le c.bus.ram (pa - c.bus.ram_base) width val;
      result =
          ap (λ (o : Bus F × Exit Bus.BusFault (Unit {0})). (record c { bus = o.0 }, map_err f o.1))
            (store_inside D rounds c.bus pa width val hp hw hf hr);
      agrees = written-Agrees c.bus mem pa width val ha hr;
    }

    pub store_bytes_lem :
        (c : Cpu F) (mem : Bytes) (va pa first left i val : ℕ)
        → IsPhysical c.bus (pa + i) left
        → Agrees c.bus mem
        → Stored c
            (with_part mem pa first i left val)
            (store_bytes D rounds va pa first left i val c)
    unfolding store_bytes
    store_bytes_lem c mem va pa first zero i val hp ha = record {
      ram = c.bus.ram;
      size = refl;
      result = refl;
      agrees = λ j hj. ground (arith, ha j hj);
    }
    store_bytes_lem c mem va pa first (suc left) i val hp ha =
        let f = trap 7 (wrapping_add va i) in
        let byte = bit_and (val >>> ((first + i) * 8)) 0xff in
        let here = first_byte c.bus (pa + i) left hp in
        let new = with_word mem (pa + i) 1 byte in
        let rest = λ (_ : Unit {0}). store_bytes D rounds va pa first left (suc i) val in
        subst
          (λ a.
            Stored c (with_part mem pa first i (suc left) val)
              ((bus_store D rounds a 1 byte f >>= rest) c))
          {x = pa + i} {y = wrapping_add pa i} (ground (arith, hp.fits, hp.in_ram))
          (Stored-ext c (with_part new pa first (suc i) left val)
            (with_part mem pa first i (suc left) val) _ (part_step mem pa first i left val)
            (Stored-bind c new (with_part new pa first (suc i) left val) _ rest
              (store_word c mem (pa + i) 1 byte f here.0 hp.fits here.1 refl ha)
              λ ram e ag.
                store_bytes_lem (record c { bus = record c.bus { ram = ram } }) new va pa first left
                  (suc i) val
                  (IsPhysical-ram c.bus ram (pa + suc i) left e (
                    subst (λ a. IsPhysical c.bus a left) {x = suc (pa + i)} {y = pa + suc i}
                      (omega arith) (other_bytes c.bus (pa + i) left hp)))
                  ag))
