-- ===== src/Execute/Atomics.antt =====
-- The atomic instructions of src/cpu/execute.rs in M-mode, against a memory of bytes.
use risc_v_business.Base.{
  ℕ, ◌+◌, ◌-◌, ◌<◌, ◌≡◌, inl, inr, refl, sym, ap, subst, ◌∙◌, Bool, Bool-cases, true, false, ◌==◌,
  if◌then◌else◌, List, Option, none, arith, Exit, ok, err, panic, hang, ◌>>=◌, ◌>>◌, proceed,
}
use risc_v_business.Ram.{write_le}
use risc_v_business.VirtioBlk.{Disk}
use risc_v_business.Bus
use risc_v_business.Bus.{Bus, is_width}
use risc_v_business.Bus.Access.{load_inside, store_inside}
use risc_v_business.Bus.ByteMemory.{
  Bytes, word_at, with_word, Agrees, read_le-word_at, written-Agrees,
}
use risc_v_business.Mmu.{AccessType, MmuFault, m, store}
use risc_v_business.Cpu.{Cpu, reg, set_reg}
use risc_v_business.Cpu.Registers.{IsHart, reg-set_reg}
use risc_v_business.Execute.{
  Attempt, modify, attempt, settle, next_pc, ls_mode, bus_load_or_zero, translate, bus_store_ok,
}
use risc_v_business.Execute.Physical.{IsPhysical}
use risc_v_business.Execute.MachineMode.{is_width-le, IsPlain-first, translated}
use risc_v_business.Execute.Memory.{is_reserved, conditional, store_conditional, amo}

module _ {F : Type 0} where
  abbrev stored_state : Cpu F → ℕ → ℕ → ℕ → Cpu F
  stored_state c pa width val = record c {
    bus = record c.bus { ram = write_le c.bus.ram (pa - c.bus.ram_base) width val };
  }

  load_or_zero_word :
      (c : Cpu F) (mem : Bytes) (va width : ℕ)
      → IsPhysical c.bus va width
      → is_width width ≡ true
      → Agrees c.bus mem
      → bus_load_or_zero va width c ≡ (c, ok (word_at mem va width))
  unfolding bus_load_or_zero
  load_or_zero_word c mem va width hp hw ha =
      let off = va - c.bus.ram_base in
      let r = hp.in_ram in
      ap
        (λ (o : Bus F × Exit Bus.BusFault ℕ). (
          record c { bus = o.0 },
          elim o.1 [ ok v ↦ ok v | err e ↦ ok 0 | panic ↦ panic | hang ↦ hang ],
        ))
        (load_inside c.bus va width (IsPlain-first c.bus va width (is_width-le width hw).0 hp) hw
          hp.fits r)
      ∙ ap (λ t. (c, ok t))
          (read_le-word_at c.bus mem off width ha (omega (arith, r))
            ∙ ap (λ t. word_at mem t width) {x = c.bus.ram_base + off} {y = va} (omega (arith, r)))

  -- The state that an atomic instruction leaves: the next instruction, the given word in memory, the
  -- given value in the destination, the given reservation, and all else of `c` as it was.
  pub record Done (c d : Cpu F) (mem : Bytes) (rd val : ℕ) (reservation : Option ℕ) : Type 0 where
    pub memory : Agrees d.bus mem
    pub registers : (k : ℕ) → reg d k ≡ (if k == 0 then 0 else if k == rd then val else reg c k)
    pub rest : d ≡ record c {
      regs = d.regs;
      pc = next_pc c;
      bus = record c.bus { ram = d.bus.ram };
      reservation = reservation;
    }

  -- The hart with other contents of its RAM.
  abbrev with_ram : Cpu F → List ℕ → Cpu F
  with_ram c ram = record c { bus = record c.bus { ram = ram } }

  set_reg-kept :
      (c : Cpu F) (n val : ℕ)
      → ((set_reg c n val).bus ≡ c.bus) × ((set_reg c n val).reservation ≡ c.reservation)
  unfolding set_reg
  set_reg-kept c n val = ground arith

  set_reg-rest :
      (c : Cpu F) (ram : List ℕ) (n val pc : ℕ) (r : Option ℕ)
      → let d = record (set_reg (with_ram c ram) n val) { pc = pc; reservation = r } in
        d ≡ record c {
          regs = d.regs;
          pc = pc;
          bus = record c.bus { ram = d.bus.ram };
          reservation = r;
        }
  unfolding set_reg
  set_reg-rest c ram n val pc r = elim (Bool-cases (n == 0)) [
    | inl t ↦ rw t refl
    | inr t ↦ rw t refl
  ]

  -- The end of an atomic instruction: the destination and the next instruction.
  set_reg-Done :
      (c : Cpu F) (ram : List ℕ) (mem : Bytes) (rd val : ℕ) (r : Option ℕ)
      → IsHart c
      → rd < 32
      → Agrees (with_ram c ram).bus mem
      → Done c
          (record (set_reg (with_ram c ram) rd val) { pc = next_pc c; reservation = r })
          mem
          rd
          val
          r
  unfolding reg
  set_reg-Done c ram mem rd val r hh hd ha = record {
    memory = subst (λ b. Agrees b mem) (sym (set_reg-kept (with_ram c ram) rd val).0) ha;
    registers = λ k. reg-set_reg (with_ram c ram) rd k val hh hd;
    rest = set_reg-rest c ram rd val (next_pc c) r;
  }

  module _ (D : Disk F) (rounds : ℕ) where
    store_ok_word :
        (c : Cpu F) (va width val : ℕ)
        → IsPhysical c.bus va width
        → is_width width ≡ true
        → bus_store_ok D rounds va width val c ≡ (stored_state c va width val, ok tt)
    unfolding bus_store_ok
    store_ok_word c va width val hp hw =
        ap
          (λ (o : Bus F × Exit Bus.BusFault (Unit {0})). (
            record c { bus = o.0 },
            elim o.1 [ ok x ↦ ok x | err e ↦ ok tt | panic ↦ panic | hang ↦ hang ],
          ))
          (store_inside D rounds c.bus va width val
            (IsPlain-first c.bus va width (is_width-le width hw).0 hp) hw hp.fits hp.in_ram)

    -- An atomic instruction in M-mode, after its translation.
    in_machine :
        (c d : Cpu F) (access : AccessType) (va : ℕ) (k : ℕ → Attempt F (Unit {0}))
        → ls_mode c ≡ m
        → k va c ≡ (d, ok tt)
        → attempt (translate D rounds access (ls_mode c) va >>= k) c
          ≡ (record d { pc = next_pc c }, ok tt)
    unfolding settle
    in_machine c d access va k hm h =
        ap (λ mode. attempt (translate D rounds access mode va >>= k) c) hm
        ∙ ap (λ (o : Cpu F × Exit MmuFault (Unit {0})). settle (next_pc c) o.0 o.1)
            (translated D rounds c access va k ∙ h)

    -- An AMO of `width` bytes in M-mode, for any operation and any extension of the value read: the
    -- destination, unless it is register 0, has the old word, extended, and the bytes of RAM at the
    -- address are those of the result of the operation on that value and the operand. The program
    -- counter is the next instruction's, and the other bytes and registers and all else of the hart
    -- and the bus are as they were, the reservation too. Every byte of the access is in RAM and in
    -- no device, and RAM has the bytes of a map at the start.
    pub amo-Done :
        (c : Cpu F) (mem : Bytes) (width : ℕ) (extend : ℕ → ℕ) (combine : ℕ → ℕ → ℕ)
        (rd rs1 rs2 : ℕ)
        → ls_mode c ≡ m
        → IsHart c
        → rd < 32
        → IsPhysical c.bus (reg c rs1) width
        → is_width width ≡ true
        → Agrees c.bus mem
        → let o = amo D rounds width extend combine rd rs1 rs2 c in
          let old = extend (word_at mem (reg c rs1) width) in
          (o.1 ≡ ok tt)
          × Done c o.0
              (with_word mem (reg c rs1) width (combine old (reg c rs2)))
              rd
              old
              c.reservation
    unfolding amo
    amo-Done c mem width extend combine rd rs1 rs2 hm hh hd hp hw ha =
        let va = reg c rs1 in
        let x = reg c rs2 in
        let old = extend (word_at mem va width) in
        let e = stored_state c va width (combine old x) in
        let read : ℕ → Attempt F (Unit {0}) = λ pa. bus_load_or_zero pa width >>= λ v.
        bus_store_ok D rounds pa width (combine (extend v) x)
        >> modify λ d. set_reg d rd (extend v) in
        let write : ℕ → Attempt F (Unit {0}) = λ v.
          bus_store_ok D rounds va width (combine (extend v) x)
          >> modify λ d. set_reg d rd (extend v) in
        let body : read va c ≡ (set_reg e rd old, ok tt) =
          ap (λ (o : Cpu F × Exit MmuFault ℕ). proceed write o.0 o.1)
            (load_or_zero_word c mem va width hp hw ha)
          ∙ ap
              (λ (o : Cpu F × Exit MmuFault (Unit {0})).
                proceed (λ _. modify λ d. set_reg d rd old) o.0 o.1)
              (store_ok_word c va width (combine old x) hp hw) in
        let new = with_word mem va width (combine old x) in
        subst
          (λ (o : Cpu F × Exit ⊥ (Unit {0})). (o.1 ≡ ok tt) × Done c o.0 new rd old c.reservation)
          (sym (in_machine c (set_reg e rd old) store va read hm body))
          (
            refl,
            subst (λ r. Done c (record (set_reg e rd old) { pc = next_pc c }) new rd old r)
                (set_reg-kept e rd old).1
                (set_reg-Done c e.bus.ram new rd old (set_reg e rd old).reservation hh hd
                  (written-Agrees c.bus mem va width (combine old x) ha hp.in_ram)),
          )

    -- What an SC leaves in memory.
    abbrev pub sc_memory : Cpu F → Bytes → ℕ → ℕ → ℕ → Bytes
    sc_memory c mem va width val =
        if is_reserved c.reservation va then with_word mem va width val else mem

    conditional_lem :
        (c : Cpu F) (width rd val va : ℕ)
        → IsPhysical c.bus va width
        → is_width width ≡ true
        → conditional D rounds width rd val va c ≡ (
          if is_reserved c.reservation va
              then set_reg (stored_state c va width val) rd 0
              else set_reg c rd 1,
          ok tt,
        )
    unfolding conditional
    conditional_lem c width rd val va hp hw = elim (Bool-cases (is_reserved c.reservation va)) [
      | inl t ↦ rw t (
          ap
            (λ (o : Cpu F × Exit MmuFault (Unit {0})).
              proceed (λ _. modify λ d. set_reg d rd 0) o.0 o.1)
            (store_ok_word c va width val hp hw))
      | inr t ↦ rw t refl
    ]

    sc_end :
        (b : Bool) (c : Cpu F) (mem : Bytes) (va width rd val : ℕ)
        → IsHart c
        → rd < 32
        → IsPhysical c.bus va width
        → Agrees c.bus mem
        → let d = if b then set_reg (stored_state c va width val) rd 0 else set_reg c rd 1 in
          Done c
            (record d { reservation = none; pc = next_pc c })
            (if b then with_word mem va width val else mem)
            rd
            (if b then 0 else 1)
            none
    sc_end true c mem va width rd val hh hd hp ha =
        set_reg-Done c (stored_state c va width val).bus.ram (with_word mem va width val) rd 0 none
          hh hd (written-Agrees c.bus mem va width val ha hp.in_ram)
    sc_end false c mem va width rd val hh hd hp ha = set_reg-Done c c.bus.ram mem rd 1 none hh hd ha

    -- An SC of `width` bytes in M-mode: where the reservation is for its address, the memory has the
    -- operand there and the destination 0; otherwise the memory is as it was and the destination has 1.
    -- No reservation is left, the program counter is the next instruction's, and all else of the hart
    -- and the bus is as it was. Every byte of the access is in RAM and in no device, and RAM has the
    -- bytes of a map at the start.
    pub store_conditional-Done :
        (c : Cpu F) (mem : Bytes) (width rd rs1 rs2 : ℕ)
        → ls_mode c ≡ m
        → IsHart c
        → rd < 32
        → IsPhysical c.bus (reg c rs1) width
        → is_width width ≡ true
        → Agrees c.bus mem
        → let o = store_conditional D rounds width rd rs1 rs2 c in
          (o.1 ≡ ok tt)
          × Done c o.0
              (sc_memory c mem (reg c rs1) width (reg c rs2))
              rd
              (if is_reserved c.reservation (reg c rs1) then 0 else 1)
              none
    unfolding store_conditional
    store_conditional-Done c mem width rd rs1 rs2 hm hh hd hp hw ha =
        let va = reg c rs1 in
        let x = reg c rs2 in
        let b = is_reserved c.reservation va in
        let d = if b then set_reg (stored_state c va width x) rd 0 else set_reg c rd 1 in
        let clear : Unit {0} → Attempt F (Unit {0}) =
          λ _. modify λ e. record e { reservation = none } in
        let rest : ℕ → Attempt F (Unit {0}) = λ pa. conditional D rounds width rd x pa >>= clear in
        subst
          (λ (o : Cpu F × Exit ⊥ (Unit {0})).
            (o.1 ≡ ok tt) × Done c o.0 (sc_memory c mem va width x) rd (if b then 0 else 1) none)
          (sym (
            in_machine c (record d { reservation = none }) store va rest hm
              (ap (λ (o : Cpu F × Exit MmuFault (Unit {0})). proceed clear o.0 o.1)
                (conditional_lem c width rd x va hp hw))))
          (refl, sc_end b c mem va width rd x hh hd hp ha)
