-- ===== src/Execute/Keeps.antt =====
-- Code of src/cpu/execute.rs that keeps the invariant of the hart: its memory accesses, and the ways in
-- which an arm ends.
use risc_v_business.Base.{
  ℕ, zero, suc, Bool, true, false, if◌then◌else◌, arith, Run, Exit, ok, err, panic, hang, ◌>>=◌,
  proceed,
}
use risc_v_business.VirtioBlk.{Disk}
use risc_v_business.Mmu.{PrivMode, AccessType, MmuFault}
use risc_v_business.Cpu.{Cpu, set_reg}
use risc_v_business.Cpu.Invariant.{IsEven, WellFormed, set_reg-WellFormed, deliver_trap-WellFormed}
use risc_v_business.Execute.{
  Attempt, attempt, write, settle, next_pc, bus_load, bus_load_or_zero, load_bytes, translate,
  bus_store, bus_store_ok, store_bytes, mmu_load, mmu_store,
}

-- The code keeps the invariant, however it ends.
pub record Keeps {F E A : Type 0} (f : Run (Cpu F) E A) : Type 0 where
  pub kept : (c : Cpu F) → WellFormed c → WellFormed (f c).0

module _ {F : Type 0} where
  proceed-WellFormed :
      {E A B : Type 0} (k : A → Run (Cpu F) E B)
      → ((a : A) → Keeps (k a))
      → (c : Cpu F) (r : Exit E A) → WellFormed c
      → WellFormed (proceed k c r).0
  proceed-WellFormed k hk c (ok a) h = (hk a).kept c h
  proceed-WellFormed k hk c (err e) h = h
  proceed-WellFormed k hk c panic h = h
  proceed-WellFormed k hk c hang h = h

  pub bind-Keeps :
      {E A B : Type 0} {f : Run (Cpu F) E A} {k : A → Run (Cpu F) E B}
      → Keeps f
      → ((a : A) → Keeps (k a))
      → Keeps (f >>= k)
  bind-Keeps {f = f} {k = k} hf hk = record {
    kept = λ c h. proceed-WellFormed k hk (f c).0 (f c).1 (hf.kept c h);
  }

  pub if-Keeps :
      {E A : Type 0} (b : Bool) {f g : Run (Cpu F) E A}
      → Keeps f
      → Keeps g
      → Keeps (if b then f else g)
  if-Keeps true hf hg = hf
  if-Keeps false hf hg = hg

  pub set_pc-WellFormed :
      (c : Cpu F) (target : ℕ)
      → IsEven target
      → WellFormed c
      → WellFormed (record c { pc = target })
  set_pc-WellFormed c target e h = ground arith

  pub next_pc-IsEven : (c : Cpu F) → WellFormed c → IsEven (next_pc c)
  next_pc-IsEven c h = omega (arith, h.pc_even, h.size_even)

  settle-WellFormed :
      (resume : ℕ) (c : Cpu F) (r : Exit MmuFault (Unit {0}))
      → IsEven resume
      → WellFormed c
      → WellFormed (settle resume c r).0
  unfolding settle
  settle-WellFormed resume c (ok x) e h = set_pc-WellFormed c resume e h
  settle-WellFormed resume c (err f) e h = deliver_trap-WellFormed c f.cause f.tval h
  settle-WellFormed resume c panic e h = h
  settle-WellFormed resume c hang e h = h

  pub attempt-Keeps : (body : Attempt F (Unit {0})) → Keeps body → Keeps (attempt body)
  attempt-Keeps body k = record {
    kept = λ c h.
        settle-WellFormed (next_pc c) (body c).0 (body c).1 (next_pc-IsEven c h) (k.kept c h);
  }

  pub write-Keeps : (rd val : ℕ) → Keeps (write {F = F} rd val)
  unfolding write
  write-Keeps rd val = record {
    kept = λ c h.
        set_pc-WellFormed (set_reg c rd val) (next_pc c) (next_pc-IsEven c h)
          (set_reg-WellFormed c rd val h);
  }

  pub bus_load-Keeps : (pa width : ℕ) (f : MmuFault) → Keeps (bus_load {F = F} pa width f)
  unfolding bus_load
  bus_load-Keeps pa width f = record { kept = λ c h. h }

  pub bus_load_or_zero-Keeps : (pa width : ℕ) → Keeps (bus_load_or_zero {F = F} pa width)
  unfolding bus_load_or_zero
  bus_load_or_zero-Keeps pa width = record { kept = λ c h. h }

  load_bytes-Keeps : (va pa first left i v : ℕ) → Keeps (load_bytes {F = F} va pa first left i v)
  unfolding load_bytes
  load_bytes-Keeps va pa first zero i v = record { kept = λ c h. h }
  load_bytes-Keeps va pa first (suc left) i v =
      bind-Keeps (bus_load-Keeps _ _ _) λ b. load_bytes-Keeps va pa first left (suc i) _

  module _ (D : Disk F) (rounds : ℕ) where
    pub translate-Keeps :
        (access : AccessType) (mode : PrivMode) (va : ℕ) → Keeps (translate D rounds access mode va)
    unfolding translate
    translate-Keeps access mode va = record { kept = λ c h. h }

    bus_store-Keeps : (pa width val : ℕ) (f : MmuFault) → Keeps (bus_store D rounds pa width val f)
    unfolding bus_store
    bus_store-Keeps pa width val f = record { kept = λ c h. h }

    pub bus_store_ok-Keeps : (pa width val : ℕ) → Keeps (bus_store_ok D rounds pa width val)
    unfolding bus_store_ok
    bus_store_ok-Keeps pa width val = record { kept = λ c h. h }

    store_bytes-Keeps :
        (va pa first left i val : ℕ) → Keeps (store_bytes D rounds va pa first left i val)
    unfolding store_bytes
    store_bytes-Keeps va pa first zero i val = record { kept = λ c h. h }
    store_bytes-Keeps va pa first (suc left) i val =
        bind-Keeps (bus_store-Keeps _ _ _ _) λ x. store_bytes-Keeps va pa first left (suc i) val

    pub mmu_load-Keeps : (mode : PrivMode) (va width : ℕ) → Keeps (mmu_load D rounds mode va width)
    unfolding mmu_load
    mmu_load-Keeps mode va width =
        if-Keeps _ (bind-Keeps (translate-Keeps _ _ _) λ pa. bus_load-Keeps _ _ _) (
          bind-Keeps (translate-Keeps _ _ _) λ pa1.
            bind-Keeps (translate-Keeps _ _ _)
              λ pa2. bind-Keeps (load_bytes-Keeps _ _ _ _ _ _) λ v. load_bytes-Keeps _ _ _ _ _ _)

    pub mmu_store-Keeps :
        (mode : PrivMode) (va width val : ℕ) → Keeps (mmu_store D rounds mode va width val)
    unfolding mmu_store
    mmu_store-Keeps mode va width val =
        if-Keeps _ (bind-Keeps (translate-Keeps _ _ _) λ pa. bus_store-Keeps _ _ _ _) (
          bind-Keeps (translate-Keeps _ _ _) λ pa1.
            bind-Keeps (translate-Keeps _ _ _)
              λ pa2. bind-Keeps (store_bytes-Keeps _ _ _ _ _ _) λ x. store_bytes-Keeps _ _ _ _ _ _)
