-- ===== src/Bus/Access.antt =====
-- The RAM behind `load` and `store` of `Bus`.
use native.Mathlib.Omega.{arith}
use risc_v_business.Base.{
  ℕ, ◌+◌, ◌-◌, ◌%◌, ◌^◌, ◌<◌, ◌≤◌, ◌≡◌, ◌⊎◌, refl, sym, ap, subst, ◌∙◌, true, false, length, Exit,
  ok, err,
}
use risc_v_business.Ram.{read_le, write_le}
use risc_v_business.Ram.Words.{length-write_le, read_le-write_le, read_le-write_le_apart}
use risc_v_business.VirtioBlk.{Disk}
use risc_v_business.Bus.{
  Bus, BusFault, bus_fault, in_clint, in_plic, in_uart, in_virtio, is_width, offset, load_ram, load,
  store_ram, store,
}

-- No device answers at the address.
pub record IsPlain (addr : ℕ) : Type 0 where
  pub clint : in_clint addr ≡ false
  pub plic : in_plic addr ≡ false
  pub uart : in_uart addr ≡ false
  pub virtio : in_virtio addr ≡ false

module _ {F : Type 0} where
  -- The RAM ends below the top of the address space.
  abbrev pub Fits : Bus F → Type 0
  Fits b = b.ram_base + length b.ram < 2 ^ 64

  -- The access lies in the RAM.
  abbrev pub InRam : Bus F → ℕ → ℕ → Type 0
  InRam b addr width = (b.ram_base ≤ addr) × (addr + width ≤ b.ram_base + length b.ram)

  offset_inside :
      (b : Bus F) (addr width : ℕ)
      → Fits b
      → InRam b addr width
      → offset b addr width ≡ ok (addr - b.ram_base)
  unfolding offset
  offset_inside b addr width hf h = ground (arith, hf, h)

  offset_outside :
      (b : Bus F) (addr width : ℕ)
      → Fits b
      → ¬ InRam b addr width
      → offset b addr width ≡ err (bus_fault addr width)
  unfolding offset
  offset_outside b addr width hf h = ground (arith, hf, h)

  load_plain :
      (b : Bus F) (addr width : ℕ) → IsPlain addr → load addr width b ≡ load_ram addr width b
  unfolding load
  load_plain b addr width h = ground (arith, h.clint, h.plic, h.uart, h.virtio)

  pub load_inside :
      (b : Bus F) (addr width : ℕ)
      → IsPlain addr
      → is_width width ≡ true
      → Fits b
      → InRam b addr width
      → load addr width b ≡ (b, ok (read_le b.ram (addr - b.ram_base) width))
  unfolding load_ram
  load_inside b addr width hp hw hf h =
      load_plain b addr width hp ∙ ground (arith, offset_inside b addr width hf h, hw, h)

  module _ (D : Disk F) (rounds : ℕ) where
    store_plain :
        (b : Bus F) (addr width value : ℕ)
        → IsPlain addr
        → store D rounds addr width value b ≡ store_ram addr width value b
    unfolding store
    store_plain b addr width value h = ground (arith, h.clint, h.plic, h.uart, h.virtio)

    pub store_inside :
        (b : Bus F) (addr width value : ℕ)
        → IsPlain addr
        → is_width width ≡ true
        → Fits b
        → InRam b addr width
        → store D rounds addr width value b
          ≡ (record b { ram = write_le b.ram (addr - b.ram_base) width value }, ok tt)
    unfolding store_ram
    store_inside b addr width value hp hw hf h =
        store_plain b addr width value hp ∙ ground (arith, offset_inside b addr width hf h, hw, h)

    abbrev written : Bus F → ℕ → ℕ → ℕ → Bus F
    written b addr width value = record b { ram = write_le b.ram (addr - b.ram_base) width value }

    length-written :
        (b : Bus F) (addr width value : ℕ) → length (written b addr width value).ram ≡ length b.ram
    length-written b addr width value = length-write_le b.ram (addr - b.ram_base) width value

    -- A store to RAM followed by a load of the same address and width, 1, 2, 4 or 8, gives the value
    -- back, cut to the width. The address is no device's, and the RAM ends below 2 ^ 64.
    pub load-store :
        (b : Bus F) (addr width value : ℕ)
        → IsPlain addr
        → is_width width ≡ true
        → Fits b
        → InRam b addr width
        → let (b', r) = store D rounds addr width value b in
          (r ≡ ok tt) × (load addr width b' ≡ (b', ok (value % 256 ^ width)))
    load-store b addr width value hp hw hf h =
        let b' = written b addr width value in
        subst
          (λ (o : Bus F × Exit BusFault (Unit {0})).
            (o.1 ≡ ok tt) × (load addr width o.0 ≡ (o.0, ok (value % 256 ^ width))))
          (sym (store_inside b addr width value hp hw hf h))
          (
            refl,
            load_inside b' addr width hp hw (omega (arith, length-written b addr width value, hf))
                  (h.0, omega (arith, length-written b addr width value, h.1))
                ∙ ap (λ (v : ℕ). (b', ok v))
                    (read_le-write_le b.ram (addr - b.ram_base) width value
                      (omega (arith, h.0, h.1))),
          )

    -- A store to RAM, which ends below 2 ^ 64, leaves what a load of other bytes of RAM reads, both of
    -- the widths 1, 2, 4 or 8.
    pub load-store_apart :
        (b : Bus F) (addr width value addr' width' : ℕ)
        → IsPlain addr
        → IsPlain addr'
        → is_width width ≡ true
        → is_width width' ≡ true
        → Fits b
        → InRam b addr width
        → InRam b addr' width'
        → (addr' + width' ≤ addr) ⊎ (addr + width ≤ addr')
        → (load addr' width' (store D rounds addr width value b).0).1 ≡ (load addr' width' b).1
    load-store_apart b addr width value addr' width' hp hp' hw hw' hf h h' apart =
        let b' = written b addr width value in
        ap (λ (o : Bus F × Exit BusFault (Unit {0})). (load addr' width' o.0).1)
          (store_inside b addr width value hp hw hf h)
        ∙ (ap (λ (o : Bus F × Exit BusFault ℕ). o.1)
              (load_inside b' addr' width' hp' hw'
                (omega (arith, length-written b addr width value, hf))
                (h'.0, omega (arith, length-written b addr width value, h'.1)))
            ∙ (ap (λ (v : ℕ). ok v)
                  (read_le-write_le_apart b.ram (addr - b.ram_base) width value (addr' - b.ram_base)
                    width' (ground (arith, apart, h, h')))
                ∙ sym (
                    ap (λ (o : Bus F × Exit BusFault ℕ). o.1)
                      (load_inside b addr' width' hp' hw' hf h'))))

    -- Where the RAM ends below 2 ^ 64, an access outside the RAM and the devices, of any width, is the
    -- bus fault that names it, and changes nothing.
    pub outside_faults :
        (b : Bus F) (addr width value : ℕ)
        → IsPlain addr
        → Fits b
        → ¬ InRam b addr width
        → (load addr width b ≡ (b, err (bus_fault addr width)))
          × (store D rounds addr width value b ≡ (b, err (bus_fault addr width)))
    unfolding load_ram store_ram
    outside_faults b addr width value hp hf h =
        let o = offset_outside b addr width hf h in
        (
          load_plain b addr width hp ∙ ground (arith, o),
          store_plain b addr width value hp ∙ ground (arith, o),
        )
