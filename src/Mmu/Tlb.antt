-- ===== src/Mmu/Tlb.antt =====
-- The TLB of `Mmu`: what a flush forgets and what a walk leaves behind.
use native.Mathlib.Omega.{arith}
use risc_v_business.Base.{
  ℕ, zero, suc, ◌<◌, ◌≡◌, refl, ap, ◌∙◌, Bool, true, false, not, ◌==◌, if◌then◌else◌, List, [], ◌∷◌,
  map, length, bit_and, bit_and-lt_right, bit_or, ◌>>>◌, ◌<<<◌, Run, Exit, ok, err, panic, hang,
  ◌>>◌, return, get_or, get_or-set_self, proceed,
}
use risc_v_business.VirtioBlk.{Disk}
use risc_v_business.Mmu.{
  Mmu, flush, invalidate, MmuFault, page_fault, Memory, Query, TlbEntry, empty_entry, check_perms,
  touch, set_entry, entry_at, store_pte, leaf, walk, translate_paged, tlb_index, vpn_of, asid_of,
  hit, is_canonical, matches,
}
use risc_v_business.Mmu.Touch.{touch-touch, check_perms-touch}

abbrev pub flushed : {F : Type 0} → Memory F → Memory F
flushed w = record w { mmu = flush w.mmu }

invalidated :
    (es : List TlbEntry) (i : ℕ) → (get_or (map invalidate es) i empty_entry).valid ≡ false
invalidated [] i = refl
invalidated (e ∷ es) zero = refl
invalidated (e ∷ es) (suc i) = invalidated es i

matches-flush :
    (t : Mmu) (q : Query) (i : ℕ) → matches (get_or (flush t).tlb i empty_entry) q ≡ false
unfolding flush matches
matches-flush t q i = ground (arith, invalidated t.tlb i)

tlb_index-lt : (q : Query) → tlb_index q < 64
tlb_index-lt q = bit_and-lt_right 6 (vpn_of q) 63 (omega arith)

-- An entry made for the query serves it.
fresh_matches :
    (q : Query) (e : TlbEntry)
    → e.valid ≡ true
    → e.vpn ≡ vpn_of q
    → e.asid ≡ asid_of q
    → matches e q ≡ true
unfolding matches
fresh_matches q e hv hn ha = ground (arith, hv, hn, ha)

-- The exit of the permission check, the entry in its place, and the address found.
record Installed {F : Type 0} (q : Query) (e : TlbEntry) (found pa : ℕ) (w : Memory F)
    (p : Exit MmuFault (Unit {0})) : Type 0 where
  permitted : p ≡ ok tt
  in_place : entry_at w (tlb_index q) ≡ e
  answer : found ≡ pa

module _ {F : Type 0} where
  -- The end of a leaf: the entry is set and the address returned.
  abbrev install : Query → TlbEntry → ℕ → Run (Memory F) MmuFault ℕ
  install q e pa = set_entry (tlb_index q) e >> return pa

  install-Installed :
      (q : Query) (e : TlbEntry) (found pa : ℕ) (w : Memory F) (r : Exit MmuFault (Unit {0}))
      → length w.mmu.tlb ≡ 64
      → (proceed (λ _. install q e found) w r).1 ≡ ok pa
      → Installed q e found pa (proceed (λ _. install q e found) w r).0 (ok tt)
  unfolding set_entry
  install-Installed q e found pa w (ok x) hl h = record {
    permitted = refl;
    in_place =
        get_or-set_self w.mmu.tlb (tlb_index q) e empty_entry (omega (arith, hl, tlb_index-lt q));
    answer = ground (arith, h);
  }
  install-Installed q e found pa w (err f) hl h = absurd (ground (arith, h))
  install-Installed q e found pa w panic hl h = absurd (ground (arith, h))
  install-Installed q e found pa w hang hl h = absurd (ground (arith, h))

  -- The whole of a leaf: the permissions, the update of the entry in memory, the TLB.
  allowed :
      (q : Query) (e : TlbEntry) (found pa : ℕ) (w : Memory F) (b : Bool)
      (r : Run (Memory F) MmuFault (Unit {0})) (p : Exit MmuFault (Unit {0}))
      → length w.mmu.tlb ≡ 64
      → (r w).0.mmu ≡ w.mmu
      → let rest : Run (Memory F) MmuFault ℕ = (if b then return tt else r) >> install q e found in
        (proceed (λ _. rest) w p).1 ≡ ok pa → Installed q e found pa (proceed (λ _. rest) w p).0 p
  allowed q e found pa w true r (ok x) hl hk h = install-Installed q e found pa w (ok tt) hl h
  allowed q e found pa w false r (ok x) hl hk h =
      install-Installed q e found pa (r w).0 (r w).1 (ap (λ t. length t.tlb) hk ∙ hl) h
  allowed q e found pa w b r (err f) hl hk h = absurd (ground (arith, h))
  allowed q e found pa w b r panic hl hk h = absurd (ground (arith, h))
  allowed q e found pa w b r hang hl hk h = absurd (ground (arith, h))

module _ {F : Type 0} (D : Disk F) (rounds : ℕ) where
  keeps_tlb :
      (q : Query) (addr pte : ℕ) (w : Memory F) → (store_pte D rounds q addr pte w).0.mmu ≡ w.mmu
  unfolding store_pte
  keeps_tlb q addr pte w = refl

  -- After a flush no entry is used: an address that passes the canonical test is translated by
  -- a walk from the root in `satp`.
  pub flush_forces_walk :
      (q : Query) (levels : ℕ) (w : Memory F)
      → is_canonical levels q.addr ≡ true
      → translate_paged D rounds q levels (flushed w)
        ≡ walk D rounds q levels (bit_and q.satp 0x0FFF_FFFF_FFFF <<< 12) (flushed w)
  unfolding translate_paged
  flush_forces_walk q levels w h = ground (arith, h, matches-flush w.mmu q (tlb_index q))

  -- A hit of an entry whose flags need no update answers and changes nothing.
  settled_hit :
      (q : Query) (e : TlbEntry) (w : Memory F)
      → check_perms e.perm q.mstatus q.mode q.access q.addr ≡ ok tt
      → (touch e.perm q.access == e.perm) ≡ true
      → hit D rounds q e w ≡ (w, ok (bit_or (e.ppn <<< 12) (bit_and q.addr 0xFFF)))
  unfolding hit
  settled_hit q e w hp ht = ground (arith, hp, ht)

  -- What a TLB entry has to be after a walk: the page-table entry's page, its flags after the access
  -- and its address, such that the query is answered again without any change.
  pub record Refilled (q : Query) (levels pte_addr pte pa : ℕ) (w : Memory F) : Type 0 where
    pub entry : entry_at w (tlb_index q) ≡ record {
      valid = true;
      vpn = vpn_of q;
      ppn = bit_and (pte >>> 10) 0x0FFF_FFFF_FFFF;
      perm = bit_and (touch pte q.access) 0xFF;
      asid = asid_of q;
      pte_addr = pte_addr;
    }
    pub again : translate_paged D rounds q levels w ≡ (w, ok pa)

  hit_again :
      (q : Query) (e : TlbEntry) (pa levels : ℕ) (w : Memory F)
      → entry_at w (tlb_index q) ≡ e
      → matches e q ≡ true
      → hit D rounds q e w ≡ (w, ok pa)
      → is_canonical levels q.addr ≡ true
      → translate_paged D rounds q levels w ≡ (w, ok pa)
  unfolding translate_paged
  hit_again q e pa levels w he hm hh hc =
      ap
        (λ e.
          let o : Memory F × Exit MmuFault ℕ =
            if not (is_canonical levels q.addr)
            then (w, err (page_fault q))
            else if matches e q
            then hit D rounds q e w
            else walk D rounds q levels (bit_and q.satp 0x0FFF_FFFF_FFFF <<< 12) w in
          o)
        he
      ∙ ground (arith, hc, hm, hh)

  -- When a leaf of the last level translates an address that passes the canonical test and the TLB
  -- has 64 entries, the TLB has afterwards an entry for the address made of the page-table entry: its
  -- page, its flags with A set, and D after a store, its address, and the address space of `satp`. The
  -- same translation then answers the same physical address again and changes neither the TLB nor
  -- the bus.
  pub leaf_refills :
      (q : Query) (levels pte_addr pte pa : ℕ) (w : Memory F)
      → is_canonical levels q.addr ≡ true
      → length w.mmu.tlb ≡ 64
      → (leaf D rounds q 0 pte_addr pte w).1 ≡ ok pa
      → Refilled q levels pte_addr pte pa (leaf D rounds q 0 pte_addr pte w).0
  unfolding leaf
  leaf_refills q levels pte_addr pte pa w hc hl h =
      let ppn = bit_and (pte >>> 10) 0x0FFF_FFFF_FFFF in
      let new_pte = touch pte q.access in
      let perm = bit_and new_pte 0xFF in
      let e : TlbEntry = record {
        valid = true;
        vpn = vpn_of q;
        ppn = ppn;
        perm = perm;
        asid = asid_of q;
        pte_addr = pte_addr;
      } in
      let done = (leaf D rounds q 0 pte_addr pte w).0 in
      let found = bit_or (ppn >>> 0 <<< 12) (bit_and q.addr 0xFFF) in
      let left =
        allowed q e found pa w (new_pte == pte) (store_pte D rounds q pte_addr new_pte)
          (check_perms (bit_and pte 0xFF) q.mstatus q.mode q.access q.addr) hl
          (keeps_tlb q pte_addr new_pte w) h in
      let may = check_perms-touch pte q.mstatus q.addr q.mode q.access ∙ left.permitted in
      let answer : bit_or (ppn <<< 12) (bit_and q.addr 0xFFF) ≡ pa = ground (arith, left.answer) in
      record {
        entry = left.in_place;
        again =
            hit_again q e pa levels done left.in_place (fresh_matches q e refl refl refl)
              (settled_hit q e done may (touch-touch pte q.access) ∙ ap (λ a. (done, ok a)) answer)
              hc;
      }
