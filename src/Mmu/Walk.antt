-- ===== src/Mmu/Walk.antt =====
-- The faults that `translate` of `Mmu` reports.
use risc_v_business.Base.{
  ℕ, zero, suc, ◌+◌, ◌-◌, ◌*◌, ◌≡◌, ◌⊎◌, inl, inr, refl, Bool, true, false, not, ◌&&◌, ◌||◌, ◌==◌,
  if◌then◌else◌, bit_and, bit_or, ◌>>>◌, ◌<<<◌, Run, Exit, ok, err, panic, hang, ◌>>=◌, ◌>>◌,
  return, throw, map_err, wrapping_add, proceed,
}
use native.Mathlib.Omega.{arith}
use risc_v_business.VirtioBlk.{Disk}
use risc_v_business.Bus
use risc_v_business.Mmu.{
  MmuFault, Memory, Query, TlbEntry, page_fault, access_fault, check_perms, mode_allows,
  page_allows, has_flag, pte_v, pte_r, pte_w, touch, from_exit, load_pte, set_entry, entry_at,
  store_pte, store_pte_ok, hit, leaf, walk, translate_paged, translate, tlb_index, walk_levels,
}

-- A fault of the access of the query, at the address that the query asks for.
unfoldable pub IsFaultOf : Query → MmuFault → Type 0
IsFaultOf q f = (f ≡ page_fault q) ⊎ (f ≡ access_fault q)

-- Every fault that an exit carries is one of the query's.
abbrev pub Faults : {A : Type 0} → Query → Exit MmuFault A → Type 0
Faults q (ok a) = Unit
Faults q (err f) = IsFaultOf q f
Faults q panic = Unit
Faults q hang = Unit

map_err-Faults : {E A : Type 0} (q : Query) (r : Exit E A) → Faults q (map_err (access_fault q) r)
unfolding IsFaultOf
map_err-Faults q (ok a) = tt
map_err-Faults q (err e) = inr refl
map_err-Faults q panic = tt
map_err-Faults q hang = tt

either_fault :
    (q : Query) (b : Bool) → Faults {A = Unit {0}} q (if b then ok tt else err (page_fault q))
unfolding IsFaultOf
either_fault q true = tt
either_fault q false = inl refl

no_fault :
    {E : Type 0} (q : Query) (r : Exit E (Unit {0}))
    → Faults {A = Unit {0}} q (elim r [ ok x ↦ ok x | err e ↦ ok tt | panic ↦ panic | hang ↦ hang ])
no_fault q (ok x) = tt
no_fault q (err e) = tt
no_fault q panic = tt
no_fault q hang = tt

module _ {F : Type 0} where
  abbrev pub RunFaults : {A : Type 0} → Query → Run (Memory F) MmuFault A → Type 0
  RunFaults q r = (w : Memory F) → Faults q (r w).1

  thrown_faults : (q : Query) → RunFaults {A = ℕ} q (throw (page_fault q))
  unfolding IsFaultOf
  thrown_faults q w = inl refl

  perms_faults :
      (q : Query) (perm : ℕ)
      → RunFaults q (from_exit (check_perms perm q.mstatus q.mode q.access q.addr))
  unfolding check_perms
  perms_faults q perm w =
      either_fault q (mode_allows perm q.mstatus q.mode && page_allows perm q.mstatus q.access)

  load_faults : (q : Query) (addr : ℕ) → RunFaults q (load_pte q addr)
  unfolding load_pte
  load_faults q addr w = map_err-Faults q (Bus.load addr 8 w.bus).1

  set_faults : (q : Query) (idx : ℕ) (e : TlbEntry) → RunFaults q (set_entry idx e)
  unfolding set_entry
  set_faults q idx e w = tt

  loaded :
      (q : Query) (w : Memory F) (r : Exit MmuFault ℕ) (k : ℕ → Run (Memory F) MmuFault ℕ)
      → Faults q r
      → ((pte : ℕ) → RunFaults q (k pte))
      → Faults q (proceed k w r).1
  loaded q w (ok a) k h g = g a w
  loaded q w (err f) k h g = h
  loaded q w panic k h g = tt
  loaded q w hang k h g = tt

  set_after :
      (q : Query) (w : Memory F) (r : Exit MmuFault (Unit {0})) (e : TlbEntry)
      → Faults q r
      → Faults q (proceed (λ _. set_entry (tlb_index q) e) w r).1
  unfolding set_entry
  set_after q w (ok a) e h = tt
  set_after q w (err f) e h = h
  set_after q w panic e h = tt
  set_after q w hang e h = tt

  then_set :
      (q : Query) (r : Run (Memory F) MmuFault (Unit {0})) (e : TlbEntry)
      → RunFaults q r
      → RunFaults q (r >> set_entry (tlb_index q) e)
  then_set q r e h w = set_after q (r w).0 (r w).1 e (h w)

  -- The end of a hit and of a leaf: two steps that may be left out, then the address.
  abbrev ending :
      Bool
      → Run (Memory F) MmuFault (Unit {0})
      → Bool
      → Run (Memory F) MmuFault (Unit {0})
      → ℕ
      → Run (Memory F) MmuFault ℕ
  ending b r b' r' pa = do if b then return tt else r; if b' then r' else return tt; return pa

  ending_faults :
      (q : Query) (b : Bool) (r : Run (Memory F) MmuFault (Unit {0})) (b' : Bool)
      (r' : Run (Memory F) MmuFault (Unit {0})) (pa : ℕ)
      → RunFaults q r
      → RunFaults q r'
      → RunFaults q (ending b r b' r' pa)
  ending_faults q true r true r' pa h h' w = ground (arith, h' w)
  ending_faults q true r false r' pa h h' w = tt
  ending_faults q false r true r' pa h h' w = ground (arith, h w, h' (r w).0)
  ending_faults q false r false r' pa h h' w = ground (arith, h w)

  if_faults :
      (q : Query) (b : Bool) (r r' : Run (Memory F) MmuFault ℕ)
      → RunFaults q r
      → RunFaults q r'
      → RunFaults q (if b then r else r')
  if_faults q true r r' h h' = h
  if_faults q false r r' h h' = h'

  after_perms :
      (q : Query) (perm : ℕ) (r : Run (Memory F) MmuFault ℕ)
      → RunFaults q r
      → RunFaults q (from_exit (check_perms perm q.mstatus q.mode q.access q.addr) >> r)
  after_perms q perm r h w = ground (arith, perms_faults q perm w, h w)

  after_load :
      (q : Query) (addr : ℕ) (k : ℕ → Run (Memory F) MmuFault ℕ)
      → ((pte : ℕ) → RunFaults q (k pte))
      → RunFaults q (load_pte q addr >>= k)
  after_load q addr k h w =
      loaded q (load_pte q addr w).0 (load_pte q addr w).1 k (load_faults q addr w) h

  module _ (D : Disk F) (rounds : ℕ) where
    store_faults : (q : Query) (addr pte : ℕ) → RunFaults q (store_pte D rounds q addr pte)
    unfolding store_pte
    store_faults q addr pte w = map_err-Faults q (Bus.store D rounds addr 8 pte w.bus).1

    dropped_faults : (q : Query) (addr pte : ℕ) → RunFaults q (store_pte_ok D rounds addr pte)
    unfolding store_pte_ok
    dropped_faults q addr pte w = no_fault q (Bus.store D rounds addr 8 pte w.bus).1

    hit_faults : (q : Query) (e : TlbEntry) → RunFaults q (hit D rounds q e)
    unfolding hit
    hit_faults q e =
        let new_perm = touch e.perm q.access in
        let update =
          store_pte_ok D rounds e.pte_addr (bit_or (e.ppn <<< 10) new_perm)
          >> set_entry (tlb_index q) (record e { perm = new_perm }) in
        let pa = bit_or (e.ppn <<< 12) (bit_and q.addr 0xFFF) in
        let updates : RunFaults q update =
          then_set q (store_pte_ok D rounds e.pte_addr (bit_or (e.ppn <<< 10) new_perm))
            (record e { perm = new_perm })
            (dropped_faults q e.pte_addr (bit_or (e.ppn <<< 10) new_perm)) in
        after_perms q e.perm (ending (new_perm == e.perm) update false update pa)
          (ending_faults q (new_perm == e.perm) update false update pa updates updates)

    leaf_faults :
        (q : Query) (rem pte_addr pte : ℕ) → RunFaults q (leaf D rounds q rem pte_addr pte)
    unfolding leaf
    leaf_faults q rem pte_addr pte =
        let ppn = bit_and (pte >>> 10) 0x0FFF_FFFF_FFFF in
        let new_pte = touch pte q.access in
        if_faults q (not (rem == 0) && not (bit_and ppn ((1 <<< (rem * 9)) - 1) == 0))
          (throw (page_fault q)) _ (thrown_faults q)
          (after_perms q (bit_and pte 0xFF) _ (
            ending_faults q (new_pte == pte) (store_pte D rounds q pte_addr new_pte) (rem == 0) _ _
              (store_faults q pte_addr new_pte) (set_faults q (tlb_index q) _)))

    walk_faults : (q : Query) (levels table_pa : ℕ) → RunFaults q (walk D rounds q levels table_pa)
    unfolding walk
    walk_faults q zero table_pa = thrown_faults q
    walk_faults q (suc rem) table_pa =
        let pte_addr = wrapping_add table_pa (bit_and (q.addr >>> (12 + rem * 9)) 0x1FF * 8) in
        let invalid : ℕ → Bool =
          λ pte. not (has_flag pte pte_v) || (has_flag pte pte_w && not (has_flag pte pte_r)) in
        let below : ℕ → Run (Memory F) MmuFault ℕ =
          λ pte. walk D rounds q rem (bit_and (pte >>> 10) 0x0FFF_FFFF_FFFF <<< 12) in
        let found : ℕ → Run (Memory F) MmuFault ℕ =
          λ pte. if has_flag pte 0x0A then leaf D rounds q rem pte_addr pte else below pte in
        after_load q pte_addr (λ pte. if invalid pte then throw (page_fault q) else found pte)
          (λ pte. if_faults q (invalid pte) (throw (page_fault q)) (found pte) (thrown_faults q) (
            if_faults q (has_flag pte 0x0A) (leaf D rounds q rem pte_addr pte) (below pte)
              (leaf_faults q rem pte_addr pte)
              (walk_faults q rem (bit_and (pte >>> 10) 0x0FFF_FFFF_FFFF <<< 12))))

    paged_faults : (q : Query) (levels : ℕ) → RunFaults q (translate_paged D rounds q levels)
    unfolding translate_paged
    paged_faults q levels w =
        let e = entry_at w (tlb_index q) in
        ground (
          arith,
          hit_faults q e w,
          walk_faults q levels (bit_and q.satp 0x0FFF_FFFF_FFFF <<< 12) w,
          thrown_faults q w,
        )

    -- Whatever the TLB, the tables and the devices hold, a translation that fails reports the page
    -- fault or the access fault of its own kind of access, at the address that was to be translated.
    pub translate-Faults : (q : Query) (w : Memory F) → Faults q (translate D rounds q w).1
    unfolding translate
    translate-Faults q w = ground (arith, paged_faults q (walk_levels q.satp) w)
