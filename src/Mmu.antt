-- ===== src/Mmu.antt =====
-- Address translation, src/cpu/mmu.rs: the TLB, the permission check and the page-table walk. The
-- state is the TLB and the bus, which the source borrows together.
pub mod Perms
pub mod Walk
pub mod Touch
pub mod Tlb
mod Tests
use risc_v_business.Base.{
  ℕ, zero, suc, ◌+◌, ◌-◌, ◌*◌, ◌/◌, ◌%◌, ◌^◌, Bool, true, false, not, ◌&&◌, ◌||◌, ltb, leb, ◌==◌,
  if◌then◌else◌, List, get_or, set, replicate, map, bit_and, bit_or, ◌>>>◌, ◌<<<◌, asr64, max_u64,
  wrapping_add, Run, Exit, ok, err, panic, hang, ◌>>=◌, ◌>>◌, return, throw, map_err,
}
use risc_v_business.VirtioBlk.{Disk}
use risc_v_business.Bus
use risc_v_business.Bus.{Bus}

-- `PrivMode` of src/cpu/mod.rs, and its numbers.
pub data PrivMode : Type 0 where
  u s m : PrivMode

abbrev pub mode_number : PrivMode → ℕ
mode_number u = 0
mode_number s = 1
mode_number m = 3

pub data AccessType : Type 0 where
  fetch load store : AccessType

abbrev pub pte_v : ℕ
pte_v = 0x01

abbrev pub pte_r : ℕ
pte_r = 0x02

abbrev pub pte_w : ℕ
pte_w = 0x04

abbrev pub pte_x : ℕ
pte_x = 0x08

abbrev pub pte_u : ℕ
pte_u = 0x10

abbrev pub pte_g : ℕ
pte_g = 0x20

abbrev pub pte_a : ℕ
pte_a = 0x40

abbrev pub pte_d : ℕ
pte_d = 0x80

-- `perm & FLAG != 0`.
abbrev pub has_flag : ℕ → ℕ → Bool
has_flag perm flag = not (bit_and perm flag == 0)

pub record MmuFault : Type 0 where
  pub cause : ℕ
  pub tval : ℕ

pub record TlbEntry : Type 0 where
  pub valid : Bool
  pub vpn : ℕ
  pub ppn : ℕ
  pub perm : ℕ
  pub asid : ℕ
  pub pte_addr : ℕ

abbrev pub empty_entry : TlbEntry
empty_entry = record { valid = false; vpn = 0; ppn = 0; perm = 0; asid = 0; pte_addr = 0 }

pub record Mmu : Type 0 where
  pub tlb : List TlbEntry

abbrev pub tlb_size : ℕ
tlb_size = 64

unfoldable pub new : Mmu
new = record { tlb = replicate tlb_size empty_entry }

abbrev pub invalidate : TlbEntry → TlbEntry
invalidate e = record e { valid = false }

unfoldable pub flush : Mmu → Mmu
flush t = record { tlb = map invalidate t.tlb }

abbrev pub pf_cause : AccessType → ℕ
pf_cause fetch = 12
pf_cause load = 13
pf_cause store = 15

abbrev pub af_cause : AccessType → ℕ
af_cause fetch = 1
af_cause load = 5
af_cause store = 7

-- The first half of `check_perms`: does the mode allow the page?
unfoldable pub mode_allows : ℕ → ℕ → PrivMode → Bool
mode_allows perm mstatus u = has_flag perm pte_u
mode_allows perm mstatus s = not (has_flag perm pte_u && bit_and (mstatus >>> 18) 1 == 0)
mode_allows perm mstatus m = true

-- The second half: does the page allow the access? MXR lets a load read an executable page.
unfoldable pub page_allows : ℕ → ℕ → AccessType → Bool
page_allows perm mstatus fetch = has_flag perm pte_x
page_allows perm mstatus load =
    has_flag perm pte_r || (not (bit_and (mstatus >>> 19) 1 == 0) && has_flag perm pte_x)
page_allows perm mstatus store = has_flag perm pte_w

unfoldable pub check_perms : ℕ → ℕ → PrivMode → AccessType → ℕ → Exit MmuFault (Unit {0})
check_perms perm mstatus mode access tval =
    if mode_allows perm mstatus mode && page_allows perm mstatus access
    then ok tt
    else err (record { cause = pf_cause access; tval = tval })

-- The flags after an access: accessed, and dirty after a store.
abbrev pub touch : ℕ → AccessType → ℕ
touch perm fetch = bit_or perm pte_a
touch perm load = bit_or perm pte_a
touch perm store = bit_or (bit_or perm pte_a) pte_d

pub record Memory (F : Type 0) : Type 0 where
  pub mmu : Mmu
  pub bus : Bus F

-- What a translation is asked, but for the state.
pub record Query : Type 0 where
  pub satp : ℕ
  pub mode : PrivMode
  pub mstatus : ℕ
  pub addr : ℕ
  pub access : AccessType

abbrev pub page_fault : Query → MmuFault
page_fault q = record { cause = pf_cause q.access; tval = q.addr }

abbrev pub access_fault : Query → MmuFault
access_fault q = record { cause = af_cause q.access; tval = q.addr }

abbrev pub vpn_of : Query → ℕ
vpn_of q = q.addr >>> 12

abbrev pub asid_of : Query → ℕ
asid_of q = bit_and (q.satp >>> 44) 0xFFFF

abbrev pub tlb_index : Query → ℕ
tlb_index q = bit_and (vpn_of q) 63

-- The test on the address: the bits above the top page number repeat its highest bit.
unfoldable pub is_canonical : ℕ → ℕ → Bool
is_canonical levels addr = let top = asr64 addr (12 + levels * 9 - 1) in top == 0 || top == max_u64

-- The walk depth, from the mode field of `satp`; 0 where translation is off.
unfoldable pub walk_levels : ℕ → ℕ
walk_levels satp = if (satp >>> 60) == 8 then 3 else if (satp >>> 60) == 10 then 5 else 0

-- Does the entry serve the query?
unfoldable pub matches : TlbEntry → Query → Bool
matches e q = e.valid && (e.vpn == vpn_of q && (e.asid == asid_of q || has_flag e.perm pte_g))

module _ {F : Type 0} where
  abbrev pub from_exit : {A : Type 0} → Exit MmuFault A → Run (Memory F) MmuFault A
  from_exit r w = (w, r)

  -- `bus.load(addr, 8)`, a fault of the bus being an access fault.
  unfoldable pub load_pte : Query → ℕ → Run (Memory F) MmuFault ℕ
  load_pte q addr w =
      let (b, r) = Bus.load addr 8 w.bus in (record w { bus = b }, map_err (access_fault q) r)

  unfoldable pub set_entry : ℕ → TlbEntry → Run (Memory F) MmuFault (Unit {0})
  set_entry idx e w = (record w { mmu = record { tlb = set w.mmu.tlb idx e } }, ok tt)

  abbrev pub entry_at : Memory F → ℕ → TlbEntry
  entry_at w idx = get_or w.mmu.tlb idx empty_entry

  module _ (D : Disk F) (rounds : ℕ) where
    unfoldable pub store_pte : Query → ℕ → ℕ → Run (Memory F) MmuFault (Unit {0})
    store_pte q addr pte w =
        let (b, r) = Bus.store D rounds addr 8 pte w.bus in
        (record w { bus = b }, map_err (access_fault q) r)

    -- `bus.store(..).ok()`: an `Err` is dropped.
    unfoldable pub store_pte_ok : ℕ → ℕ → Run (Memory F) MmuFault (Unit {0})
    store_pte_ok addr pte w =
        let (b, r) = Bus.store D rounds addr 8 pte w.bus in
        (record w { bus = b }, elim r [ ok x ↦ ok x | err e ↦ ok tt | panic ↦ panic | hang ↦ hang ])

    -- A hit: the permissions are those cached, and the flags are written back from the entry.
    unfoldable pub hit : Query → TlbEntry → Run (Memory F) MmuFault ℕ
    hit q e = do
      from_exit (check_perms e.perm q.mstatus q.mode q.access q.addr)
      let new_perm = touch e.perm q.access
      let update =
          store_pte_ok e.pte_addr (bit_or (e.ppn <<< 10) new_perm)
          >> set_entry (tlb_index q) (record e { perm = new_perm })
      if new_perm == e.perm then return tt else update
      return (bit_or (e.ppn <<< 12) (bit_and q.addr 0xFFF))

    -- A leaf of the page table, `rem` levels above the last.
    unfoldable pub leaf : Query → ℕ → ℕ → ℕ → Run (Memory F) MmuFault ℕ
    leaf q rem pte_addr pte =
        let ppn = bit_and (pte >>> 10) 0x0FFF_FFFF_FFFF in
        let new_pte = touch pte q.access in
        let page_bits = 12 + rem * 9 in
        let pa =
          bit_or (ppn >>> (rem * 9) <<< page_bits) (bit_and q.addr ((1 <<< page_bits) - 1)) in
        let entry : TlbEntry = record {
          valid = true;
          vpn = vpn_of q;
          ppn = ppn;
          perm = bit_and new_pte 0xFF;
          asid = asid_of q;
          pte_addr = pte_addr;
        } in
        let rest : Run (Memory F) MmuFault ℕ = (do
          from_exit (check_perms (bit_and pte 0xFF) q.mstatus q.mode q.access q.addr)
          if new_pte == pte then return tt else store_pte q pte_addr new_pte
          if rem == 0 then set_entry (tlb_index q) entry else return tt
          return pa) in
        if not (rem == 0) && not (bit_and ppn ((1 <<< (rem * 9)) - 1) == 0)
        then throw (page_fault q)
        else rest

    -- The loop over the levels, with `left` of them to go.
    unfoldable pub walk : Query → ℕ → ℕ → Run (Memory F) MmuFault ℕ
    walk q zero table_pa = throw (page_fault q)
    walk q (suc rem) table_pa =
        let pte_addr = wrapping_add table_pa (bit_and (q.addr >>> (12 + rem * 9)) 0x1FF * 8) in
        (load_pte q pte_addr >>= λ pte.
        let below = walk q rem (bit_and (pte >>> 10) 0x0FFF_FFFF_FFFF <<< 12) in
        if not (has_flag pte pte_v) || (has_flag pte pte_w && not (has_flag pte pte_r))
        then throw (page_fault q)
        else if has_flag pte 0x0A
        then leaf q rem pte_addr pte
        else below)

    -- Translation through the TLB and the tables, where it is on.
    unfoldable pub translate_paged : Query → ℕ → Run (Memory F) MmuFault ℕ
    translate_paged q levels w =
        let e = entry_at w (tlb_index q) in
        if not (is_canonical levels q.addr)
        then (w, err (page_fault q))
        else if matches e q
        then hit q e w
        else walk q levels (bit_and q.satp 0x0FFF_FFFF_FFFF <<< 12) w

    unfoldable pub translate : Query → Run (Memory F) MmuFault ℕ
    translate q =
        let levels = walk_levels q.satp in
        if levels == 0
        then return q.addr
        else elim q.mode [ m ↦ return q.addr | _ ↦ translate_paged q levels ]
