-- ===== src/Mmu/Tests.antt =====
-- Tests of `Mmu`.
use risc_v_business.Base.{ℕ, ◌+◌, ◌*◌, ◌≡◌, ◌⊎◌, ◌↔◌, refl, false, ◌<<<◌, ok, err}
use risc_v_business.VirtioBlk.{Disk}
use risc_v_business.Bus
use risc_v_business.Mmu.{
  s, load, Memory, Query, new, check_perms, mode_allows, page_allows, pf_cause, set_entry, leaf,
  translate, is_canonical,
}
use risc_v_business.Mmu.Perms.{ModeMay, PageMay, check_perms_decides}
use risc_v_business.Mmu.Walk.{Faults, translate-Faults}
use risc_v_business.Mmu.Tlb.{Refilled, leaf_refills}

-- A disk that is never there.
abbrev no_disk : Disk ℕ
no_disk = record {
  seek = λ f n. (f, false);
  read_exact = λ f bs. (f, bs, false);
  write_all = λ f bs. (f, false);
}

abbrev memory : Memory ℕ
memory = record { mmu = new; bus = Bus.new 16 0x8000_0000 }

-- A load in S-mode under Sv39.
abbrev query : Query
query = record {
  satp = (8 <<< 60) + 0x80001;
  mode = s;
  mstatus = 0;
  addr = 0x4000_0123;
  access = load;
}

-- A page of RAM that may be read, with A and D set.
abbrev page : ℕ
page = 0x80003 * 1024 + 0xC3

check_perms_decides_example :
    ((check_perms 0xDF 0 s load 0x1000 ≡ ok tt) ↔ (ModeMay 0xDF 0 s × PageMay 0xDF 0 load))
    × ((check_perms 0xDF 0 s load 0x1000 ≡ ok tt)
        ⊎ (check_perms 0xDF 0 s load 0x1000
            ≡ err (record { cause = pf_cause load; tval = 0x1000 })))
check_perms_decides_example = check_perms_decides 0xDF 0 0x1000 s load

translate-Faults_example : Faults query (translate no_disk 4 query memory).1
translate-Faults_example = translate-Faults no_disk 4 query memory

leaf_refills_example :
    Refilled no_disk 4 query 3 0x8000_0008 page 0x8000_3123
      (leaf no_disk 4 query 0 0x8000_0008 page memory).0
unfolding leaf check_perms mode_allows page_allows set_entry new is_canonical
leaf_refills_example =
    leaf_refills no_disk 4 query 3 0x8000_0008 page 0x8000_3123 memory refl refl refl
