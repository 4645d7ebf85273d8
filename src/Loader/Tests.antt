-- ===== src/Loader/Tests.antt =====
-- Tests of `Loader`.
use risc_v_business.Base.{
  ℕ, ◌+◌, ◌-◌, ◌≡◌, refl, arith, true, ltb, leb, ◌&&◌, if◌then◌else◌, List, [], ◌∷◌, length, get_or,
  ok, err,
}
use risc_v_business.Ram.{read_bytes, write_bytes}
use risc_v_business.Loader.{
  ProgramHeader, below_ram, exceeds_ram, out_of_file, ram_base, slice, place, load_segment,
}
use risc_v_business.Loader.Placed.{load_segment-HasRoom}

-- Bytes 1 and 2 of the file, for the second byte of RAM on.
abbrev header : ProgramHeader
header = record { is_load = true; p_offset = 1; p_filesz = 2; p_paddr = 0x8000_0001 }

abbrev file : List ℕ
file = 9 ∷ 8 ∷ 7 ∷ []

abbrev ram : List ℕ
ram = 0 ∷ 0 ∷ 0 ∷ 0 ∷ []

placed_bytes : load_segment 4 file 0 header ram ≡ ok (0 ∷ 8 ∷ 7 ∷ 0 ∷ [])
unfolding load_segment place slice read_bytes write_bytes
placed_bytes = refl

too_low : load_segment 4 file 0 (record header { p_paddr = 5 }) ram ≡ err (below_ram 5)
unfolding load_segment
too_low = refl

too_high :
    load_segment 4 file 0 (record header { p_paddr = 0x8000_0003 }) ram
    ≡ err (exceeds_ram 0x8000_0003 0x8000_0005)
unfolding load_segment place slice read_bytes
too_high = refl

short_file : load_segment 4 file 0 (record header { p_filesz = 3 }) ram ≡ err out_of_file
unfolding load_segment place slice
short_file = refl

load_segment-HasRoom_example :
    let start = 0x8000_0001 + 0 - ram_base in
    (ram' : List ℕ) × ((load_segment 4 file 0 header ram ≡ ok ram')
      × ((length ram' ≡ 4)
          × ((j : ℕ)
              → get_or ram' j 0 ≡ (
                  if leb start j && ltb j (start + 2)
                  then get_or file (1 + (j - start)) 0
                  else get_or ram j 0))))
load_segment-HasRoom_example = load_segment-HasRoom 4 file 0 header ram refl (record {
  is_load = refl;
  in_file = omega arith;
  no_wrap = omega arith;
  above_base = omega arith;
  below_end = omega arith;
  addressable = omega arith;
})
