-- ===== src/Loader/Placed.antt =====
-- Where the loader of src/loader.rs puts the bytes of a segment.
use risc_v_business.Base.{
  ℕ, zero, suc, ◌+◌, ◌-◌, ◌^◌, ◌≤◌, ◌<◌, ◌≡◌, inl, inr, refl, ap, ◌∙◌, Bool-cases, ◌==◌, true, not,
  ltb, leb, ◌&&◌, if◌then◌else◌, Option, some, List, [], ◌∷◌, length, get_or, set, get_or-set_self,
  get_or-set_ne, arith, wrapping_add, Exit, ok, err,
}
use risc_v_business.Ram.{read_bytes, write_bytes}
use risc_v_business.Ram.Words.{length-write_bytes}
use risc_v_business.Loader.{
  ProgramHeader, LoadError, below_ram, ram_base, slice, place, load_segment,
}

get_or-write_bytes :
    (ram : List ℕ) (off : ℕ) (bs : List ℕ) (j : ℕ)
    → off + length bs ≤ length ram
    → get_or (write_bytes ram off bs) j 0
      ≡ (if leb off j && ltb j (off + length bs) then get_or bs (j - off) 0 else get_or ram j 0)
unfolding write_bytes
get_or-write_bytes ram off [] j h = ground arith
get_or-write_bytes ram off (b ∷ bs) j h =
    let rest = write_bytes ram (suc off) bs in
    let size = length-write_bytes ram (suc off) bs in
    elim (Bool-cases (j == off)) [
      | inl t ↦
          let e : j ≡ off = ground (arith, t) in
          ground (
            arith,
            t,
            ap (λ i. get_or (set rest off b) i 0) e,
            get_or-set_self rest off b 0 (omega (arith, size, h)),
            ap (λ i. get_or (b ∷ bs) i 0) {x = j - off} {y = 0} (omega (arith, e)),
          )
      | inr t ↦ ground (
        arith,
        t,
        get_or-set_ne rest off j b 0 (ground (arith, t)),
        get_or-write_bytes ram (suc off) bs j (omega (arith, h)),
        λ (p : off < j).
            ap (λ i. get_or (b ∷ bs) i 0) {x = j - off} {y = suc (j - suc off)} (omega (arith, p)),
      )
    ]

length-read_bytes : (ram : List ℕ) (off n : ℕ) → length (read_bytes ram off n) ≡ n
unfolding read_bytes
length-read_bytes ram off zero = refl
length-read_bytes ram off (suc n) = ap suc (length-read_bytes ram (suc off) n)

get_or-read_bytes :
    (ram : List ℕ) (off n i : ℕ)
    → i < n
    → get_or (read_bytes ram off n) i 0 ≡ get_or ram (off + i) 0
unfolding read_bytes
get_or-read_bytes ram off zero i h = absurd (omega arith)
get_or-read_bytes ram off (suc n) zero h = ap (λ j. get_or ram j 0) (omega arith)
get_or-read_bytes ram off (suc n) (suc i) h =
    get_or-read_bytes ram (suc off) n i (omega arith) ∙ ap (λ j. get_or ram j 0) (omega arith)

-- The segment lies in the file, and its place in the RAM of `size` bytes; nothing wraps.
pub record HasRoom (size : ℕ) (bytes : List ℕ) (load_offset : ℕ) (ph : ProgramHeader) : Type 0 where
  pub is_load : ph.is_load ≡ true
  pub in_file : ph.p_offset + ph.p_filesz ≤ length bytes
  pub no_wrap : length bytes < 2 ^ 64
  pub above_base : ram_base ≤ ph.p_paddr + load_offset
  pub below_end : ph.p_paddr + load_offset + ph.p_filesz ≤ ram_base + size
  pub addressable : ram_base + size < 2 ^ 64

slice_inside :
    (bytes : List ℕ) (start n : ℕ)
    → start + n ≤ length bytes
    → length bytes < 2 ^ 64
    → slice bytes start (wrapping_add start n) ≡ some (read_bytes bytes start n)
unfolding slice
slice_inside bytes start n h top =
    let e : wrapping_add start n - start ≡ n = omega (arith, h, top) in
    ground (arith, h, top, ap (λ k. some (read_bytes bytes start k)) e)

-- `load_segment` by the address and the bytes that it has computed.
abbrev placed : ℕ → List ℕ → ProgramHeader → List ℕ → Option (List ℕ) → ℕ → Exit LoadError (List ℕ)
placed size bytes ph ram found mem_addr =
    if not ph.is_load
    then ok ram
    else if ltb mem_addr ram_base
    then err (below_ram mem_addr)
    else place size mem_addr bytes ph.p_filesz found ram

-- A segment that has room is placed: each byte of the RAM is the byte of the file that belongs there,
-- or as it was, and the RAM keeps its size.
pub load_segment-HasRoom :
    (size : ℕ) (bytes : List ℕ) (load_offset : ℕ) (ph : ProgramHeader) (ram : List ℕ)
    → length ram ≡ size
    → HasRoom size bytes load_offset ph
    → let start = ph.p_paddr + load_offset - ram_base in
      (ram' : List ℕ) × ((load_segment size bytes load_offset ph ram ≡ ok ram')
        × ((length ram' ≡ size)
            × ((j : ℕ)
                → get_or ram' j 0 ≡ (
                    if leb start j && ltb j (start + ph.p_filesz)
                    then get_or bytes (ph.p_offset + (j - start)) 0
                    else get_or ram j 0))))
unfolding load_segment place
load_segment-HasRoom size bytes load_offset ph ram hl h =
    let start = ph.p_paddr + load_offset - ram_base in
    let segment = read_bytes bytes ph.p_offset ph.p_filesz in
    let size' = length-read_bytes bytes ph.p_offset ph.p_filesz in
    let new = write_bytes ram start segment in
    (
      new,
      (
        ap
              (placed size bytes ph ram
                (slice bytes ph.p_offset (wrapping_add ph.p_offset ph.p_filesz)))
              {x = wrapping_add ph.p_paddr load_offset} {y = ph.p_paddr + load_offset}
              (omega (arith, h.below_end, h.addressable))
            ∙ (ap (λ o. placed size bytes ph ram o (ph.p_paddr + load_offset))
                  (slice_inside bytes ph.p_offset ph.p_filesz h.in_file h.no_wrap)
                ∙ ground (arith, h.is_load, h.above_base, h.below_end, size')),
        (
          length-write_bytes ram start segment ∙ hl,
          λ j. ground (
            arith,
            size',
            get_or-write_bytes ram start segment j
                (omega (arith, size', hl, h.above_base, h.below_end)),
            λ (p : j - start < ph.p_filesz).
                get_or-read_bytes bytes ph.p_offset ph.p_filesz (j - start) p,
          ),
        ),
      ),
    )
