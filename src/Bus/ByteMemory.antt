-- ===== src/Bus/ByteMemory.antt =====
-- The RAM behind `load` and `store` of src/bus.rs as a map from addresses to bytes.
use native.Mathlib.Nat.{pow-succ', div-div-eq-div-mul}
use risc_v_business.Base.{
  ℕ, zero, suc, ◌+◌, ◌-◌, ◌*◌, ◌/◌, ◌%◌, ◌^◌, ◌≤◌, ◌<◌, ◌≡◌, refl, sym, ap, subst, ◌∙◌, Bool-cases,
  inl, inr, true, ltb, leb, ◌&&◌, if◌then◌else◌, List, [], ◌∷◌, length, get_or, set,
  get_or-set_self, get_or-set_ne, arith, Exit, ok, Run, ◌>>=◌, return, proceed,
}
use risc_v_business.Ram.{read_le, write_le}
use risc_v_business.Ram.Words.{length-write_le, get_or-write_le}
use risc_v_business.VirtioBlk.{Disk}
use risc_v_business.Bus.{Bus, BusFault, load, store, is_width}
use risc_v_business.Bus.Access.{IsPlain, Fits, InRam, load_inside, store_inside}

-- A memory of bytes, and little-endian words in it.
abbrev pub Bytes : Type 0
Bytes = ℕ → ℕ

unfoldable pub word_at : Bytes → ℕ → ℕ → ℕ
word_at mem addr zero = 0
word_at mem addr (suc n) = mem addr + 256 * word_at mem (suc addr) n

unfoldable pub with_word : Bytes → ℕ → ℕ → ℕ → Bytes
with_word mem addr n value a =
    if leb addr a && ltb a (addr + n) then value / 256 ^ (a - addr) % 256 else mem a

-- What a program asks of the memory.
pub data Request : Type 0 where
  read : (addr width : ℕ) → Request
  write : (addr width value : ℕ) → Request

-- What the reads give, in order, on the memory of bytes.
unfoldable pub answers : List Request → Bytes → List ℕ
answers [] mem = []
answers (read addr width ∷ rs) mem = word_at mem addr width ∷ answers rs mem
answers (write addr width value ∷ rs) mem = answers rs (with_word mem addr width value)

get_or-write_le_inside :
    (ram : List ℕ) (off n v i : ℕ)
    → i < n
    → off + n ≤ length ram
    → get_or (write_le ram off n v) (off + i) 0 ≡ v / 256 ^ i % 256
unfolding write_le
get_or-write_le_inside ram off zero v i h hl = absurd (omega arith)
get_or-write_le_inside ram off (suc n) v zero h hl =
    let rest = write_le ram (suc off) n (v / 256) in
    let own : off < length rest = omega (arith, length-write_le ram (suc off) n (v / 256), hl) in
    ap (λ j. get_or (set rest off (v % 256)) j 0) {x = off + 0} {y = off} (omega arith)
    ∙ (get_or-set_self rest off (v % 256) 0 own ∙ omega arith)
get_or-write_le_inside ram off (suc n) v (suc i) h hl =
    let rest = write_le ram (suc off) n (v / 256) in
    get_or-set_ne rest off (off + suc i) (v % 256) 0 (omega arith)
    ∙ (ap (λ j. get_or rest j 0) {x = off + suc i} {y = suc off + i} (omega arith)
        ∙ (get_or-write_le_inside ram (suc off) n (v / 256) i (omega arith) (omega arith)
            ∙ (ap (λ t. t % 256) (div-div-eq-div-mul v 256 (256 ^ i))
                ∙ ap (λ t. v / t % 256) (sym (pow-succ' 256 i)))))

-- A request for the RAM of `size` bytes at `base`: no device answers, and the width is one of the four.
abbrev pub IsServed : ℕ → ℕ → Request → Type 0
IsServed base size (read addr width) =
    IsPlain addr × ((is_width width ≡ true) × ((base ≤ addr) × (addr + width ≤ base + size)))
IsServed base size (write addr width value) =
    IsPlain addr × ((is_width width ≡ true) × ((base ≤ addr) × (addr + width ≤ base + size)))

abbrev pub AllServed : ℕ → ℕ → List Request → Type 0
AllServed base size [] = Unit
AllServed base size (r ∷ rs) = IsServed base size r × AllServed base size rs

module _ {F : Type 0} where
  -- The RAM holds the bytes of the memory.
  abbrev pub Agrees : Bus F → Bytes → Type 0
  Agrees b mem = (i : ℕ) → i < length b.ram → get_or b.ram i 0 ≡ mem (b.ram_base + i)

  pub read_le-word_at :
      (b : Bus F) (mem : Bytes) (off n : ℕ)
      → Agrees b mem
      → off + n ≤ length b.ram
      → read_le b.ram off n ≡ word_at mem (b.ram_base + off) n
  unfolding read_le word_at
  read_le-word_at b mem off zero h hl = refl
  read_le-word_at b mem off (suc n) h hl =
      let rest = read_le-word_at b mem (suc off) n h (omega arith) in
      let next : word_at mem (b.ram_base + suc off) n ≡ word_at mem (suc (b.ram_base + off)) n =
        ap (λ t. word_at mem t n) (omega arith) in
      omega (arith, h off (omega arith), rest, next)

  pub written-Agrees :
      (b : Bus F) (mem : Bytes) (addr width value : ℕ)
      → Agrees b mem
      → InRam b addr width
      → Agrees
          (record b { ram = write_le b.ram (addr - b.ram_base) width value })
          (with_word mem addr width value)
  unfolding with_word
  written-Agrees b mem addr width value h hr i hi =
      let off = addr - b.ram_base in
      let a = b.ram_base + i in
      let size = length-write_le b.ram off width value in
      let new = write_le b.ram off width value in
      elim (Bool-cases (leb addr a && ltb a (addr + width))) [
        | inl t ↦
            let k = a - addr in
            rw t (
              ap (λ j. get_or new j 0) {x = i} {y = off + k} (ground (arith, t, hr))
              ∙ get_or-write_le_inside b.ram off width value k (ground (arith, t))
                  (omega (arith, hr)))
        | inr t ↦ rw t (
            get_or-write_le b.ram off width value i (ground (arith, t, hr))
            ∙ h i (omega (arith, hi, size)))
      ]

  module _ (D : Disk F) (rounds : ℕ) where
    -- The requests on the bus, until one of them fails.
    unfoldable pub serve : List Request → Run (Bus F) BusFault (List ℕ)
    serve [] = return []
    serve (read addr width ∷ rs) = do v ← load addr width; vs ← serve rs; return (v ∷ vs)
    serve (write addr width value ∷ rs) = store D rounds addr width value >>= λ _. serve rs

    -- The bus, asked for RAM only, is a memory of bytes: the reads of any sequence of reads and writes
    -- give what they give on a map from addresses to bytes that starts with the bytes of the RAM. The
    -- RAM ends below 2 ^ 64, no device answers at the addresses, and each request lies in the RAM and
    -- has a width of 1, 2, 4 or 8.
    pub serve-answers :
        (rs : List Request) (b : Bus F) (mem : Bytes)
        → Fits b
        → Agrees b mem
        → AllServed b.ram_base (length b.ram) rs
        → (serve rs b).1 ≡ ok (answers rs mem)
    unfolding serve answers
    serve-answers [] b mem hf ha hs = refl
    serve-answers (read addr width ∷ rs) b mem hf ha ((hp, (hw, hr)), hs) =
        let off = addr - b.ram_base in
        let value : read_le b.ram off width ≡ word_at mem addr width =
          read_le-word_at b mem off width ha (omega (arith, hr))
          ∙ ap (λ t. word_at mem t width) (omega (arith, hr)) in
        ap
          (λ (o : Bus F × Exit BusFault ℕ).
            (proceed (λ v. serve rs >>= λ vs. return (v ∷ vs)) o.0 o.1).1)
          (load_inside b addr width hp hw hf hr)
        ∙ (ap
              (λ (r : Exit BusFault (List ℕ)).
                (proceed (λ vs. return (read_le b.ram off width ∷ vs)) (serve rs b).0 r).1)
              (serve-answers rs b mem hf ha hs)
            ∙ ap (λ v. ok (v ∷ answers rs mem)) value)
    serve-answers (write addr width value ∷ rs) b mem hf ha ((hp, (hw, hr)), hs) =
        let b' = record b { ram = write_le b.ram (addr - b.ram_base) width value } in
        let size = length-write_le b.ram (addr - b.ram_base) width value in
        ap (λ (o : Bus F × Exit BusFault (Unit {0})). (proceed (λ _. serve rs) o.0 o.1).1)
          (store_inside D rounds b addr width value hp hw hf hr)
        ∙ serve-answers rs b' (with_word mem addr width value) (omega (arith, hf, size))
            (written-Agrees b mem addr width value ha hr)
            (subst (λ n. AllServed b.ram_base n rs) (sym size) hs)
