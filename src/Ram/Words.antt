-- ===== src/Ram/Words.antt =====
-- Words written to RAM read back, and words elsewhere are untouched.
use native.Mathlib.Nat.{pow-succ'}
use mathlib.Core.Path.{ap₂}
use risc_v_business.Base.{
  ℕ, zero, suc, ◌+◌, ◌*◌, ◌/◌, ◌%◌, ◌^◌, ◌≤◌, ◌<◌, ◌≡◌, ◌⊎◌, refl, ◌∙◌, List, [], ◌∷◌, arith,
  length, get_or, set, length-set, get_or-set_self, get_or-set_ne, mod-mul_split,
}
use risc_v_business.Ram.{read_le, write_le, write_bytes}

pub length-write_le : (ram : List ℕ) (off n v : ℕ) → length (write_le ram off n v) ≡ length ram
unfolding write_le
length-write_le ram off zero v = refl
length-write_le ram off (suc n) v =
    length-set (write_le ram (suc off) n (v / 256)) off (v % 256)
    ∙ length-write_le ram (suc off) n (v / 256)

pub length-write_bytes :
    (ram : List ℕ) (off : ℕ) (bs : List ℕ) → length (write_bytes ram off bs) ≡ length ram
unfolding write_bytes
length-write_bytes ram off [] = refl
length-write_bytes ram off (b ∷ bs) =
    length-set (write_bytes ram (suc off) bs) off b ∙ length-write_bytes ram (suc off) bs

-- A byte outside the word that is written keeps its value.
pub get_or-write_le :
    (ram : List ℕ) (off n v j : ℕ)
    → (j < off) ⊎ (off + n ≤ j)
    → get_or (write_le ram off n v) j 0 ≡ get_or ram j 0
unfolding write_le
get_or-write_le ram off zero v j h = refl
get_or-write_le ram off (suc n) v j h =
    get_or-set_ne (write_le ram (suc off) n (v / 256)) off j (v % 256) 0 (ground arith)
    ∙ get_or-write_le ram (suc off) n (v / 256) j (ground arith)

-- A word depends on its bytes only.
pub read_le_ext :
    (xs ys : List ℕ) (off n : ℕ)
    → ((j : ℕ) → off ≤ j → j < off + n → get_or xs j 0 ≡ get_or ys j 0)
    → read_le xs off n ≡ read_le ys off n
unfolding read_le
read_le_ext xs ys off zero h = refl
read_le_ext xs ys off (suc n) h = omega (
  arith,
  h off (omega arith) (omega arith),
  read_le_ext xs ys (suc off) n (λ j p q. h j (omega arith) (omega arith)),
)

-- A word that lies apart from the one written reads as before.
pub read_le-write_le_apart :
    (ram : List ℕ) (off n v off' n' : ℕ)
    → (off' + n' ≤ off) ⊎ (off + n ≤ off')
    → read_le (write_le ram off n v) off' n' ≡ read_le ram off' n'
read_le-write_le_apart ram off n v off' n' h =
    read_le_ext (write_le ram off n v) ram off' n'
      (λ j p q. get_or-write_le ram off n v j (ground arith))

-- The word that was written reads back, cut to its width.
pub read_le-write_le :
    (ram : List ℕ) (off n v : ℕ)
    → off + n ≤ length ram
    → read_le (write_le ram off n v) off n ≡ v % 256 ^ n
unfolding read_le write_le
read_le-write_le ram off zero v h = omega arith
read_le-write_le ram off (suc n) v h =
    let rest = write_le ram (suc off) n (v / 256) in
    rw (pow-succ' 256 n, mod-mul_split 256 (256 ^ n) v)
      (ap₂ (λ x y. x + 256 * y)
        (get_or-set_self rest off (v % 256) 0
          (omega (arith, length-write_le ram (suc off) n (v / 256))))
        (read_le_ext (set rest off (v % 256)) rest (suc off) n
            (λ j p q. get_or-set_ne rest off j (v % 256) 0 (omega arith))
          ∙ read_le-write_le ram (suc off) n (v / 256) (omega arith)))

-- Every byte below 256.
abbrev pub IsBytes : List ℕ → Type 0
IsBytes ram = (j : ℕ) → get_or ram j 0 < 256

pub read_le-lt : (ram : List ℕ) (off n : ℕ) → IsBytes ram → read_le ram off n < 256 ^ n
unfolding read_le
read_le-lt ram off zero h = omega arith
read_le-lt ram off (suc n) h = omega (arith, h off, read_le-lt ram (suc off) n h, pow-succ' 256 n)
