-- ===== src/Ram.antt =====
-- Guest RAM, the `Vec<u8>` of src/bus.rs, as a list of bytes: little-endian words and slices of it.
pub mod Words
use risc_v_business.Base.{ℕ, zero, suc, ◌+◌, ◌*◌, ◌/◌, ◌%◌, List, [], ◌∷◌, get_or, set}

-- `uN::from_le_bytes(ram[off..off + n])`.
unfoldable pub read_le : List ℕ → ℕ → ℕ → ℕ
read_le ram off zero = 0
read_le ram off (suc n) = get_or ram off 0 + 256 * read_le ram (suc off) n

-- `ram[off..off + n].copy_from_slice(&v.to_le_bytes())`.
unfoldable pub write_le : List ℕ → ℕ → ℕ → ℕ → List ℕ
write_le ram off zero v = ram
write_le ram off (suc n) v = set (write_le ram (suc off) n (v / 256)) off (v % 256)

-- `ram[off..off + bytes.len()].copy_from_slice(bytes)`.
unfoldable pub write_bytes : List ℕ → ℕ → List ℕ → List ℕ
write_bytes ram off [] = ram
write_bytes ram off (b ∷ bs) = set (write_bytes ram (suc off) bs) off b

-- `ram[off..off + n]`.
unfoldable pub read_bytes : List ℕ → ℕ → ℕ → List ℕ
read_bytes ram off zero = []
read_bytes ram off (suc n) = get_or ram off 0 ∷ read_bytes ram (suc off) n
