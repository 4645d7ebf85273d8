-- ===== src/Base/Bits.antt =====
-- `&`, `|` and `!` of machine words, bit by bit: bit `k` of `x` is `x / 2 ^ k % 2`.
mod Step
mod Numeric
mod Laws
mod Single
mod Table
mod Masks
pub use Numeric.*
pub use Laws.*
pub use Single.*
pub use Table.*
pub use Masks.*
