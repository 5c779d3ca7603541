-- ===== src/Bits.antt =====
-- The bit operations of C at variable words: one equation for each digit of a result, masks and
-- shifted fields as arithmetic, and equality of words by their digits.
mod Step
mod Digits
mod Fields
pub use Step.*
unfoldable pub use Digits.*
pub use Fields.*
