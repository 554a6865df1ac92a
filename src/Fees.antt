-- ===== src/Fees.antt =====
-- The fee estimate of client/rest.go: `fetchMempool`, `average` and `fetchQuantile`.
-- A fee is an int64, kept as its 64-bit pattern; a panic is `none`.
mod Defs
pub mod Quantile
pub mod Order
pub mod Average
pub mod Estimate
mod Tests
unfoldable pub use Defs.*
