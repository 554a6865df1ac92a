-- ===== src/Calldata.antt =====
-- The input of multisig transactions: `fetchMethod`, `parseSubmitInput`, `parseRevokeInput` and
-- `signatuteToStatus` of eth/utils.go, and the parts of math/big and regexp that they use.
mod Defs
pub mod Numbers
pub mod Blocks
pub mod Submit
pub mod Revoke
mod Tests
unfoldable pub use Defs.*
