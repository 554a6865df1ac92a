-- ===== src/Ether.antt =====
-- The history of Ethereum transactions: `saveTransaction`, `updateWalletAndAddressDate` and
-- `sendNotifyToClients` of eth/utils.go.
pub mod Save
pub mod Dates
pub mod History
mod Tests
