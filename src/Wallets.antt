-- ===== src/Wallets.antt =====
-- The wallets of a user: `createCustomWallet`, `createCustomMultisig`, `addAddressToWallet`,
-- `changeName` and `deleteWallet` of client/rest.go, `DeleteWallet` and `CheckAddWallet` of
-- store/store.go.
pub mod Params
pub mod Create
pub mod Update
pub mod Delete
pub mod Distinct
pub mod Positions
pub mod Balances
pub mod Indexes
pub mod Names
mod Tests
