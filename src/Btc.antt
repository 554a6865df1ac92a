-- ===== src/Btc.antt =====
-- Bitcoin: what btc/utils.go and btc/handlers.go make of the messages of the node, transactions and
-- spendable outputs.
pub mod Schemas
pub mod Convert
pub mod Save
pub mod Outputs
pub mod Info
pub mod Notify
pub mod Dates
pub mod Streams
mod Tests
