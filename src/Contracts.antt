-- ===== src/Contracts.antt =====
-- Multisig contracts on Ethereum: what eth/utils.go and eth/handlers.go make of the transactions and
-- the deployments that the node reports.
pub mod Owners
pub mod Internal
pub mod Requests
pub mod Submit
pub mod Confirm
pub mod Process
pub mod Deploy
pub mod Streams
pub mod Threshold
pub mod Repeat
pub mod Again
pub mod Entered
pub mod Frame
mod Tests
