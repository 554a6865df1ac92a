-- ===== src/Store.antt =====
-- store/: the documents, the collections that hold them, and the operations of `MongoUserStore`.
pub mod Schemas
pub mod Collection
pub mod Memory
pub mod Members
pub mod Removal
pub mod Pointwise
pub mod Multisigs
pub mod Transactions
pub mod Deletion
pub mod Views
pub mod Queries
pub mod Watched
