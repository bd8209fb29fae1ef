-- ===== src/Txn.antt =====
-- src/sdk/transaction: the client's side of a transaction.
pub mod Buffer
pub mod Machine
pub mod Manager
pub mod Scan
pub mod Task
pub mod Get
pub mod CheckStatus
pub mod Heartbeat
pub mod KeyTasks
pub mod ResolvedLocks
pub mod SecondaryLocks
pub mod Resolver
