-- ===== src/Server.antt =====
-- src/server/Server.js: the server, one module for each of its parts.
pub mod Tables
pub mod KeyTables
pub mod Databases
pub mod Apart
pub mod Keys
pub mod Backlog
pub mod Resume
pub mod Session
pub mod Handler
pub mod Step
pub mod Access
pub mod Flush
pub mod Transactions
pub mod Exec
pub mod Unguarded
pub mod Atomic
