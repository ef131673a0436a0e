-- ===== src/Tests.antt =====
-- Concrete inputs on which the theorems hold, and small runs of the commands.
mod Data
mod Acl
mod Keyspace
mod Faults
mod Values
mod ZSets
mod Utf8
mod Wire
mod Server
