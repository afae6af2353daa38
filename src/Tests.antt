-- ===== src/Tests.antt =====
-- Runs of the modelled code on concrete inputs, and the theorems at concrete inputs.
mod Bytes
mod Wire
mod Programs
mod Network
mod Contracts
mod Subsystem
mod Acceptor
mod Sessions
mod Transactions
