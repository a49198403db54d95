-- ===== src/Tests.antt =====
-- Runs of the models on concrete inputs, and the theorems applied to them.
pub mod Transfers
pub mod Queues
pub mod Submissions
pub mod Accounts
pub mod Settings
pub mod Requests
pub mod Sequential
