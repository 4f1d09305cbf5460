-- ===== src/Scenarios.antt =====
-- Runs of the model at concrete inputs, one for each theorem that has conditions.
pub mod World
pub mod Uploads
pub mod Locks
pub mod Users
pub mod Logins
pub mod Tree
pub mod Blocks
pub mod Calls
pub mod Containers
pub mod Nodes
pub mod Files
pub mod Receipts
pub mod Writing
pub mod Listing
