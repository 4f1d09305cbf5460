-- ===== src/Control.antt =====
-- src/dfsha/control/: the control node's metadata and what its handlers do with it.
pub mod Table
pub mod State
pub mod Auth
pub mod Leases
pub mod Locks
pub mod Paths
pub mod Planning
pub mod Coverage
pub mod Sources
pub mod Identity
pub mod Namespace
pub mod Uploads
pub mod Ledger
pub mod Placement
pub mod Registry
pub mod Inventory
pub mod Copies
pub mod Maintenance
pub mod Handles
pub mod Opening
pub mod Writes
pub mod Transfers
pub mod Durability
pub mod Patches
pub mod Grants
pub mod Listing
pub mod Login
