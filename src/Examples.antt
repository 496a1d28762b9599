-- ===== src/Examples.antt =====
-- Concrete rows and worlds, and the theorems at them.
pub mod Data
pub mod Queue
pub mod Reads
pub mod Texts
pub mod Stores
pub mod Runs
pub mod Logs
pub mod Pages
pub mod Harvests
pub mod Requests
pub mod Neighbors
pub mod Snapshots
