-- ===== src/Tests.antt =====
-- The theorems at concrete inputs.
pub mod State
pub mod Services
pub mod Plugins
pub mod Paths
pub mod Server
pub mod Snapshots
pub mod Validation
pub mod Commit
pub mod Interfaces
pub mod Requests
pub mod Observer
pub mod Apply
pub mod Runtime
pub mod Diff
pub mod System
pub mod Rollback
