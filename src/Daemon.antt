-- ===== src/Daemon.antt =====
-- The packages of daemon/.
pub mod Config
pub mod State
pub mod Snapshots
pub mod Navigator
pub mod Path
pub mod Plugin
pub mod Registry
pub mod Services
pub mod Order
pub mod Server
pub mod Commit
pub mod Requests
pub mod Interfaces
pub mod Loading
pub mod Observer
pub mod Host
pub mod Apply
pub mod Checkpoints
pub mod Runtime
pub mod Startup
pub mod Diff
