-- ===== src/Tests.antt =====
-- Sample workers and tasks, and the theorems at these.
pub mod World
pub mod Queue
pub mod Reports
pub mod Resources
pub mod Lifecycle
mod Uploads
mod Cleanup
mod Admin
