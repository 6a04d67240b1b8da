-- ===== src/TaskStore.antt =====
-- app/task_store.py: the task queue, the workers that claim from it, and their leases.
pub mod Workers
pub mod Capacity
pub mod Listing
pub mod Scheduling
pub mod Queue
pub mod Status
pub mod Submit
pub mod Touch
pub mod Roots
pub mod Registration
pub mod Claim
pub mod Report
pub mod Lifecycle
pub mod History
pub mod Assignment
pub mod Outcomes
pub mod Expiry
pub mod Dangling
