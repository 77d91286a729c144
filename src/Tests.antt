-- ===== src/Tests.antt =====
-- The theorems at concrete inputs, on a small cluster.
pub mod Sample
pub mod Cluster
pub mod Sleeping
pub mod Scheduling
pub mod Storing
pub mod Recording
pub mod Choosing
pub mod Restoring
pub mod Returning
pub mod Planning
pub mod Reconciling
pub mod Running
pub mod Alternating
pub mod Managing
pub mod Serving
pub mod Statuses
