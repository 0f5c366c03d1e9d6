-- ===== src/Tests.antt =====
-- The theorems at concrete requests and states, in the order of the program's parts.
pub mod Probes
pub mod Filter
pub mod Status
pub mod Uri
pub mod Headers
pub mod ResponseHeader
pub mod Delay
pub mod Tracking
pub mod Trigger
pub mod Jobs
pub mod Registry
pub mod Locker
pub mod Labeled
