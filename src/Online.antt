-- ===== src/Online.antt =====
-- The realtime recognition session of src/engine_runtime/engines/online/.
pub mod Audio
pub mod Policy
pub mod Boundary
pub mod Session
pub mod Stream
pub mod Times
