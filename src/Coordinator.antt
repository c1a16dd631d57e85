-- ===== src/Coordinator.antt =====
-- The coordinator of prod/native/libcommon/code/coordinator.
pub mod Chunks
pub mod Workers
pub mod Dispatch
pub mod SharedConfig
pub mod Tests
