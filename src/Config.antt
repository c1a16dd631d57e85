-- ===== src/Config.antt =====
-- The configuration of prod/native/libcommon/code: options, their values and where they come from.
pub mod Level
pub mod Units
pub mod Options
pub mod Provider
pub mod Manager
pub mod Tests
