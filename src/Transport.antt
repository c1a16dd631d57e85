-- ===== src/Transport.antt =====
-- The HTTP transport of prod/native/libcommon/code/transport.
pub mod Url
pub mod Endpoints
pub mod Async
