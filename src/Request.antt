-- ===== src/Request.antt =====
-- The life of a PHP request, prod/native/libcommon/code/RequestScope.h, PhpSapi.h and
-- SharedMemoryState.h and InferredSpans.h.
pub mod Periodic
pub mod Scope
pub mod Laws
pub mod OneTime
pub mod InferredSpans
pub mod Tests
