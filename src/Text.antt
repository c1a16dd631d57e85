-- ===== src/Text.antt =====
-- The text routines of prod/native/libcommon/code/CommonUtils.cpp and CiCharTraits.h.
pub mod Utf8
pub mod Chars
pub mod RetryAfter
pub mod Percent
pub mod Tests
