-- ===== src/Instrumentation.antt =====
-- Instrumentation of PHP functions: the storages of hooks and handlers, and
-- prod/native/extension/code/InternalFunctionInstrumentation.cpp.
pub mod Storages
pub mod Arguments
pub mod Handlers
pub mod WithSpan
pub mod Observers
pub mod Tests
