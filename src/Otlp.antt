-- ===== src/Otlp.antt =====
-- The native OTLP exporter of prod/native/libphpbridge/code/OtlpExporter, which turns batches of PHP
-- objects into OTLP messages, and the part of AutoZval.h that it uses.
pub mod Zval
pub mod Attributes
pub mod Grouping
pub mod Messages
pub mod Spans
pub mod Logs
pub mod Metrics
pub mod Tests
