-- ===== src/Sinks.antt =====
-- The sinks of include/logspine/sinks and src/sinks.
pub mod Gelf
pub mod Retry
pub mod Tcp
pub mod Otlp
pub mod Console
pub mod File
pub mod Elastic
