-- ===== src/Features.antt =====
-- src/features: the configuration file.
pub mod Config
mod Tests
