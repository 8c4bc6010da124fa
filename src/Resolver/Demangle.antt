-- ===== src/Resolver/Demangle.antt =====
-- src/resolver/resolver.cpp: demangle.
pub mod Cursor
pub mod Rust
pub mod Legacy
pub mod Names
mod Tests
