-- ===== src/Resolver.antt =====
-- include/roe/resolver.hpp and src/resolver/resolver.cpp: symbols and relocations by address.
pub mod Types
pub mod Search
pub mod Lookup
pub mod Index
pub mod Objects
pub mod Annotate
pub mod Demangle
mod Tests
