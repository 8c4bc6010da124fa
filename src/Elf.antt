-- ===== src/Elf.antt =====
-- src/elf/elf.cpp: the ELF parser. Each child models one part of it.
pub mod Types
pub mod Reader
pub mod Header
pub mod Strings
pub mod Sections
pub mod Segments
pub mod Symbols
pub mod Relocations
pub mod Parse
pub mod Adapter
mod Tests
