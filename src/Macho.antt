-- ===== src/Macho.antt =====
-- src/macho/macho.cpp: the Mach-O parser.
pub mod Reader
pub mod Strings
pub mod Commands
pub mod Symbols
pub mod Parse
mod Tests
