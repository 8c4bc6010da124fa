-- ===== src/Pe.antt =====
-- src/pe/pe.cpp: the PE parser's reader and its tables.
pub mod Reader
pub mod Exports
pub mod Imports
pub mod Coff
pub mod Layout
pub mod Parse
mod Tests
