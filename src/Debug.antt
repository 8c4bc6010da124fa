-- ===== src/Debug.antt =====
-- src/debug/debug.cpp: the reads of a DWARF section, the line-number program and the lookup by address.
pub mod Types
pub mod Cursor
pub mod Tables
pub mod Program
pub mod Units
pub mod Lookup
mod Tests
