-- ===== src/Binary.antt =====
-- include/roe/binary.hpp and src/binary/binary.cpp: the format-neutral object model.
pub mod Types
pub mod Detect
pub mod Queries
pub mod Names
pub mod Load
mod Tests
