-- ===== src/Core.antt =====
-- include/roe/core.hpp: errors and the Result type of the public interfaces.
pub mod Error
pub mod Result
