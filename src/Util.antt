-- ===== src/Util.antt =====
-- The parts of src/util.c, one module for each family of functions.
pub mod Date
pub mod Decimal
pub mod Host
pub mod Log
pub mod Pathname
pub mod Uri
