-- ===== src/Examples.antt =====
-- Concrete inputs: tests of the definitions, and the theorems applied at runs that exercise the
-- code.
pub mod Stick
pub mod Stored
pub mod Worlds
pub mod Spi
pub mod Link
pub mod Serve
pub mod Tasks
pub mod Driver
pub mod Ready
pub mod Whole
pub mod Device
pub mod Store
pub mod Request
pub mod Upload
pub mod Session
pub mod Host
