-- ===== src/SpiLink.antt =====
-- The SPI slave link to the master MCU (src/spi_link).
pub mod Protocol
pub mod Crc
pub mod Chunk
pub mod Link
pub mod Serve
