-- ===== src/SpiLink/Serve/Session.antt =====
-- What the firmware offers a master in the service loop of src/spi_link/transport.rs.
pub mod Header
pub mod View
pub mod Answer
pub mod Refused
pub mod Probe
pub mod Asks
pub mod Rounds
pub mod Upload
pub mod Roundtrip
