-- ===== src/Msc.antt =====
-- The USB mass-storage class driver in C (src/usb_mass_storage/usb_host_msc).
pub mod Types
pub mod Transfer
pub mod Command
pub mod Bot
pub mod Scsi
pub mod Descriptors
pub mod Device
pub mod Client
pub mod DiskIo
pub mod Vfs
pub mod Requests
pub mod Sense
