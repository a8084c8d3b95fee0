-- ===== src/MassStorage.antt =====
-- The USB mass-storage driver of the firmware in Rust (src/usb_mass_storage and src/power_switch).
pub mod Types
pub mod BlockDevice
pub mod Driver
pub mod Component
