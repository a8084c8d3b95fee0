-- ===== src/Lib.antt =====
-- The slave firmware of BindKey: a microcontroller that serves sector requests of a master over an
-- SPI link from a USB drive.
--
-- The program's parts. The master clocks a 16-byte header into the SPI slave; the service loop of
-- src/spi_link/transport.rs decodes it (src/spi_link/protocol.rs), computes which sectors the chunk is,
-- calls the block device of src/usb_mass_storage/block_device.rs through the global driver object, stages
-- a response and sends it with the READY line high. The driver (src/usb_mass_storage/driver.rs and
-- callback.rs) opens a device after a connection event, retries, and power cycles the port through
-- src/power_switch/tps.rs. Both call the C component src/usb_mass_storage/usb_host_msc, which installs
-- devices, speaks the Bulk-Only Transport and SCSI over the USB Host Library, and mounts FAT volumes.
--
-- The files.
--   * Base: Boolean tests, buffers as lists, words, error codes, and `Act`, the state-passing actions of
--     stateful code; an action returns a value or an `esp_err_t`, and `none` is a crash (a null
--     dereference, a failed assertion, a copy past a buffer).
--   * SpiLink: Protocol and Crc are protocol.rs; Chunk is `compute_chunk`; Link is `struct SpiLink`, the
--     DMA buffers and the staging of responses; Serve is the loop of `run`, one action per command.
--     Below Serve, Whole puts the chunks of a request together, and Session is what the firmware
--     offers a master over the wire: a list of requests against a device that is nothing but its data.
--   * Tasks: two places where the SPI task, the polling loop and the callbacks meet: the payload of a
--     WRITE that arrives in a state that the other tasks have changed, and a drive that is disconnected
--     while the SPI task reads its capacity.
--   * Boot: the start of main.rs, with led.rs, `SpiLink::init` and task.rs, and the main loop; Quiet,
--     GivenUp and Watchdog below it are rounds of that loop in which no event arrives.
--   * MassStorage: Types has `struct UsbMassStorage`, the global statics and two interfaces, `MscApi` for
--     the calls of the C component and `Board` for the clock and the host library; BlockDevice is
--     block_device.rs, and Store below it an abstract disk that a session of requests reads and
--     writes; Driver is driver.rs, callback.rs and tps.rs; Component fills `MscApi` with the functions
--     of Msc, and Drive below it goes from the commands on the USB bus to that interface.
--   * Msc: Types has the structs of private_include/msc_common.h and the interface `UsbHost` of the USB
--     Host Library and FreeRTOS; Transfer, Descriptors, Device, Client and Requests are
--     src/msc_host.c; Command, Bot, Scsi and Sense are src/msc_scsi_bot.c; DiskIo is src/diskio_usb.c;
--     Vfs is src/msc_host_vfs.c.
--   * Examples: concrete interfaces, tests, and the theorems at concrete inputs; Stick is a USB host
--     library with a drive behind it, in front of which the component's own commands run.
-- An operation has the name it has in the code. Numbers are unbounded where the code's checks keep them
-- in range, and wrap-around is written out (`% 2 ^ 32`) where it can happen; `usize` has 32 bits.
--
-- Bounds. The endless service loop and polling loop are modelled by their rounds. The wait for readiness
-- runs on its own counter, and the background task of the component on a bound for its rounds. A reset
-- recovery of the C component polls the device, and a poll may start another one:
-- `msc_host_reset_recovery` takes the depth of such nesting that the stack allows, and at depth zero it
-- crashes; theorems about one command hold for any recovery.
--
-- A theorem about requests against an abstract disk assumes of the calls of the C component that they
-- serve such a disk in the states in which the device is up (`IsDrive`), for sectors on the drive and
-- less than 2 ^ 16 of them in one command. The component's own functions do so in front of the USB host
-- library and drive of Examples/Stick. A transfer of the SPI slave is recorded with the frame that
-- the firmware offers; whether the master takes it is not known to the firmware, which ignores the
-- result of a response's transfer.
--
-- What is not modelled: the interleaving of tasks but for the two places in Tasks, and the spin lock
-- (elsewhere each call of the driver runs as one step), logging and counters' output, the allocation of
-- DMA buffers, the listing of files, and the component's test application, which is no part of the
-- firmware. The libraries below the C component enter as interfaces and are not defined.
pub mod Base
pub mod Boot
pub mod SpiLink
pub mod Msc
pub mod MassStorage
pub mod Tasks
pub mod Examples
