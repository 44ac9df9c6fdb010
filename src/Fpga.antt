-- ===== src/Fpga.antt =====
-- targets/SNAP/_internal/action/hw/hls/hls_action: the code that becomes the FPGA's control logic.
pub mod Types
pub mod Extmap
pub mod Transfer
pub mod Endian
pub mod Jobs
pub mod Peripherals
pub mod Streams
pub mod Action
pub mod Process
