-- ===== src/Pipeline.antt =====
-- src/metal-pipeline and src/metal-filesystem-pipeline: what the host tells the FPGA.
pub mod MapJob
pub mod Card
pub mod Stages
pub mod Run
pub mod FileSource
pub mod FileSink
pub mod Runner
pub mod Profile
pub mod Operator
pub mod Pagefile
