-- ===== src/Driver.antt =====
-- src/metal-driver: the file system that FUSE sees.
pub mod Combined
pub mod Files
pub mod AgentPool
pub mod AgentSource
pub mod AgentSink
pub mod Placeholder
pub mod Operators
pub mod SocketFile
pub mod Agent
pub mod Options
pub mod Builder
