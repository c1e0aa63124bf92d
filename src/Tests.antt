-- ===== src/Tests.antt =====
-- Libraries and data to run the program on, and runs of the theorems on them.
pub mod Renderer
pub mod Server
pub mod Instance
pub mod Memory
pub mod ProtocolRuns
pub mod Device
pub mod GpuRuns
pub mod ScreenRuns
