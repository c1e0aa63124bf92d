-- ===== src/Gpu.antt =====
-- src/virtio_gpu.rs: the device.
pub mod State
pub mod Edid
pub mod Commands
pub mod Scanout
pub mod Cursor
pub mod Invariant
pub mod New
pub mod Iovecs
pub mod Methods
pub mod Runs
pub mod Answers
pub mod Frames
pub mod Behaviour
