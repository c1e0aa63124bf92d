-- ===== src/Gpu/Behaviour.antt =====
-- What the methods of src/virtio_gpu.rs do, by what they act on.
pub mod Lifecycle
pub mod Answers
pub mod Screens
pub mod Pointers
pub mod Flushes
pub mod Guest
pub mod Cursors
