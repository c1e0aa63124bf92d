-- ===== src/Libraries.antt =====
-- The libraries that src/virtio_gpu.rs calls: the crates rutabaga_gfx and gpu_display, which the
-- repository carries as copies under third-party/, and vm-memory. Their operations are parameters,
-- named as the program calls them; a call takes the library's state and returns it with the result.
mod Interfaces
mod Laws
pub use Interfaces.*
pub use Laws.*
