-- ===== src/Protocol/Structs.antt =====
-- The structures of src/protocol.rs, by what they are for.
mod Common
mod Commands2d
mod Commands3d
mod Queries
mod Replies
unfoldable pub use Common.*
unfoldable pub use Commands2d.*
unfoldable pub use Commands3d.*
unfoldable pub use Queries.*
unfoldable pub use Replies.*
