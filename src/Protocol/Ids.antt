-- ===== src/Protocol/Ids.antt =====
-- src/protocol/codec.rs: the request ids of an `IdAllocator`, and the ids of close requests
-- (src/query.rs, `spawn_close`).
mod Alloc
mod Distinct
pub use Alloc.*
unfoldable pub use Alloc.{next, new, close_id, after_calls}
pub use Distinct.*
unfoldable pub use Distinct.{id_of}
