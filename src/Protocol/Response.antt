-- ===== src/Protocol/Response.antt =====
-- src/protocol/response.rs: the responses of the daemon. `Rows` names the cells of terse rows.
mod Wire
pub mod Rows
unfoldable pub use Wire.{cursor_handle}
pub use Wire.*
