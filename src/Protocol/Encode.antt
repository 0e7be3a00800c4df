-- ===== src/Protocol/Encode.antt =====
-- src/protocol/request.rs and response.rs: the derived Serialize of the wire types, and the derived
-- Deserialize of `Request`.
pub mod Fields
pub mod Request
pub mod ReadRequest
pub mod Response
