-- ===== src/Protocol.antt =====
-- src/protocol: the wire types, their encoding, the request ids and the decoder of daemon frames.
pub mod Json
pub mod Serde
pub mod Request
pub mod Params
pub mod Ids
pub mod Response
pub mod Rendering
pub mod NamedRows
pub mod Decode
pub mod Frames
pub mod Results
pub mod TerseRows
pub mod Encode
pub mod RoundTrip
