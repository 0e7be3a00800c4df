-- ===== src/Protocol/RoundTrip.antt =====
-- What is written reads back: the encodings of src/protocol/request.rs and response.rs against
-- their decoders.
pub mod Fields
pub mod RequestFields
pub mod Request
pub mod Bodies
pub mod Results
pub mod Result
pub mod Response
pub mod Decoded
pub mod Range
pub mod Fitting
pub mod Stable
