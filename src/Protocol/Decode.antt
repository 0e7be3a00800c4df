-- ===== src/Protocol/Decode.antt =====
-- src/protocol/decode.rs: daemon frames, tagged by `type` or untagged.
mod Bodies
mod Result
mod Tagged
mod Untagged
mod Frame
pub use Bodies.*
pub use Result.*
pub use Tagged.*
pub use Untagged.*
pub use Frame.*
unfoldable pub use Bodies.{
  decode_dove, dove_from_body, de_dove_body, de_error_response, de_column, de_parameter_detail,
  de_parameter_result, de_metadata, de_cl_message,
}
unfoldable pub use Tagged.{
  decode_tagged, tagged_body, de_prepared_statement, de_connected, de_id_body, de_success_body,
  de_cl_result, de_text_body, de_trace_data,
}
unfoldable pub use Result.{de_query_result, de_query_result_raw, finish_query_result}
unfoldable pub use Untagged.{as_result, decode_failed, decode_untagged, decode_ack}
unfoldable pub use Frame.{decode_value}
