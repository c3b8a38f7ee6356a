-- ===== src/Wire/Response.antt =====
-- error.go, and `readyForQuery` of handshake.go.
pub mod Fields
pub mod Sent
pub mod Constraint
pub mod Client
use psql_wire.Base.{Bytes, Option, [], equal, if◌then◌else◌, none, some, ℕ}
use psql_wire.Buffer.Writer.{
  Writer, add_byte, add_int32, add_null_terminate, add_string, end, start,
}
use psql_wire.Errors.{Description, Error, Source, flatten}
use psql_wire.Exec.{Exec, pure, ◌>>◌}
use psql_wire.Messages.{server_error_response, server_idle, server_ready}

-- The field types of an ErrorResponse that the server writes.
abbrev pub err_field_severity : ℕ
err_field_severity = b'S'

abbrev pub err_field_msg_primary : ℕ
err_field_msg_primary = b'M'

abbrev pub err_field_sqlstate : ℕ
err_field_sqlstate = b'C'

abbrev pub err_field_detail : ℕ
err_field_detail = b'D'

abbrev pub err_field_hint : ℕ
err_field_hint = b'H'

abbrev pub err_field_src_file : ℕ
err_field_src_file = b'F'

abbrev pub err_field_src_line : ℕ
err_field_src_line = b'L'

abbrev pub err_field_src_function : ℕ
err_field_src_function = b'R'

-- `readyForQuery`
unfoldable pub ready_for_query : ℕ → Exec Writer (Unit {0})
ready_for_query status = do start server_ready; add_byte status; end

-- The three calls for a text field of the message.
unfoldable pub add_field : ℕ → Bytes → Exec Writer ℕ
add_field field value = do add_byte field; add_string value; add_null_terminate

-- `if desc.Hint != "" { ... }`
unfoldable pub add_optional : ℕ → Bytes → Exec Writer ℕ
unfolding add_field
add_optional field value = if equal value [] then pure 0 else add_field field value

-- `if desc.Source != nil { ... }`. The line goes out as the four bytes of an int32.
unfoldable pub add_source : Option Source → Exec Writer ℕ
unfolding add_field
add_source none = pure 0
add_source (some source) = do
  add_field err_field_src_file source.file
  add_byte err_field_src_line
  add_int32 source.line
  add_null_terminate
  add_field err_field_src_function source.function

-- The fields of an error, and the message's end.
unfoldable pub write_error : Description → Exec Writer (Unit {0})
unfolding add_field add_optional add_source
write_error desc = do
  start server_error_response
  add_field err_field_severity desc.severity
  add_field err_field_sqlstate desc.code
  add_field err_field_msg_primary desc.text_message
  add_optional err_field_hint desc.hint
  add_optional err_field_detail desc.detail
  add_source desc.source
  add_null_terminate
  end

-- `ErrorCode`
unfoldable pub error_code : Option Error → Exec Writer (Unit {0})
unfolding write_error
error_code e = do write_error (flatten e); ready_for_query server_idle
