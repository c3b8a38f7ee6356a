-- ===== src/Tests/Tables.antt =====
-- Tables that are sent, and the example programs.
use psql_wire.Base.{
  Bytes, List, [], arith, codes, equal, false, none, pos, refl, some, true, ◌++◌, ◌+◌, ◌-◌, ◌∷◌,
  ◌≡◌,
}
use psql_wire.Buffer.Writer.{new_writer}
use psql_wire.Buffer.Writer.Framing.{server_message}
use psql_wire.Errors.{coded, eof, flatten, text}
use psql_wire.Errors.Chain.{layers}
use psql_wire.Errors.Coded.{IsListed, flatten-IsSqlState}
use psql_wire.Errors.Codes.{IsSqlState}
use psql_wire.Errors.Codes.Completion.{feature_not_supported}
use psql_wire.Examples.Failing.{handle_error, handle_error-answers}
use psql_wire.Examples.Simple.{answer_messages, handle, handle-answers, john, marry, simple_table}
use psql_wire.Examples.Values.{Any, boolean, integer, string}
use psql_wire.Exec.{ok}
use psql_wire.Messages.{server_data_row, server_error_response}
use psql_wire.Tests.Samples.{letters, letters-IsText, open_writer}
use psql_wire.Wire.Context.{ConnInfo, Context, DataType}
use psql_wire.Wire.DataWriter.{Script, new_data_writer, run_script}
use psql_wire.Wire.DataWriter.Tables.{
  AreRows, no_rows, one_row, send_table, send_table-sends, table_messages,
}
use psql_wire.Wire.Options.Parser.{
  add_matches, count_parameters, find_parameters, leading_digits, simple_parse,
}
use psql_wire.Wire.Query.{handle_simple_query, is_blank}
use psql_wire.Wire.Response.{err_field_msg_primary, err_field_severity, err_field_sqlstate}
use psql_wire.Wire.Response.Fields.{decode_fields}
use psql_wire.Wire.Response.Sent.{ready_message}
use psql_wire.Wire.Row.{Column, encoder, text_format, write_columns}
use psql_wire.Wire.Row.Cells.{
  AreCells, IsCell, decode_row, no_cells, one_cell, seen, write_columns-decode_row,
}
use psql_wire.Wire.Server.{Server, World}

abbrev plain_any : DataType Any
plain_any = record {
  set = λ v. none;
  encode_text = λ v. ok (codes "ab");
  encode_binary = λ v. ok (codes "ab");
}

abbrev any_types : ConnInfo Any
any_types = record { data_type_for_oid = λ oid. some plain_any }

abbrev any_context : Context Any
any_context = record {
  cancelled = none;
  type_info = some any_types;
  client_metadata = none;
  server_metadata = none;
}

text-IsCell :
    (column : Column) (v : Any)
    → column.format ≡ text_format
    → IsCell any_context column (some v) letters
unfolding encoder
text-IsCell column v e = record {
  live = refl;
  ci = any_types;
  typed = plain_any;
  known = refl;
  found = refl;
  accepted = refl;
  encoded = rw e refl;
  fits = omega arith;
  null_is_empty = λ q. cc;
}

abbrev three_cells : List Bytes
three_cells = letters ∷ letters ∷ letters ∷ []

three_values :
    (a b c : Any)
    → AreCells any_context (simple_table 25 16 23) (some a ∷ some b ∷ some c ∷ []) three_cells
three_values a b c =
    one_cell (text-IsCell _ a refl)
      (one_cell (text-IsCell _ b refl) (one_cell (text-IsCell _ c refl) no_cells))

write_columns-decode_row_example :
    let p = write_columns any_context (simple_table 25 16 23) (john 25 16 23) open_writer in
    (body : Bytes) × (p.0 ≡ ok tt)
    × (p.1.sink.sent ≡ open_writer.sink.sent ++ server_message server_data_row body ∷ [])
    × (decode_row body ≡ some (seen (john 25 16 23) three_cells))
write_columns-decode_row_example =
    write_columns-decode_row any_context (simple_table 25 16 23) (john 25 16 23) three_cells
      open_writer (three_values (string (codes "John")) (boolean true) (integer (pos 29)))
      (omega arith) (unfold new_writer in omega arith)

two_rows :
    AreRows any_context
      (simple_table 25 16 23)
      (john 25 16 23 ∷ marry 25 16 23 ∷ [])
      (three_cells ∷ three_cells ∷ [])
two_rows =
    one_row (three_values (string (codes "John")) (boolean true) (integer (pos 29)))
      (one_row (three_values (string (codes "Marry")) (boolean false) (integer (pos 21))) no_rows)

count_letters : count_parameters (λ n. n + 1) letters ≡ ok (record { len = 0; cap = 0 })
unfolding count_parameters find_parameters add_matches leading_digits equal
count_letters = refl

abbrev server_with : (Context Any → Bytes → List Bytes → Script Any) → Server Any
server_with fn = record {
  types = record { data_type_for_oid = λ oid. none };
  auth = none;
  buffered_msg_size = pos 0;
  certificates = 0;
  parse = some (simple_parse (λ n. n + 1) (some fn));
  session = none;
  close_conn = none;
  terminate_conn = none;
  version = [];
}

abbrev asking : World Any
asking = record {
  conn = record {
    reader = record {
      buffer = record { pending = []; ending = eof; held = 0 };
      msg = letters ++ 0 ∷ [];
      max_message_size = 32;
    };
    writer = open_writer;
  };
  statements = none;
  portals = none;
  parameters = none;
}

letters_inked : is_blank letters ≡ false
unfolding is_blank
letters_inked = refl

handle-answers_example :
    let p = handle_simple_query (server_with (handle 25 16 23)) any_context asking in
    (p.0 ≡ ok tt)
    × (p.1.conn.writer.sink.sent
        ≡ open_writer.sink.sent ++ answer_messages 25 16 23 (three_cells ∷ three_cells ∷ []))
handle-answers_example =
    handle-answers 25 16 23 (λ n. n + 1) (server_with (handle 25 16 23)) any_context letters
      (three_cells ∷ three_cells ∷ []) (record { len = 0; cap = 0 }) asking refl letters-IsText
      letters_inked refl count_letters two_rows (unfold new_writer in omega arith)

handle_error-answers_example :
    let p = handle_simple_query (server_with handle_error) any_context asking in
    (body : Bytes) × (p.0 ≡ ok tt)
    × (p.1.conn.writer.sink.sent
        ≡ open_writer.sink.sent ++ server_message server_error_response body ∷ ready_message ∷ [])
    × (decode_fields body
        ≡ some (
            (err_field_severity, codes "FATAL")
            ∷ (err_field_sqlstate, codes "0A000")
            ∷ (err_field_msg_primary, codes "unimplemented feature")
            ∷ []))
handle_error-answers_example =
    handle_error-answers (λ n. n + 1) (server_with handle_error) any_context letters
      (record { len = 0; cap = 0 }) asking refl letters-IsText letters_inked refl count_letters
      (unfold new_writer in omega arith)

send_table-sends_example :
    let p =
      run_script any_context
        (send_table (simple_table 25 16 23) (john 25 16 23 ∷ marry 25 16 23 ∷ []) (codes "OK"))
        (new_data_writer open_writer) in
    (p.0 ≡ ok tt)
    × (p.1.client.sink ≡ record (open_writer.sink) {
      sent =
          open_writer.sink.sent
          ++ table_messages
              (simple_table 25 16 23)
              (john 25 16 23 ∷ marry 25 16 23 ∷ [])
              (three_cells ∷ three_cells ∷ [])
              (codes "OK");
      accepts = open_writer.sink.accepts - 4;
    })
send_table-sends_example =
    send_table-sends any_context _ _ (codes "OK") (john 25 16 23 ∷ marry 25 16 23 ∷ [])
      (three_cells ∷ three_cells ∷ []) open_writer two_rows (unfold new_writer in omega arith)

flatten-IsSqlState_example :
    IsListed (flatten (some (coded (text letters) feature_not_supported))).code
    × IsSqlState (flatten (some (coded (text letters) feature_not_supported))).code
unfolding layers equal
flatten-IsSqlState_example =
    flatten-IsSqlState (coded (text letters) feature_not_supported) (refl, (tt, tt))
