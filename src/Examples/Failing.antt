-- ===== src/Examples/Failing.antt =====
-- examples/error/main.go.
use psql_wire.Base.{
  Bytes, List, Option, [], ap, arith, codes, equal, false, refl, some, ℕ, ◌++◌, ◌∙◌, ◌∷◌, ◌≡◌, ◌≤◌,
}
use psql_wire.Buffer.Reader.Values.{IsText}
use psql_wire.Buffer.Writer.{Writer}
use psql_wire.Buffer.Writer.Framing.{server_message}
use psql_wire.Errors.{
  Error, combine_codes, default_severity, flatten, get_code, get_constraint_name, get_detail,
  get_hint, get_severity, get_source, level_fatal, message, text, with_code, with_severity,
}
use psql_wire.Errors.Codes.Completion.{feature_not_supported}
use psql_wire.Examples.Values.{Any}
use psql_wire.Exec.{Result, ok}
use psql_wire.Messages.{server_error_response}
use psql_wire.Wire.Accept.{Process}
use psql_wire.Wire.Accept.Listening.{listen_and_serve_handler}
use psql_wire.Wire.Cache.{set}
use psql_wire.Wire.Context.{ConnInfo, Context}
use psql_wire.Wire.DataWriter.{Script, returns}
use psql_wire.Wire.Options.{Setup}
use psql_wire.Wire.Options.Parser.{Oids, count_parameters, simple_parse}
use psql_wire.Wire.Query.{handle_simple_query, is_blank}
use psql_wire.Wire.Query.Tables.{error-answers, handle_simple_query_lem}
use psql_wire.Wire.Response.{err_field_msg_primary, err_field_severity, err_field_sqlstate}
use psql_wire.Wire.Response.Fields.{decode_fields}
use psql_wire.Wire.Response.Sent.{ready_message}
use psql_wire.Wire.Server.{Server, World}

abbrev pub feature_error : Option Error
feature_error =
    with_severity (with_code (some (text (codes "unimplemented feature"))) feature_not_supported)
      level_fatal

-- `handle`
unfoldable pub handle_error : Context Any → Bytes → List Bytes → Script Any
unfolding with_severity with_code
handle_error ctx query parameters = returns feature_error

-- `main`
unfoldable pub error_main :
    (Bytes → Option Error) → ConnInfo Any → (ℕ → ℕ) → Result (Setup Any × Process)
unfolding handle_error
error_main listen types grow =
    listen_and_serve_handler listen types grow (codes "127.0.0.1:5432") (some handle_error)

-- `handleSimpleQuery` of a server with the parser that the example sets, on a query that is not blank and
-- whose placeholders the parser can count, on a connection that takes two messages: it succeeds, and the
-- client reads an ErrorResponse of severity FATAL, with the code 0A000 and the text of the error, and then
-- ReadyForQuery, whatever else the query says.
pub handle_error-answers :
    (grow : ℕ → ℕ) (srv : Server Any) (ctx : Context Any) (query : Bytes) (p : Oids) (w : World Any)
    → srv.parse ≡ some (simple_parse grow (some handle_error))
    → IsText query
    → is_blank query ≡ false
    → w.conn.reader.msg ≡ query ++ 0 ∷ []
    → count_parameters grow query ≡ ok p
    → 2 ≤ w.conn.writer.sink.accepts
    → (body : Bytes) × ((handle_simple_query srv ctx w).0 ≡ ok tt)
      × ((handle_simple_query srv ctx w).1.conn.writer.sink.sent
          ≡ w.conn.writer.sink.sent
            ++ server_message server_error_response body ∷ ready_message ∷ [])
      × (decode_fields body
          ≡ some (
              (err_field_severity, codes "FATAL")
              ∷ (err_field_sqlstate, codes "0A000")
              ∷ (err_field_msg_primary, codes "unimplemented feature")
              ∷ []))
unfolding handle_error with_severity with_code flatten get_code get_hint get_detail get_severity
    get_source get_constraint_name default_severity message equal combine_codes
handle_error-answers grow srv ctx query p w set legal inked arrives counted room =
    let (done, left) =
      handle_simple_query_lem srv ctx (simple_parse grow (some handle_error)) query w legal inked
        set arrives in
    let (body, success, sent, read) =
      error-answers grow ctx handle_error query p counted w.conn.writer _ refl
        (record {
          severity = ground arith;
          code = ground arith;
          text_message = ground arith;
          hint = tt;
          detail = tt;
        })
        refl room in
    (body, done ∙ success, ap (λ (c : Writer). c.sink.sent) left ∙ sent, read)
