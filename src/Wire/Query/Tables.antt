-- ===== src/Wire/Query/Tables.antt =====
-- A server of `SimpleQuery` whose handler sends a table.
use psql_wire.Base.{
  Bytes, List, Option, [], ap, append_assoc, arith, false, length, none, refl, replicate, some, ℕ,
  ◌++◌, ◌+◌, ◌∙◌, ◌∷◌, ◌≡◌, ◌≤◌,
}
use psql_wire.Buffer.Reader.Values.{IsText, get_string-append}
use psql_wire.Buffer.Stream.{Sink}
use psql_wire.Buffer.Writer.{Writer}
use psql_wire.Buffer.Writer.Emits.{sends}
use psql_wire.Buffer.Writer.Framing.{server_message}
use psql_wire.Errors.{Error, flatten}
use psql_wire.Exec.{Result, ok}
use psql_wire.Messages.{server_error_response}
use psql_wire.Wire.Cache.{call_statement, set}
use psql_wire.Wire.Context.{Context}
use psql_wire.Wire.DataWriter.{DataWriter, Script, new_data_writer, returns, run_script}
use psql_wire.Wire.DataWriter.Tables.{AreRows, send_table, send_table-sends, table_messages}
use psql_wire.Wire.Options.Parser.{Oids, count_parameters, simple_parse}
use psql_wire.Wire.Query.{finish_query, handle_simple_query, is_blank, run_query, with_data_writer}
use psql_wire.Wire.Query.Finished.{failure_of, run_query-ready}
use psql_wire.Wire.Response.{error_code}
use psql_wire.Wire.Response.Client.{IsSendable, error_code-decode_fields, text_fields}
use psql_wire.Wire.Response.Fields.{decode_fields}
use psql_wire.Wire.Response.Sent.{ready_message}
use psql_wire.Wire.Row.{Column}
use psql_wire.Wire.Server.{ParseFn, Server, World}

module _ {V : Type 0} (grow : ℕ → ℕ) (ctx : Context V)
    (fn : Context V → Bytes → List Bytes → Script V) (query : Bytes) (p : Oids)
    (counted : count_parameters grow query ≡ ok p) (w : Writer) where
  abbrev parser : ParseFn V
  parser = simple_parse grow (some fn)

  pub table-answers :
      (column : Column) (others : List Column) (values : List (List (Option V)))
      (encoded : List (List Bytes)) (tag : Bytes)
      → fn ctx query [] ≡ send_table (column ∷ others) values tag
      → AreRows ctx (column ∷ others) values encoded
      → length values + 3 ≤ w.sink.accepts
      → ((run_query ctx parser query w).0 ≡ ok tt)
        × ((run_query ctx parser query w).1.sink.sent
            ≡ w.sink.sent
              ++ (table_messages (column ∷ others) values encoded tag ++ ready_message ∷ []))
  unfolding simple_parse call_statement
  table-answers column others values encoded tag sends_it h room =
      let (e, s) = send_table-sends ctx column others tag values encoded w h (omega arith) in
      let run = ap (λ (script : Script V). run_script ctx script (new_data_writer w)) sends_it in
      let outcome =
        ap (λ (r : Result (Unit {0}) × DataWriter). failure_of r.0) run ∙ ap failure_of e in
      let left = ap (λ (r : Result (Unit {0}) × DataWriter). r.1.client.sink) run ∙ s in
      let (success, sent) =
        run_query-ready ctx parser query (some (λ ctx' parameters. fn ctx' query parameters))
          (replicate p.len 0) none w (rw (simple_parse, counted) refl) outcome
          (rw left (omega (arith, room))) in
      (
        success,
        sent
            ∙ ap (λ (t : Sink). t.sent ++ ready_message ∷ []) left
            ∙ append_assoc w.sink.sent (table_messages (column ∷ others) values encoded tag)
                (ready_message ∷ []),
      )

  -- A handler that fails at once.
  pub error-answers :
      (e : Error)
      → fn ctx query [] ≡ returns (some e)
      → IsSendable (flatten (some e))
      → (flatten (some e)).source ≡ none
      → 2 ≤ w.sink.accepts
      → (body : Bytes) × ((run_query ctx parser query w).0 ≡ ok tt)
        × ((run_query ctx parser query w).1.sink.sent
            ≡ w.sink.sent ++ server_message server_error_response body ∷ ready_message ∷ [])
        × (decode_fields body ≡ some (text_fields (flatten (some e))))
  unfolding simple_parse call_statement run_script new_data_writer run_query finish_query
      with_data_writer
  error-answers e at_once h unplaced room =
      let (body, emits, read, _) = error_code-decode_fields (some e) h unplaced in
      let (success, sent) = sends emits w room in
      let whole : run_query ctx parser query w ≡ error_code (some e) w =
        rw (run_query, simple_parse, counted)
          (ap
            (λ (script : Script V).
              finish_query (let r = run_script ctx script (new_data_writer w) in (r.0, r.1.client)))
            at_once) in
      (
        body,
        ap (λ (r : Result (Unit {0}) × Writer). r.0) whole ∙ success,
        ap (λ (r : Result (Unit {0}) × Writer). r.1.sink.sent) whole
            ∙ ap (λ (t : Sink). t.sent) sent,
        read,
      )

-- A simple query that is not blank runs behind its message.
pub handle_simple_query_lem :
    {V : Type 0} (srv : Server V) (ctx : Context V) (parser : ParseFn V) (query : Bytes)
    (w : World V)
    → IsText query
    → is_blank query ≡ false
    → srv.parse ≡ some parser
    → w.conn.reader.msg ≡ query ++ 0 ∷ []
    → let p = run_query ctx parser query w.conn.writer in
      ((handle_simple_query srv ctx w).0 ≡ p.0)
      × ((handle_simple_query srv ctx w).1.conn.writer ≡ p.1)
unfolding handle_simple_query
handle_simple_query_lem srv ctx parser query w legal inked set arrives =
    rw (set, get_string-append query [] w.conn.reader legal arrives, inked) (refl, refl)
