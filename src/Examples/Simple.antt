-- ===== src/Examples/Simple.antt =====
-- examples/simple/main.go. The oids of lib/pq are parameters.
use psql_wire.Base.{
  Bytes, List, Option, [], ap, codes, false, pos, refl, some, true, ℕ, ◌++◌, ◌∙◌, ◌∷◌, ◌≡◌, ◌≤◌,
}
use psql_wire.Buffer.Reader.Values.{IsText}
use psql_wire.Buffer.Writer.{Writer}
use psql_wire.Errors.{Error}
use psql_wire.Examples.Values.{Any, boolean, integer, string}
use psql_wire.Exec.{Result, ok}
use psql_wire.Wire.Accept.{Process}
use psql_wire.Wire.Accept.Listening.{listen_and_serve_handler}
use psql_wire.Wire.Cache.{set}
use psql_wire.Wire.Context.{ConnInfo, Context}
use psql_wire.Wire.DataWriter.{Script, completes, defines, returns, rows}
use psql_wire.Wire.DataWriter.Tables.{AreRows, each_row, table_messages}
use psql_wire.Wire.Options.{Setup}
use psql_wire.Wire.Options.Parser.{Oids, count_parameters, simple_parse}
use psql_wire.Wire.Query.{handle_simple_query, is_blank}
use psql_wire.Wire.Query.Tables.{handle_simple_query_lem, table-answers}
use psql_wire.Wire.Response.Sent.{ready_message}
use psql_wire.Wire.Row.{Column, text_format}
use psql_wire.Wire.Server.{Server, World}

module _ (t_text t_bool t_int4 : ℕ) where
  abbrev pub simple_table : List Column
  simple_table =
      record {
        table = 0;
        name = codes "name";
        attr_no = 0;
        oid = t_text;
        width = 256;
        type_modifier = 0;
        format = text_format;
      }
      ∷ record {
        table = 0;
        name = codes "member";
        attr_no = 0;
        oid = t_bool;
        width = 1;
        type_modifier = 0;
        format = text_format;
      }
      ∷ record {
        table = 0;
        name = codes "age";
        attr_no = 0;
        oid = t_int4;
        width = 1;
        type_modifier = 0;
        format = text_format;
      }
      ∷ []

  abbrev pub john : List (Option Any)
  john = some (string (codes "John")) ∷ some (boolean true) ∷ some (integer (pos 29)) ∷ []

  abbrev pub marry : List (Option Any)
  marry = some (string (codes "Marry")) ∷ some (boolean false) ∷ some (integer (pos 21)) ∷ []

  -- `handle`; the errors of `Define` and `Row` are not looked at.
  unfoldable pub handle : Context Any → Bytes → List Bytes → Script Any
  handle ctx query parameters =
      defines (some simple_table)
        (λ _. rows john (λ _. rows marry (λ _. completes (codes "OK") (λ e. returns e))))

  -- `main`
  unfoldable pub main :
      (Bytes → Option Error) → ConnInfo Any → (ℕ → ℕ) → Result (Setup Any × Process)
  unfolding handle
  main listen types grow =
      listen_and_serve_handler listen types grow (codes "127.0.0.1:5432") (some handle)

  -- What a client of the example is sent for a query: two rows and the end of the query.
  abbrev pub answer_messages : List (List Bytes) → List Bytes
  answer_messages encoded =
      table_messages simple_table (john ∷ marry ∷ []) encoded (codes "OK") ++ ready_message ∷ []

  -- `handleSimpleQuery` of a server with the parser that the example sets, on a query that is not blank
  -- and whose placeholders the parser can count, on a connection that takes five messages and with types
  -- that encode the six values: it succeeds, and sends one RowDescription, the two rows, CommandComplete
  -- with `OK`, and ReadyForQuery, whatever else the query says.
  pub handle-answers :
      (grow : ℕ → ℕ) (srv : Server Any) (ctx : Context Any) (query : Bytes)
      (encoded : List (List Bytes)) (p : Oids) (w : World Any)
      → srv.parse ≡ some (simple_parse grow (some handle))
      → IsText query
      → is_blank query ≡ false
      → w.conn.reader.msg ≡ query ++ 0 ∷ []
      → count_parameters grow query ≡ ok p
      → AreRows ctx simple_table (john ∷ marry ∷ []) encoded
      → 5 ≤ w.conn.writer.sink.accepts
      → ((handle_simple_query srv ctx w).0 ≡ ok tt)
        × ((handle_simple_query srv ctx w).1.conn.writer.sink.sent
            ≡ w.conn.writer.sink.sent ++ answer_messages encoded)
  unfolding handle each_row
  handle-answers grow srv ctx query encoded p w set legal inked arrives counted h room =
      let (done, left) =
        handle_simple_query_lem srv ctx (simple_parse grow (some handle)) query w legal inked set
          arrives in
      let (success, sent) =
        table-answers grow ctx handle query p counted w.conn.writer _ _ (john ∷ marry ∷ []) encoded
          (codes "OK") refl h room in
      (done ∙ success, ap (λ (c : Writer). c.sink.sent) left ∙ sent)
