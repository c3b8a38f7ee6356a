-- ===== src/Wire/Extended/Bound.antt =====
-- Bind and Execute, with the cache that `bind` leaves written out.
use psql_wire.Base.{
  Bytes, List, Option, [], ap, append-nil, refl, some, sym, ℕ, ◌++◌, ◌<◌, ◌∙◌, ◌∷◌, ◌≡◌, ◌≤◌,
}
use psql_wire.Buffer.Reader.Values.{IsText, get_string-append, get_uint32-put_uint32}
use psql_wire.Buffer.Stream.{Sink}
use psql_wire.Buffer.Words.{put_uint32}
use psql_wire.Buffer.Writer.{end, start}
use psql_wire.Buffer.Writer.Emits.{Emits, sends}
use psql_wire.Buffer.Writer.Framing.{Emits-message, Ends-end, server_message}
use psql_wire.Exec.{Result, ok, ◌>>◌}
use psql_wire.Messages.{server_bind_complete}
use psql_wire.Wire.Cache.{
  DefaultPortalCache, DefaultStatementCache, StatementFn, bind, call_statement, get,
}
use psql_wire.Wire.Cache.Laws.{execute-bind_same}
use psql_wire.Wire.Context.{Context, Parameters}
use psql_wire.Wire.DataWriter.{DataWriter, new_data_writer}
use psql_wire.Wire.Extended.{
  bind_portal, execute_portal, get_statement, handle_bind, handle_execute, report,
}
use psql_wire.Wire.Extended.Parameters.RoundTrip.{
  IsEncodable, encode_parameters, read_parameters-encode,
}
use psql_wire.Wire.Query.{with_data_writer}
use psql_wire.Wire.Server.{Conn, World, to_client}

bind_complete-Emits :
    Emits (start server_bind_complete >> end) (server_message server_bind_complete [] ∷ [])
bind_complete-Emits = Emits-message server_bind_complete [] Ends-end

module _ {V : Type 0} where
  acknowledge_lem :
      (w : World V)
      → 1 ≤ w.conn.writer.sink.accepts
      → let p = (to_client (start server_bind_complete) >> to_client end) w in
        (p.0 ≡ ok tt)
        × (p.1.portals ≡ w.portals)
        × (p.1.statements ≡ w.statements)
        × (p.1.conn.writer.sink.sent
            ≡ w.conn.writer.sink.sent ++ server_message server_bind_complete [] ∷ [])
  unfolding start
  acknowledge_lem w room =
      let (e, s) = sends bind_complete-Emits w.conn.writer room in
      (e, refl, refl, ap (λ (s : Sink). s.sent) s)

  pub handle_bind-bind :
      (portal statement : Bytes) (formats : ℕ) (values : List Bytes) (columns : List ℕ)
      (fn : Option (StatementFn V)) (known : DefaultStatementCache V) (bound : DefaultPortalCache V)
      (w : World V)
      → IsText portal
      → IsText statement
      → IsEncodable formats values columns
      → w.conn.reader.msg
        ≡ portal ++ 0 ∷ (statement ++ 0 ∷ encode_parameters formats values columns)
      → w.statements ≡ some known
      → (get statement known).0 ≡ ok fn
      → w.portals ≡ some bound
      → 1 ≤ w.conn.writer.sink.accepts
      → ((handle_bind w).0 ≡ ok tt)
        × ((handle_bind w).1.portals ≡ some (bind portal fn values bound).1)
        × ((handle_bind w).1.statements ≡ some known)
        × ((handle_bind w).1.conn.writer.sink.sent
            ≡ w.conn.writer.sink.sent ++ server_message server_bind_complete [] ∷ [])
  unfolding handle_bind get_statement bind_portal bind
  handle_bind-bind portal statement formats values columns fn known bound w hp hs he em ek eg eb
        room =
      let m1 = statement ++ 0 ∷ encode_parameters formats values columns in
      let m2 = encode_parameters formats values columns in
      let bound_world : World V = record w {
        conn = record (w.conn) { reader = record (w.conn.reader) { msg = [] } };
        portals = some (bind portal fn values bound).1;
      } in
      let (done, portals_left, statements_left, told) = acknowledge_lem bound_world room in
      rw
        (
          get_string-append portal m1 w.conn.reader hp em,
          get_string-append statement m2 (record (w.conn.reader) { msg = m1 }) hs refl,
          read_parameters-encode formats values columns [] (record (w.conn.reader) { msg = m2 }) he
              (sym (append-nil m2)),
          ek,
          eg,
          eb,
        )
        (done, portals_left, statements_left ∙ ek, told)

  pub handle_execute-bind :
      (portal : Bytes) (limit : ℕ) (fn : Option (StatementFn V)) (values : List Bytes)
      (known : DefaultStatementCache V) (bound : DefaultPortalCache V) (ctx : Context V)
      (conn : Conn) (params : Option Parameters)
      → IsText portal
      → limit < 4294967296
      → conn.reader.msg ≡ portal ++ 0 ∷ put_uint32 limit
      → let cache = (bind portal fn values bound).1 in
        handle_execute ctx (record {
          conn = conn;
          statements = some known;
          portals = some cache;
          parameters = params;
        })
        ≡ to_client
            (λ c. report (with_data_writer (call_statement ctx fn values) c))
            (record {
              conn = record conn { reader = record (conn.reader) { msg = [] } };
              statements = some known;
              portals = some cache;
              parameters = params;
            })
  unfolding handle_execute execute_portal with_data_writer
  handle_execute-bind portal limit fn values known bound ctx conn params hp hl em =
      let cache = (bind portal fn values bound).1 in
      rw
        (
          get_string-append portal (put_uint32 limit) conn.reader hp em,
          get_uint32-put_uint32 limit [] (record (conn.reader) { msg = put_uint32 limit }) hl
              (sym (append-nil (put_uint32 limit))),
        )
        (ap
          (λ (p : Result (Unit {0}) × DataWriter).
            to_client {V = V} (λ _. report (p.0, p.1.client))
              (record {
                conn = record conn { reader = record (conn.reader) { msg = [] } };
                statements = some known;
                portals = some cache;
                parameters = params;
              }))
          (execute-bind_same ctx portal fn values bound (new_data_writer conn.writer)))
