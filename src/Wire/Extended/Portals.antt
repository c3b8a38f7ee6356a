-- ===== src/Wire/Extended/Portals.antt =====
-- Bind and Execute, from the messages of a client to the statement that runs.
use psql_wire.Base.{
  Bytes, List, Option, [], equal, if◌then◌else◌, length, none, refl, some, ℕ, ◌++◌, ◌<◌, ◌∷◌, ◌≡◌,
  ◌≤◌,
}
use psql_wire.Buffer.Reader.Values.{IsText}
use psql_wire.Buffer.Words.{put_uint32}
use psql_wire.Buffer.Writer.Framing.{server_message}
use psql_wire.Errors.{Error}
use psql_wire.Exec.{ok, panic}
use psql_wire.Messages.{server_bind_complete}
use psql_wire.Wire.Cache.{
  DefaultPortalCache, DefaultStatementCache, StatementFn, bind, call_statement, execute, get,
  lookup, made,
}
use psql_wire.Wire.Cache.Laws.{execute-bind, get-unknown}
use psql_wire.Wire.Context.{Context, Parameters}
use psql_wire.Wire.DataWriter.{DataWriter, new_data_writer}
use psql_wire.Wire.Extended.{handle_bind, handle_execute, report}
use psql_wire.Wire.Extended.Bound.{handle_bind-bind, handle_execute-bind}
use psql_wire.Wire.Extended.Parameters.RoundTrip.{IsEncodable, encode_parameters}
use psql_wire.Wire.Extended.Reported.{failure_messages, report_lem}
use psql_wire.Wire.Query.{with_data_writer}
use psql_wire.Wire.Query.Finished.{failure_of}
use psql_wire.Wire.Server.{Conn, World}

module _ {V : Type 0} where
  -- `handleBind` on a Bind message that names a portal and a statement and has text parameters, where
  -- the connection takes one more write: from then on `Execute` of the portal calls what the cache has
  -- for the statement on these parameters, and every other portal executes as before; BindComplete is
  -- sent, whether the cache knows the statement or not.
  pub handle_bind-binds :
      (portal statement : Bytes) (formats : ℕ) (values : List Bytes) (columns : List ℕ)
      (fn : Option (StatementFn V)) (known : DefaultStatementCache V) (bound : DefaultPortalCache V)
      (w : World V)
      → IsText portal
      → IsText statement
      → IsEncodable formats values columns
      → w.conn.reader.msg
        ≡ portal ++ 0 ∷ (statement ++ 0 ∷ encode_parameters formats values columns)
      → w.statements ≡ some known
      → (get statement known).0 ≡ ok fn
      → w.portals ≡ some bound
      → 1 ≤ w.conn.writer.sink.accepts
      → ((handle_bind w).0 ≡ ok tt)
        × ((cache : DefaultPortalCache V) × ((handle_bind w).1.portals ≡ some cache)
            × ((ctx : Context V) (n : Bytes) (d : DataWriter)
                → execute ctx cache n d ≡ (
                    if equal portal n
                    then call_statement ctx fn values d
                    else execute ctx bound n d)))
        × ((handle_bind w).1.statements ≡ some known)
        × ((handle_bind w).1.conn.writer.sink.sent
            ≡ w.conn.writer.sink.sent ++ server_message server_bind_complete [] ∷ [])
  handle_bind-binds portal statement formats values columns fn known bound w hp hs he em ek eg eb
        room =
      let (done, kept, left, told) =
        handle_bind-bind portal statement formats values columns fn known bound w hp hs he em ek eg
          eb room in
      (
        done,
        (
          (bind portal fn values bound).1,
          kept,
          λ ctx n d. execute-bind ctx n portal fn values bound d,
        ),
        left,
        told,
      )

  -- `handleExecute` on an Execute message, whatever its row limit, for a portal that was bound last to
  -- a statement and parameters, where the statement returns, with or without an error, and the
  -- connection takes the answer to an error: the statement runs on these parameters with a data writer
  -- of its own, and the handler succeeds; where the statement succeeds, the client is sent what it
  -- sends and no more, and where it fails, an ErrorResponse for its error and ReadyForQuery behind
  -- that. The caches are left alone.
  pub handle_execute-runs :
      (portal : Bytes) (limit : ℕ) (fn : Option (StatementFn V)) (values : List Bytes)
      (known : DefaultStatementCache V) (bound : DefaultPortalCache V) (ctx : Context V)
      (conn : Conn) (params : Option Parameters) (failure : Option Error)
      → IsText portal
      → limit < 4294967296
      → conn.reader.msg ≡ portal ++ 0 ∷ put_uint32 limit
      → let run = call_statement ctx fn values (new_data_writer conn.writer) in
        failure_of run.0 ≡ some failure
        → length (failure_messages failure) ≤ run.1.client.sink.accepts
        → let cache = (bind portal fn values bound).1 in
          let p = handle_execute ctx (record {
            conn = conn;
            statements = some known;
            portals = some cache;
            parameters = params;
          }) in
          (p.0 ≡ ok tt)
          × (p.1.conn.writer.sink.sent ≡ run.1.client.sink.sent ++ failure_messages failure)
          × (p.1.statements ≡ some known)
          × (p.1.portals ≡ some cache)
  handle_execute-runs portal limit fn values known bound ctx conn params failure hp hl em outcome
        room =
      let run = call_statement ctx fn values (new_data_writer conn.writer) in
      let (done, told) = report_lem (run.0, run.1.client) failure outcome room in
      rw (handle_execute-bind portal limit fn values known bound ctx conn params hp hl em)
        (unfold with_data_writer in (done, told, refl, refl))

  -- Bind takes the name of a statement that was never parsed, and Execute of that portal panics: on a
  -- connection that still takes a write, `handleBind` answers BindComplete and `handleExecute` calls
  -- the nil statement.
  pub handle_execute-unknown :
      (portal statement : Bytes) (formats : ℕ) (values : List Bytes) (columns : List ℕ) (limit : ℕ)
      (known : DefaultStatementCache V) (bound : DefaultPortalCache V) (ctx : Context V)
      (w : World V) (conn : Conn)
      → IsText portal
      → IsText statement
      → IsEncodable formats values columns
      → limit < 4294967296
      → w.conn.reader.msg
        ≡ portal ++ 0 ∷ (statement ++ 0 ∷ encode_parameters formats values columns)
      → w.statements ≡ some known
      → lookup statement (made known.statements) ≡ none
      → w.portals ≡ some bound
      → 1 ≤ w.conn.writer.sink.accepts
      → conn.reader.msg ≡ portal ++ 0 ∷ put_uint32 limit
      → ((handle_bind w).0 ≡ ok tt)
        × ((handle_execute ctx (record ((handle_bind w).1) { conn = conn })).0 ≡ panic)
  handle_execute-unknown portal statement formats values columns limit known bound ctx w conn hp hs
        he hl em ek unknown eb room ex =
      let (done, p, s, told) =
        handle_bind-bind portal statement formats values columns none known bound w hp hs he em ek
          (get-unknown statement known unknown) eb room in
      (
        done,
        rw
            (
              s,
              p,
              handle_execute-bind portal limit none values known bound ctx conn
                  ((handle_bind w).1.parameters) hp hl ex,
            )
            (unfold call_statement report with_data_writer in refl),
      )
