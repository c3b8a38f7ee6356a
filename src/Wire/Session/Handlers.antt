-- ===== src/Wire/Session/Handlers.antt =====
-- Each handler of command.go does what its command does in the session.
-- A connection, its caches, and the session that they stand for.
use psql_wire.Base.{
  Bool, Bytes, List, Option, [], append-nil, false, if◌then◌else◌, length, none, refl, some, sym,
  true, ℕ, ◌++◌, ◌<◌, ◌∷◌, ◌≡◌,
}
use psql_wire.Buffer.Reader.Values.{
  IsText, get_string-append, get_uint16-put_uint16, get_uint32-put_uint32,
}
use psql_wire.Buffer.Words.{put_uint16, put_uint32}
use psql_wire.Buffer.Writer.{Writer, end, start}
use psql_wire.Exec.{Exec, Result, after, err, lift, ok, panic, pure, stuck, ◌>>◌}
use psql_wire.Messages.{
  client_parse, client_simple_query, server_bind_complete, server_parse_complete,
}
use psql_wire.Wire.Cache.{
  DefaultPortalCache, DefaultStatementCache, Portal, StatementFn, bind, call_statement, execute,
  lookup, made, set,
}
use psql_wire.Wire.Context.{Context, Parameters}
use psql_wire.Wire.Extended.{
  bind_portal, execute_portal, get_statement, handle_bind, handle_execute, handle_parse,
  parse_message, report, set_statement, store_statement,
}
use psql_wire.Wire.Extended.Parameters.{write_parameter_descriptions}
use psql_wire.Wire.Extended.Parameters.RoundTrip.{
  IsEncodable, encode_parameters, read_parameters-encode,
}
use psql_wire.Wire.Extended.Parsed.{encode_oids}
use psql_wire.Wire.Query.{
  handle_simple_query, is_blank, new_err_unimplemented_message_type, run_query, with_data_writer,
  write_empty_query,
}
use psql_wire.Wire.Response.{error_code}
use psql_wire.Wire.Server.{Conn, ParseFn, Server, World, to_client}
use psql_wire.Wire.Session.{
  Session, binds, executes, open_portal, parses, perform, prepare, queries, remember, run_portal,
  tell,
}
use psql_wire.Wire.Session.Simulation.{Follows, IsBound, IsKnown, bind-IsBound, set-IsKnown}

module _ {V : Type 0} (known : DefaultStatementCache V) (bound : DefaultPortalCache V)
    (params : Option Parameters) (f : Bytes → Option (StatementFn V))
    (g : Bytes → Option (Portal V)) (is_known : IsKnown known f) (is_bound : IsBound bound g) where
  abbrev pub world_of : Conn → World V
  world_of conn = record {
    conn = conn;
    statements = some known;
    portals = some bound;
    parameters = params;
  }

  abbrev pub session_of : Writer → Session V
  session_of client = record { statements = f; portals = g; client = client }

  pub tell-Follows :
      {A : Type 0} (m : Exec Writer A) (conn : Conn)
      → Follows conn.reader.buffer conn.reader.max_message_size
          (to_client m (world_of conn))
          (tell m (session_of conn.writer))
  tell-Follows m conn = record {
    matches = record {
      answer = refl;
      known = known;
      bound = bound;
      known_is = refl;
      bound_is = refl;
      statements = is_known;
      portals = is_bound;
      client = refl;
    };
    buffer = refl;
    max_size = refl;
  }

  if-Follows :
      (b : Bool) (m k : Exec Writer (Unit {0})) (conn : Conn)
      → Follows conn.reader.buffer conn.reader.max_message_size
          ((if b then to_client m else to_client k) (world_of conn))
          ((if b then tell m else tell k) (session_of conn.writer))
  if-Follows true m k conn = tell-Follows m conn
  if-Follows false m k conn = tell-Follows k conn

  pub queries-Follows :
      (srv : Server V) (ctx : Context V) (query : Bytes) (parse : Option (ParseFn V)) (conn : Conn)
      → srv.parse ≡ parse
      → IsText query
      → conn.reader.msg ≡ query ++ 0 ∷ []
      → Follows conn.reader.buffer conn.reader.max_message_size
          (handle_simple_query srv ctx (world_of conn))
          (perform srv ctx (queries query) (session_of conn.writer))
  unfolding handle_simple_query perform
  queries-Follows srv ctx query none conn e legal em =
      rw (e, handle_simple_query, perform)
        (tell-Follows (error_code (some (new_err_unimplemented_message_type client_simple_query)))
          conn)
  queries-Follows srv ctx query (some parser) conn e legal em =
      rw (e, handle_simple_query, perform, get_string-append query [] conn.reader legal em)
        (if-Follows (is_blank query) write_empty_query (run_query ctx parser query)
          (record conn { reader = record (conn.reader) { msg = [] } }))

  -- What is left of a Parse, once the parameter types are sent.
  stored-Follows :
      (name : Bytes) (fn : Option (StatementFn V)) (r : Result (Unit {0})) (client : Writer)
      (conn : Conn)
      → Follows conn.reader.buffer conn.reader.max_message_size
          (after
            (r, world_of (record conn { writer = client }))
            (λ _.
              set_statement name fn >> (to_client (start server_parse_complete) >> to_client end)))
          (after
            (r, session_of client)
            (λ _. remember name fn >> (tell (start server_parse_complete) >> tell end)))
  unfolding set_statement remember set start
  stored-Follows name fn (ok a) client conn = record {
    matches = record {
      answer = refl;
      known = (set name fn known).1;
      bound = bound;
      known_is = refl;
      bound_is = refl;
      statements = set-IsKnown name fn known f is_known;
      portals = is_bound;
      client = refl;
    };
    buffer = refl;
    max_size = refl;
  }
  stored-Follows name fn (err e) client conn =
      tell-Follows {A = Unit {0}} (λ c. (err e, client)) conn
  stored-Follows name fn panic client conn = tell-Follows {A = Unit {0}} (λ c. (panic, client)) conn
  stored-Follows name fn stuck client conn = tell-Follows {A = Unit {0}} (λ c. (stuck, client)) conn

  prepare-Follows :
      (name : Bytes) (r : Result (Option (StatementFn V) × List ℕ)) (conn : Conn)
      → Follows conn.reader.buffer conn.reader.max_message_size
          (store_statement name r (world_of conn))
          (prepare name r (session_of conn.writer))
  unfolding store_statement prepare
  prepare-Follows name (ok (fn, descriptions)) conn =
      let p = write_parameter_descriptions descriptions conn.writer in
      stored-Follows name fn p.0 p.1 conn
  prepare-Follows name (err e) conn = tell-Follows (error_code (some e)) conn
  prepare-Follows name panic conn = tell-Follows {A = Unit {0}} (lift panic) conn
  prepare-Follows name stuck conn = tell-Follows {A = Unit {0}} (lift stuck) conn

  pub parses-Follows :
      (srv : Server V) (ctx : Context V) (name query : Bytes) (oids : List ℕ)
      (parse : Option (ParseFn V)) (conn : Conn)
      → srv.parse ≡ parse
      → IsText name
      → IsText query
      → length oids < 65536
      → conn.reader.msg ≡ name ++ 0 ∷ (query ++ 0 ∷ (put_uint16 (length oids) ++ encode_oids oids))
      → Follows conn.reader.buffer conn.reader.max_message_size
          (handle_parse srv ctx (world_of conn))
          (perform srv ctx (parses name query oids) (session_of conn.writer))
  unfolding handle_parse perform parse_message
  parses-Follows srv ctx name query oids none conn e hn hq hc em =
      rw (e, handle_parse, perform)
        (tell-Follows (error_code (some (new_err_unimplemented_message_type client_parse))) conn)
  parses-Follows srv ctx name query oids (some parser) conn e hn hq hc em =
      let m2 = put_uint16 (length oids) ++ encode_oids oids in
      let m1 = query ++ 0 ∷ m2 in
      rw
        (
          e,
          handle_parse,
          perform,
          get_string-append name m1 conn.reader hn em,
          get_string-append query m2 (record (conn.reader) { msg = m1 }) hq refl,
          get_uint16-put_uint16 (length oids) (encode_oids oids) (record (conn.reader) { msg = m2 })
              hc refl,
        )
        (prepare-Follows name (parser ctx query)
          (record conn { reader = record (conn.reader) { msg = encode_oids oids } }))

  acknowledge-Follows :
      (name statement : Bytes) (values : List Bytes) (conn : Conn)
      → Follows conn.reader.buffer conn.reader.max_message_size
          ((bind_portal name (f statement) values
              >> (to_client (start server_bind_complete) >> to_client end))
            (world_of conn))
          ((open_portal name statement values >> (tell (start server_bind_complete) >> tell end))
            (session_of conn.writer))
  unfolding bind_portal open_portal bind start
  acknowledge-Follows name statement values conn = record {
    matches = record {
      answer = refl;
      known = known;
      bound = (bind name (f statement) values bound).1;
      known_is = refl;
      bound_is = refl;
      statements = is_known;
      portals = bind-IsBound name (f statement) values bound g is_bound;
      client = refl;
    };
    buffer = refl;
    max_size = refl;
  }

  pub binds-Follows :
      (srv : Server V) (ctx : Context V) (name statement : Bytes) (formats : ℕ)
      (values : List Bytes) (columns : List ℕ) (conn : Conn)
      → IsText name
      → IsText statement
      → IsEncodable formats values columns
      → conn.reader.msg ≡ name ++ 0 ∷ (statement ++ 0 ∷ encode_parameters formats values columns)
      → Follows conn.reader.buffer conn.reader.max_message_size
          (handle_bind (world_of conn))
          (perform srv ctx (binds name statement formats values columns) (session_of conn.writer))
  unfolding handle_bind get_statement perform
  binds-Follows srv ctx name statement formats values columns conn hn hs he em =
      let m2 = encode_parameters formats values columns in
      let m1 = statement ++ 0 ∷ m2 in
      rw
        (
          handle_bind,
          get_string-append name m1 conn.reader hn em,
          get_string-append statement m2 (record (conn.reader) { msg = m1 }) hs refl,
          read_parameters-encode formats values columns [] (record (conn.reader) { msg = m2 }) he
              (sym (append-nil m2)),
          is_known statement,
        )
        (acknowledge-Follows name statement values
          (record conn { reader = record (conn.reader) { msg = [] } }))

  run_portal-Follows :
      (ctx : Context V) (p : Option (Portal V)) (name : Bytes) (conn : Conn)
      → lookup name (made bound.portals) ≡ p
      → Follows conn.reader.buffer conn.reader.max_message_size
          (execute_portal ctx name (world_of conn))
          (run_portal ctx p (session_of conn.writer))
  unfolding execute_portal run_portal execute report with_data_writer
  run_portal-Follows ctx none name conn e =
      rw (execute_portal, execute, e) (tell-Follows (pure tt) conn)
  run_portal-Follows ctx (some p) name conn e =
      rw (execute_portal, execute, e)
        (tell-Follows
          (λ c. report (with_data_writer (call_statement ctx p.statement p.parameters) c)) conn)

  pub executes-Follows :
      (srv : Server V) (ctx : Context V) (name : Bytes) (limit : ℕ) (conn : Conn)
      → IsText name
      → limit < 4294967296
      → conn.reader.msg ≡ name ++ 0 ∷ put_uint32 limit
      → Follows conn.reader.buffer conn.reader.max_message_size
          (handle_execute ctx (world_of conn))
          (perform srv ctx (executes name limit) (session_of conn.writer))
  unfolding handle_execute perform
  executes-Follows srv ctx name limit conn hn hl em =
      rw
        (
          handle_execute,
          get_string-append name (put_uint32 limit) conn.reader hn em,
          get_uint32-put_uint32 limit [] (record (conn.reader) { msg = put_uint32 limit }) hl
              (sym (append-nil (put_uint32 limit))),
        )
        (run_portal-Follows ctx (g name) name
          (record conn { reader = record (conn.reader) { msg = [] } }) (is_bound name))
