-- ===== src/Tests/Statements.antt =====
-- Statements, portals and queries.
use psql_wire.Base.{
  Bytes, List, [], arith, equal, false, if◌then◌else◌, length, none, refl, some, true, ℕ, ◌++◌, ◌∷◌,
  ◌≡◌, ◌≤◌,
}
use psql_wire.Buffer.Stream.{write}
use psql_wire.Buffer.Words.{put_uint16, put_uint32}
use psql_wire.Buffer.Writer.{add, add_null_terminate, add_string, end, new_writer, start}
use psql_wire.Buffer.Writer.Framing.{server_message}
use psql_wire.Errors.{closed_writer, eof}
use psql_wire.Exec.{Result, err, ok, panic}
use psql_wire.Messages.{server_bind_complete, server_parse_complete}
use psql_wire.Tests.Samples.{
  completing, conn_at, letters, letters-IsText, no_portals, no_statements, open_writer,
  sample_context, sample_parser, sample_server, world_on,
}
use psql_wire.Wire.Cache.{
  DefaultPortalCache, DefaultStatementCache, bind, call_statement, execute, get, lookup, made,
}
use psql_wire.Wire.Context.{Context}
use psql_wire.Wire.DataWriter.{
  DataWriter, Script, announce_empty, command_complete, complete, defines, empty, finish,
  new_data_writer, returns, rows, run_script,
}
use psql_wire.Wire.DataWriter.Closing.{complete-empty, run_script-closed}
use psql_wire.Wire.Extended.{handle_bind, handle_execute, handle_parse}
use psql_wire.Wire.Extended.Parameters.RoundTrip.{IsEncodable, encode_parameters}
use psql_wire.Wire.Extended.Parsed.{description_messages, handle_parse-caches}
use psql_wire.Wire.Extended.Portals.{handle_bind-binds, handle_execute-runs, handle_execute-unknown}
use psql_wire.Wire.Extended.Reported.{failure_messages}
use psql_wire.Wire.Query.{run_query}
use psql_wire.Wire.Query.Finished.{ending_messages, failure_of, run_query-ready}
use psql_wire.Wire.Server.{World}

abbrev bind_message : Bytes
bind_message = letters ++ 0 ∷ (letters ++ 0 ∷ encode_parameters 0 (letters ∷ []) [])

letters-IsEncodable : IsEncodable 0 (letters ∷ []) []
letters-IsEncodable = record {
  formats_fit = omega arith;
  values_fit = omega arith;
  lengths_fit = (omega arith, tt);
  columns_fit = omega arith;
  codes_fit = tt;
}

abbrev with_statement : DefaultStatementCache ℕ
with_statement = record { statements = some ((letters, some completing) ∷ []) }

abbrev parsed_world : World ℕ
parsed_world = record (world_on (conn_at bind_message)) { statements = some with_statement }

found : (get letters with_statement).0 ≡ ok (some completing)
unfolding get lookup equal
found = refl

handle_bind-binds_example :
    ((handle_bind parsed_world).0 ≡ ok tt)
    × ((cache : DefaultPortalCache ℕ) × ((handle_bind parsed_world).1.portals ≡ some cache)
        × ((ctx : Context ℕ) (n : Bytes) (d : DataWriter)
            → execute ctx cache n d ≡ (
                if equal letters n
                then call_statement ctx (some completing) (letters ∷ []) d
                else execute ctx no_portals n d)))
    × ((handle_bind parsed_world).1.statements ≡ some with_statement)
    × ((handle_bind parsed_world).1.conn.writer.sink.sent
        ≡ open_writer.sink.sent ++ server_message server_bind_complete [] ∷ [])
handle_bind-binds_example =
    handle_bind-binds letters letters 0 (letters ∷ []) [] (some completing) with_statement
      no_portals parsed_world letters-IsText letters-IsText letters-IsEncodable refl refl found refl
      (unfold new_writer in omega arith)

abbrev failing : Context ℕ → List Bytes → Script ℕ
failing ctx parameters = returns (some eof)

abbrev execute_message : Bytes
execute_message = letters ++ 0 ∷ put_uint32 0

abbrev bound_portals : DefaultPortalCache ℕ
bound_portals = (bind letters (some failing) (letters ∷ []) no_portals).1

abbrev failed_run : Result (Unit {0}) × DataWriter
failed_run =
    call_statement sample_context (some failing) (letters ∷ []) (new_data_writer open_writer)

fails : failure_of failed_run.0 ≡ some (some eof)
unfolding call_statement run_script
fails = refl

reports : length (failure_messages (some eof)) ≤ failed_run.1.client.sink.accepts
unfolding call_statement run_script new_data_writer new_writer
reports = omega arith

handle_execute-runs_example :
    let p = handle_execute sample_context (record {
      conn = conn_at execute_message;
      statements = some with_statement;
      portals = some bound_portals;
      parameters = none;
    }) in
    (p.0 ≡ ok tt)
    × (p.1.conn.writer.sink.sent ≡ failed_run.1.client.sink.sent ++ failure_messages (some eof))
    × (p.1.statements ≡ some with_statement)
    × (p.1.portals ≡ some bound_portals)
handle_execute-runs_example =
    handle_execute-runs letters 0 (some failing) (letters ∷ []) with_statement no_portals
      sample_context (conn_at execute_message) none (some eof) letters-IsText (omega arith) refl
      fails reports

abbrev fresh_world : World ℕ
fresh_world = world_on (conn_at bind_message)

unknown : lookup letters (made no_statements.statements) ≡ none
unfolding lookup
unknown = refl

handle_execute-unknown_example :
    ((handle_bind fresh_world).0 ≡ ok tt)
    × ((handle_execute sample_context
          (record ((handle_bind fresh_world).1) { conn = conn_at execute_message })).0
        ≡ panic)
handle_execute-unknown_example =
    handle_execute-unknown letters letters 0 (letters ∷ []) [] 0 no_statements no_portals
      sample_context fresh_world (conn_at execute_message) letters-IsText letters-IsText
      letters-IsEncodable (omega arith) refl refl unknown refl (unfold new_writer in omega arith)
      refl

abbrev two_calls : Script ℕ
two_calls = defines (some []) (λ e. rows [] (λ e'. completing sample_context []))

abbrev closed_writer_of : DataWriter
closed_writer_of = record { columns = some []; closed = true; written = 3; client = open_writer }

run_script-closed_example :
    (run_script sample_context two_calls closed_writer_of).1 ≡ closed_writer_of
run_script-closed_example = run_script-closed sample_context two_calls closed_writer_of refl

abbrev defined_writer : DataWriter
defined_writer = record { columns = some []; closed = false; written = 0; client = open_writer }

emptied : (empty defined_writer).0 ≡ ok tt
unfolding empty
emptied = refl

complete-empty_example :
    complete letters (empty defined_writer).1
    ≡ (err closed_writer, record defined_writer { closed = true })
complete-empty_example = complete-empty letters defined_writer emptied

completed :
    failure_of (call_statement sample_context (some completing) [] (new_data_writer open_writer)).0
    ≡ some none
unfolding call_statement run_script complete announce_empty finish command_complete start add_string
    add_null_terminate add end write new_data_writer new_writer
completed = refl

room_left :
    1
    ≤ (call_statement sample_context
        (some completing)
        []
        (new_data_writer open_writer)).1.client.sink.accepts
unfolding call_statement run_script complete announce_empty finish command_complete start add_string
    add_null_terminate add end write new_data_writer new_writer
room_left = omega arith

parses : sample_parser sample_context letters ≡ ok (some completing, [])
unfolding equal
parses = refl

run_query-ready_example :
    let run = call_statement sample_context (some completing) [] (new_data_writer open_writer) in
    ((run_query sample_context sample_parser letters open_writer).0 ≡ ok tt)
    × ((run_query sample_context sample_parser letters open_writer).1.sink.sent
        ≡ run.1.client.sink.sent ++ ending_messages none)
run_query-ready_example =
    run_query-ready sample_context sample_parser letters (some completing) [] none open_writer
      parses completed room_left

abbrev parse_message_bytes : Bytes
parse_message_bytes = letters ++ 0 ∷ (letters ++ 0 ∷ (put_uint16 1 ++ put_uint32 25))

handle_parse-caches_example :
    let p = handle_parse sample_server sample_context (world_on (conn_at parse_message_bytes)) in
    (p.0 ≡ ok tt)
    × ((cache : DefaultStatementCache ℕ) × (p.1.statements ≡ some cache)
        × ((n : Bytes)
            → (get n cache).0
              ≡ (if equal letters n then ok (some completing) else (get n no_statements).0)))
    × (p.1.conn.writer.sink.sent
        ≡ (open_writer.sink.sent ++ description_messages [])
          ++ server_message server_parse_complete [] ∷ [])
handle_parse-caches_example =
    handle_parse-caches sample_server sample_context letters letters (put_uint32 25) 1 sample_parser
      (some completing) [] no_statements (conn_at parse_message_bytes) (some no_portals) none
      letters-IsText letters-IsText (omega arith) refl refl parses
      (unfold new_writer in omega arith)
