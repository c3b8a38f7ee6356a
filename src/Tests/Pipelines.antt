-- ===== src/Tests/Pipelines.antt =====
-- A client that sends its commands without waiting for the answers.
use psql_wire.Base.{
  All, Bytes, List, [], ap, arith, equal, false, length, none, refl, true, ℕ, ◌++◌, ◌-◌, ◌∷◌, ◌≡◌,
}
use psql_wire.Buffer.Reader.{buffer_size}
use psql_wire.Buffer.Stream.{write}
use psql_wire.Buffer.Words.{put_uint16, put_uint32}
use psql_wire.Buffer.Writer.{
  Writer, add, add_byte, add_null_terminate, add_string, end, new_writer, put_length, reset_frame,
  start,
}
use psql_wire.Buffer.Writer.Framing.{server_message}
use psql_wire.Errors.{eof}
use psql_wire.Exec.{Result, ok, ◌>>◌}
use psql_wire.Messages.{client_terminate, server_idle}
use psql_wire.Tests.Samples.{
  conn_of, letters, letters-IsText, no_portals, no_statements, open_writer, sample_context,
  sample_server, world_on,
}
use psql_wire.Wire.Auth.{authenticated_username}
use psql_wire.Wire.Cache.{call_statement, get, lookup}
use psql_wire.Wire.Command.{consume_commands}
use psql_wire.Wire.Context.{Context, Parameters, set_parameter}
use psql_wire.Wire.DataWriter.{
  announce_empty, command_complete, complete, finish, new_data_writer, run_script,
}
use psql_wire.Wire.Extended.{report}
use psql_wire.Wire.Extended.Parameters.{write_parameter_descriptions}
use psql_wire.Wire.Extended.Parameters.RoundTrip.{IsEncodable, encode_values, encode_words}
use psql_wire.Wire.Extended.Parsed.{encode_oids}
use psql_wire.Wire.Handshake.{server_parameters}
use psql_wire.Wire.Handshake.Pairs.{ArePairs, encode_pairs}
use psql_wire.Wire.Query.{with_data_writer}
use psql_wire.Wire.Response.{ready_for_query}
use psql_wire.Wire.Serve.{serve_open}
use psql_wire.Wire.Serve.Starts.{startup_messages, told_context}
use psql_wire.Wire.Server.{World}
use psql_wire.Wire.Session.{
  Command, Session, binds, executes, hold_session, open_portal, parses, perform, perform_all,
  prepare, remember, run_portal, syncs, tell, terminates,
}
use psql_wire.Wire.Session.Messages.{Fits, command_body, encode_commands, encode_ending}
use psql_wire.Wire.Session.Refinement.Connections.{serve_open-holds, whole_input}
use psql_wire.Wire.Session.Refinement.Served.{consume_commands-closes, consume_commands-serves}
use psql_wire.Wire.Session.Simulation.{Matches}

abbrev pipelined : List (Command)
pipelined =
    parses letters letters (25 ∷ [])
    ∷ binds letters letters 0 (letters ∷ []) []
    ∷ executes letters 0
    ∷ syncs []
    ∷ []

letters-IsEncodable : IsEncodable 0 (letters ∷ []) []
letters-IsEncodable = record {
  formats_fit = omega arith;
  values_fit = omega arith;
  lengths_fit = (omega arith, tt);
  columns_fit = omega arith;
  codes_fit = tt;
}

pipelined-Fits : All (Fits 32) pipelined
unfolding command_body encode_oids put_uint16 put_uint32 encode_values encode_words
pipelined-Fits = (
  ((letters-IsText, letters-IsText, omega arith), omega arith, omega arith),
  (
    ((letters-IsText, letters-IsText, letters-IsEncodable), omega arith, omega arith),
    (
      ((letters-IsText, omega arith), omega arith, omega arith),
      ((tt, omega arith, omega arith), tt),
    ),
  ),
)

abbrev pipelined_bytes : Bytes
pipelined_bytes = encode_commands pipelined ++ server_message client_terminate []

abbrev pub first_session : Session ℕ
first_session = record { statements = λ n. none; portals = λ n. none; client = open_writer }

first-Matches :
    Matches {A = Unit {0}} (ok tt, world_on (conn_of pipelined_bytes)) (ok tt, first_session)
unfolding get lookup
first-Matches = record {
  answer = refl;
  known = no_statements;
  bound = no_portals;
  known_is = refl;
  bound_is = refl;
  statements = λ n. refl;
  portals = λ n. refl;
  client = refl;
}

consume_commands-serves_example :
    Matches
      (consume_commands sample_server sample_context (world_on (conn_of pipelined_bytes)))
      (hold_session sample_server sample_context pipelined terminates first_session)
consume_commands-serves_example =
    consume_commands-serves sample_server sample_context pipelined terminates eof 0
      (world_on (conn_of pipelined_bytes)) first_session first-Matches pipelined-Fits refl
      (unfold encode_ending in refl)

abbrev performed : Result (Unit {0}) × Session ℕ
performed =
    (tell (ready_for_query server_idle) >> perform_all sample_server sample_context pipelined)
      first_session

performed_all : performed.0 ≡ ok tt
unfolding perform_all perform prepare remember open_portal run_portal report with_data_writer
    call_statement run_script complete announce_empty finish command_complete start add_string
    add_null_terminate add add_byte end write new_data_writer new_writer ready_for_query
    write_parameter_descriptions equal put_length reset_frame
performed_all = refl

left_open : performed.1.client.sink.closed ≡ false
unfolding perform_all perform prepare remember open_portal run_portal report with_data_writer
    call_statement run_script complete announce_empty finish command_complete start add_string
    add_null_terminate add add_byte end write new_data_writer new_writer ready_for_query
    write_parameter_descriptions equal put_length reset_frame
left_open = refl

consume_commands-closes_example :
    let p = consume_commands sample_server sample_context (world_on (conn_of pipelined_bytes)) in
    (p.0 ≡ ok tt)
    × (p.1.conn.writer.sink.sent ≡ performed.1.client.sink.sent)
    × (p.1.conn.writer.sink.closed ≡ true)
    × (p.1.conn.writer.sink.accepts ≡ 0)
consume_commands-closes_example =
    consume_commands-closes sample_server sample_context pipelined eof 0
      (world_on (conn_of pipelined_bytes)) first_session performed.1 first-Matches pipelined-Fits
      refl refl (ap (λ (r : Result (Unit {0})). (r, performed.1)) performed_all) left_open

abbrev letters_pair : Parameters
letters_pair = (letters, letters) ∷ []

letters_pair-ArePairs : ArePairs letters_pair
unfolding equal
letters_pair-ArePairs = ((letters-IsText, refl, letters-IsText), tt)

abbrev connection_world : World ℕ
connection_world = world_on (
    conn_of (
      whole_input sample_server (λ s. s) (λ m. m) sample_context letters_pair pipelined terminates))

connection-Matches : Matches {A = Unit {0}} (ok tt, connection_world) (ok tt, first_session)
unfolding get lookup
connection-Matches = record {
  answer = refl;
  known = no_statements;
  bound = no_portals;
  known_is = refl;
  bound_is = refl;
  statements = λ n. refl;
  portals = λ n. refl;
  client = refl;
}

abbrev told : Context ℕ
told = told_context sample_server (λ s. s) (λ m. m) sample_context letters_pair none

serve_open-holds_example :
    (client : Writer) × (client.sink ≡ record (open_writer.sink) {
      sent =
          open_writer.sink.sent
          ++ startup_messages sample_server (λ s. s) (λ m. m) sample_context letters_pair none;
      accepts =
          open_writer.sink.accepts
          - length
              (startup_messages sample_server (λ s. s) (λ m. m) sample_context letters_pair none);
    })
    × Matches (serve_open sample_server (λ s. s) (λ m. m) sample_context connection_world) (
        hold_session sample_server told pipelined terminates
          (record first_session { client = client }))
serve_open-holds_example =
    serve_open-holds sample_server (λ s. s) (λ m. m) sample_context letters_pair pipelined
      terminates eof 0 told (λ ctx. ok ctx) connection_world first_session connection-Matches refl
      letters_pair-ArePairs (unfold encode_pairs buffer_size in omega arith)
      (unfold encode_pairs in omega arith) (unfold buffer_size in pipelined-Fits) refl refl refl
      refl
      (unfold new_writer server_parameters set_parameter equal authenticated_username in
        omega arith)
