-- ===== src/Tests/Mocked.antt =====
-- The client of the tests at the sample server.
use psql_wire.Base.{All, [], arith, equal, false, none, refl, ℕ, ◌≡◌}
use psql_wire.Buffer.Reader.{Reader, buffer_size, default_buffer_size}
use psql_wire.Buffer.Writer.{encode_boolean, new_writer}
use psql_wire.Errors.{eof}
use psql_wire.Exec.{Result, ok}
use psql_wire.Mock.{client_authenticate, client_handshake, client_ready_for_query, new_client}
use psql_wire.Mock.Reads.{IsShort, joined, mock_pairs}
use psql_wire.Mock.Served.{client_ready_for_query-serve, sent_parameters}
use psql_wire.Tests.Pipelines.{first_session}
use psql_wire.Tests.Samples.{
  conn_of, no_portals, no_statements, sample_context, sample_server, world_on,
}
use psql_wire.Wire.Auth.{authenticated_username, is_super_user}
use psql_wire.Wire.Cache.{get, lookup}
use psql_wire.Wire.Context.{client_parameter, get_parameter, set_parameter}
use psql_wire.Wire.Handshake.{server_parameters}
use psql_wire.Wire.Handshake.Pairs.{encode_pairs, set_pairs}
use psql_wire.Wire.Serve.{serve}
use psql_wire.Wire.Serve.Starts.{told_context}
use psql_wire.Wire.Server.{Conn, World}
use psql_wire.Wire.Session.Simulation.{Matches}

abbrev new_conn : Conn
new_conn =
    new_client (record { pending = []; ending = eof; held = 0 })
      (record { sent = []; accepts = 1; broken = eof; closed = false })

abbrev greeting_world : World ℕ
greeting_world = world_on (conn_of (joined (client_handshake new_conn).1.writer.sink.sent))

abbrev greeted : Result (Unit {0}) × World ℕ
greeted = serve sample_server (λ s. s) (λ m. m) sample_context greeting_world

abbrev arrived : Reader
arrived = record {
  buffer = record { pending = joined greeted.1.conn.writer.sink.sent; ending = eof; held = 0 };
  msg = [];
  max_message_size = default_buffer_size;
}

greeting-Matches : Matches {A = Unit {0}} (ok tt, greeting_world) (ok tt, first_session)
unfolding get lookup
greeting-Matches = record {
  answer = refl;
  known = no_statements;
  bound = no_portals;
  known_is = refl;
  bound_is = refl;
  statements = λ n. refl;
  portals = λ n. refl;
  client = refl;
}

parameters-AreShort :
    All
      (IsShort default_buffer_size)
      (sent_parameters sample_server (λ s. s) (λ m. m) sample_context greeting_world)
unfolding server_parameters set_parameter equal authenticated_username client_parameter
    get_parameter set_pairs encode_boolean is_super_user
parameters-AreShort = (omega arith, (omega arith, (omega arith, (omega arith, tt))))

client_ready_for_query-serve_example :
    ((client_handshake new_conn).0 ≡ ok tt)
    × (greeted.0 ≡ ok tt)
    × ((client_authenticate arrived).0 ≡ ok tt)
    × ((client_ready_for_query (client_authenticate arrived).1).0 ≡ ok tt)
    × ((client_ready_for_query (client_authenticate arrived).1).1.buffer.pending ≡ [])
client_ready_for_query-serve_example =
    client_ready_for_query-serve sample_server (λ s. s) (λ m. m) sample_context new_conn 0
      (told_context sample_server (λ s. s) (λ m. m) sample_context mock_pairs none) (λ ctx. ok ctx)
      greeting_world first_session arrived greeting-Matches (unfold new_client new_writer in refl)
      (unfold new_client new_writer in omega arith) refl
      (unfold encode_pairs buffer_size in omega arith) refl refl refl
      (unfold new_writer server_parameters set_parameter equal authenticated_username in
        omega arith)
      (unfold new_writer in refl) refl parameters-AreShort refl
