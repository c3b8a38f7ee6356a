-- ===== src/Tests/Sessions.antt =====
-- Connections from their handshake to their end.
use psql_wire.Base.{
  Bytes, [], arith, codes, equal, false, if◌then◌else◌, length, none, refl, replicate, some, true,
  ℕ, ◌++◌, ◌+◌, ◌==◌, ◌∷◌, ◌≡◌, ◌≢◌, ◌≤◌,
}
use psql_wire.Buffer.Failures.{unwrap_message_size_exceeded}
use psql_wire.Buffer.Reader.{buffer_size}
use psql_wire.Buffer.Reader.Values.{IsText}
use psql_wire.Buffer.Words.{put_uint32}
use psql_wire.Buffer.Writer.{new_writer}
use psql_wire.Buffer.Writer.Framing.{server_message}
use psql_wire.Errors.{eof, is_eof, text}
use psql_wire.Exec.{err, ok, stuck}
use psql_wire.Messages.{
  client_close, client_password, client_simple_query, client_terminate, server_auth, version_cancel,
  version_ssl_request,
}
use psql_wire.Tests.Samples.{
  conn_of, letters, letters-IsText, no_portals, no_statements, open_writer, refuse_all,
  sample_context, sample_context-IsContext, sample_parser, sample_server, sample_server-IsServer,
  world_on,
}
use psql_wire.Wire.Auth.{auth_clear_text_password, clear_text_password}
use psql_wire.Wire.Auth.Decision.{clear_text_password-answers, verdict}
use psql_wire.Wire.Command.{consume_commands, consume_loop, consume_one}
use psql_wire.Wire.Command.Bounded.{consume_loop-bounded}
use psql_wire.Wire.Command.Closed.{closed_behind, consume_one-close, consume_one-terminate}
use psql_wire.Wire.Command.Ends.{consume_commands-ne-stuck}
use psql_wire.Wire.Command.Handlers.{Live}
use psql_wire.Wire.Command.Oversized.{consume_one-oversized, refusal}
use psql_wire.Wire.Command.Rejected.{consume_one-rejected}
use psql_wire.Wire.Handshake.{handshake, ssl_unsupported, unexpected_cancel}
use psql_wire.Wire.Handshake.Refused.{handshake-refuses_ssl, startup_message}
use psql_wire.Wire.Options.{Setup}
use psql_wire.Wire.Query.{is_blank}
use psql_wire.Wire.Serve.{serve}
use psql_wire.Wire.Serve.Closed.{serve-cancel}
use psql_wire.Wire.Server.{SessionHandler, World}

abbrev query_message : Bytes
query_message = server_message client_simple_query (codes "ab" ++ 0 ∷ [])

live : (input : Bytes) → Live (world_on (conn_of input))
unfolding unwrap_message_size_exceeded
live input = record { positive = omega arith; bounded = omega arith; network = refl }

consume_commands-ne-stuck_example :
    (consume_commands sample_server sample_context (world_on (conn_of query_message))).0 ≢ stuck
consume_commands-ne-stuck_example =
    consume_commands-ne-stuck sample_server sample_context sample_server-IsServer
      sample_context-IsContext (world_on (conn_of query_message)) (live query_message)

consume_loop-bounded_example :
    let r =
      (consume_loop sample_server sample_context 2
        (world_on (conn_of query_message))).1.conn.reader in
    length r.msg ≤ r.max_message_size
consume_loop-bounded_example =
    consume_loop-bounded sample_server sample_context sample_server-IsServer
      sample_context-IsContext 2 (world_on (conn_of query_message)) (live query_message)

abbrev password_message : Bytes
password_message = server_message client_password (letters ++ 0 ∷ [])

clear_text_password-answers_example :
    ((clear_text_password refuse_all sample_context (conn_of (password_message ++ letters))).0
      ≡ ok tt)
    × ((clear_text_password refuse_all sample_context
          (conn_of (password_message ++ letters))).1.writer.sink.sent
        ≡ (open_writer.sink.sent
            ++ server_message server_auth (put_uint32 auth_clear_text_password) ∷ [])
          ++ verdict false)
clear_text_password-answers_example =
    clear_text_password-answers refuse_all sample_context letters letters false
      (conn_of (password_message ++ letters)) letters-IsText (omega arith) (omega arith) refl refl
      (unfold new_writer in omega arith)

abbrev large : Bytes
large = replicate 33 7

abbrev oversized_world : World ℕ
oversized_world = world_on (conn_of (server_message 81 large ++ letters))

consume_one-oversized_example :
    let p = consume_one sample_server sample_context oversized_world in
    (p.0 ≡ ok true)
    × (p.1.conn.reader.buffer.pending ≡ letters)
    × (p.1.conn.writer.sink.sent ≡ open_writer.sink.sent ++ refusal 32 (length large))
consume_one-oversized_example =
    consume_one-oversized sample_server sample_context 81 large letters oversized_world
      (omega arith) (omega arith) (omega arith) refl (unfold new_writer in omega arith)

abbrev bad_world : World ℕ
bad_world =
    world_on (conn_of (server_message client_simple_query (codes "bad" ++ 0 ∷ []) ++ letters))

bad-IsText : IsText (codes "bad")
bad-IsText = ground arith

bad_inked : is_blank (codes "bad") ≡ false
unfolding is_blank
bad_inked = refl

bad_rejected : sample_parser sample_context (codes "bad") ≡ err (text (codes "syntax error"))
unfolding equal
bad_rejected = refl

no_eof : is_eof (text (codes "syntax error")) ≡ false
unfolding is_eof
no_eof = refl

consume_one-rejected_example :
    let p = consume_one sample_server sample_context bad_world in
    (p.0 ≡ err (text (codes "syntax error")))
    × (p.1.conn.writer ≡ open_writer)
    × (p.1.conn.reader.buffer.pending ≡ letters)
consume_one-rejected_example =
    consume_one-rejected sample_server sample_context (codes "bad") letters sample_parser
      (text (codes "syntax error")) bad_world bad-IsText bad_inked (omega arith) (omega arith) refl
      refl bad_rejected no_eof

-- A statement's kind and its name.
abbrev close_body : Bytes
close_body = codes "S" ++ (letters ++ 0 ∷ [])

abbrev closing_world : World ℕ
closing_world = world_on (conn_of (server_message client_close close_body ++ letters))

still_open : open_writer.sink.closed ≡ false
unfolding new_writer
still_open = refl

consume_one-close_example :
    consume_one sample_server sample_context closing_world
    ≡ (ok true, closed_behind close_body letters closing_world)
consume_one-close_example =
    consume_one-close sample_server sample_context close_body letters closing_world (omega arith)
      (omega arith) refl refl still_open

abbrev terminating_world : World ℕ
terminating_world = world_on (conn_of (server_message client_terminate [] ++ letters))

consume_one-terminate_example :
    consume_one sample_server sample_context terminating_world
    ≡ (ok false, closed_behind [] letters terminating_world)
consume_one-terminate_example =
    consume_one-terminate sample_server sample_context letters terminating_world refl refl
      still_open

abbrev greeting : Bytes
greeting = startup_message version_ssl_request [] ++ (startup_message 196608 letters ++ letters)

fits_default : length letters + 4 ≤ buffer_size sample_server.buffered_msg_size
unfolding buffer_size
fits_default = omega arith

handshake-refuses_ssl_example :
    let p = handshake sample_server (λ s. s) (conn_of greeting) in
    (p.0 ≡ (if 196608 == version_cancel then err unexpected_cancel else ok 196608))
    × (p.1.reader.msg ≡ letters)
    × (p.1.reader.buffer.pending ≡ letters)
    × (p.1.writer.sink.sent ≡ open_writer.sink.sent ++ ssl_unsupported ∷ [])
handshake-refuses_ssl_example =
    handshake-refuses_ssl sample_server (λ s. s) 196608 letters letters (conn_of greeting) refl
      (omega arith) fits_default (omega arith) refl (unfold new_writer in omega arith)

abbrev sample_setup : Setup ℕ
sample_setup = record {
  server = sample_server;
  statements = none;
  portals = none;
  parameters = none;
}

abbrev keep : SessionHandler ℕ
keep ctx = ok ctx

abbrev refuse : SessionHandler ℕ
refuse ctx = err eof

abbrev cancel_world : World ℕ
cancel_world = world_on (conn_of (startup_message version_cancel letters ++ letters))

serve-cancel_example :
    let p = serve sample_server (λ s. s) (λ m. m) sample_context cancel_world in
    (p.0 ≡ ok tt)
    × (p.1.conn.writer.sink.closed ≡ true)
    × (p.1.conn.writer.sink.sent ≡ open_writer.sink.sent)
    × (p.1.parameters ≡ none)
    × (p.1.statements ≡ some no_statements)
    × (p.1.portals ≡ some no_portals)
serve-cancel_example =
    serve-cancel sample_server (λ s. s) (λ m. m) sample_context letters letters cancel_world
      fits_default (omega arith) refl still_open
