-- ===== src/Wire/Command/Closed.antt =====
-- The end of a connection that the client asks for.
use psql_wire.Base.{Bytes, [], arith, false, length, none, refl, true, ◌++◌, ◌+◌, ◌<◌, ◌≡◌, ◌≤◌}
use psql_wire.Buffer.Reader.Typed.{read_typed_msg-server_message}
use psql_wire.Buffer.Stream.{close_sink, close_stream}
use psql_wire.Buffer.Writer.Framing.{server_message}
use psql_wire.Errors.{is_eof}
use psql_wire.Exec.{ok}
use psql_wire.Messages.{client_close, client_terminate}
use psql_wire.Wire.Command.{
  after_command, after_read, consume_one, handle_close, handle_command, handle_terminate,
}
use psql_wire.Wire.Context.{Context}
use psql_wire.Wire.Server.{Server, World, close_connection}

-- The world behind `conn.Close()`, with the message read.
abbrev pub closed_behind : {V : Type 0} → Bytes → Bytes → World V → World V
closed_behind msg rest w = record w {
  conn = record {
    reader = record (w.conn.reader) {
      buffer = close_stream (record (w.conn.reader.buffer) { pending = rest });
      msg = msg;
    };
    writer = record (w.conn.writer) { sink = close_sink w.conn.writer.sink };
  };
}

module _ {V : Type 0} (srv : Server V) (ctx : Context V) where
  -- A Close message with any body that fits, where the server has no handler for it and has not closed
  -- the connection: whatever the message names, the connection is closed, nothing is sent, and the loop
  -- goes on to read from the closed connection.
  pub consume_one-close :
      (body rest : Bytes) (w : World V)
      → length body ≤ w.conn.reader.max_message_size
      → length body + 4 < 4294967296
      → w.conn.reader.buffer.pending ≡ server_message client_close body ++ rest
      → srv.close_conn ≡ none
      → w.conn.writer.sink.closed ≡ false
      → consume_one srv ctx w ≡ (ok true, closed_behind body rest w)
  unfolding consume_one after_read after_command handle_command handle_close close_connection
  consume_one-close body rest w fits small sent unset open_ =
      rw
        (
          read_typed_msg-server_message client_close body rest w.conn.reader fits small sent,
          unset,
          open_,
        )
        refl

  -- A Terminate message, where the server has no handler for it and has not closed the connection:
  -- the connection is closed, and the loop ends with no error.
  pub consume_one-terminate :
      (rest : Bytes) (w : World V)
      → w.conn.reader.buffer.pending ≡ server_message client_terminate [] ++ rest
      → srv.terminate_conn ≡ none
      → w.conn.writer.sink.closed ≡ false
      → consume_one srv ctx w ≡ (ok false, closed_behind [] rest w)
  unfolding consume_one after_read after_command handle_command handle_terminate close_connection
      is_eof
  consume_one-terminate rest w sent unset open_ =
      rw
        (
          read_typed_msg-server_message client_terminate [] rest w.conn.reader (omega arith)
              (omega arith) sent,
          unset,
          open_,
        )
        refl
