-- ===== src/Wire/Serve/Closed.antt =====
-- How a connection that is served ends.
use psql_wire.Base.{Bytes, [], arith, false, length, refl, true, ◌++◌, ◌+◌, ◌<◌, ◌∙◌, ◌≡◌, ◌≤◌}
use psql_wire.Buffer.Reader.{Reader, buffer_size, new_reader}
use psql_wire.Buffer.Stream.{Stream, close_sink}
use psql_wire.Exec.{ok}
use psql_wire.Messages.{version_cancel}
use psql_wire.Wire.Context.{Context, Parameters}
use psql_wire.Wire.Handshake.{handshake}
use psql_wire.Wire.Handshake.Refused.{read_version_lem, startup_message}
use psql_wire.Wire.Serve.{serve, serve_open}
use psql_wire.Wire.Server.{Conn, Server, World, close_connection}

pub keeps_sent : (c : Conn) → (close_connection c).1.writer.sink.sent ≡ c.writer.sink.sent
unfolding close_connection close_sink
keeps_sent c = ground arith

module _ {V : Type 0} (srv : Server V) (tls : Stream → Stream) (order : Parameters → Parameters)
    (ctx : Context V) where
  closes : (c : Conn) → (close_connection c).1.writer.sink.closed ≡ true
  unfolding close_connection close_sink
  closes c = ground arith

  close_once : (c : Conn) → c.writer.sink.closed ≡ false → (close_connection c).0 ≡ ok tt
  unfolding close_connection
  close_once c h = ground (arith, h)

  -- `serve` on a cancel request that fits, over a connection that the server has not closed:
  -- the connection is closed with nothing sent, and no error is reported; the parameter map and
  -- both caches are left alone.
  pub serve-cancel :
      (body rest : Bytes) (w : World V)
      → length body + 4 ≤ buffer_size srv.buffered_msg_size
      → length body + 8 < 4294967296
      → w.conn.reader.buffer.pending ≡ startup_message version_cancel body ++ rest
      → w.conn.writer.sink.closed ≡ false
      → let p = serve srv tls order ctx w in
        (p.0 ≡ ok tt)
        × (p.1.conn.writer.sink.closed ≡ true)
        × (p.1.conn.writer.sink.sent ≡ w.conn.writer.sink.sent)
        × (p.1.parameters ≡ w.parameters)
        × (p.1.statements ≡ w.statements)
        × (p.1.portals ≡ w.portals)
  unfolding serve serve_open handshake new_reader
  serve-cancel body rest w fits small sent open_ =
      let asked : Reader = record {
        buffer = w.conn.reader.buffer;
        msg = [];
        max_message_size = buffer_size srv.buffered_msg_size;
      } in
      let read : Conn = record {
        reader = record asked {
          buffer = record (w.conn.reader.buffer) { pending = rest };
          msg = body;
        };
        writer = w.conn.writer;
      } in
      rw
        (
          read_version_lem version_cancel body rest asked (omega arith) fits small sent,
          close_once read open_,
        )
        (
          refl,
          closes (close_connection read).1,
          keeps_sent (close_connection read).1 ∙ keeps_sent read,
          refl,
          refl,
          refl,
        )
