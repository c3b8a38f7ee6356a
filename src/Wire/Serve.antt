-- ===== src/Wire/Serve.antt =====
-- `serve` of wire.go: one connection, from its handshake to its end.
pub mod Closed
pub mod Starts
pub mod Leads
pub mod Ends
use psql_wire.Base.{if◌then◌else◌, none, some, ◌==◌}
use psql_wire.Buffer.Stream.{Stream}
use psql_wire.Buffer.Writer.{new_writer}
use psql_wire.Exec.{Exec, lift, ok, panic, ◌>>=◌, ◌>>◌}
use psql_wire.Messages.{version_cancel}
use psql_wire.Wire.Auth.{handle_auth}
use psql_wire.Wire.Command.{consume_commands}
use psql_wire.Wire.Context.{Context, Parameters, set_type_info}
use psql_wire.Wire.Handshake.{handshake, read_client_parameters, write_parameters}
use psql_wire.Wire.Options.{session, version}
use psql_wire.Wire.Server.{Server, World, close_connection, from_client, on_conn}

module _ {V : Type 0} (srv : Server V) (tls : Stream → Stream)
    (order : Parameters → Parameters) where
  -- `srv.Session(ctx)`; a nil function panics.
  unfoldable pub open_session : Context V → Exec (World V) (Context V)
  open_session ctx = elim srv.session [ none ↦ lift panic | some session ↦ lift (session ctx) ]

  -- What follows the handshake.
  unfoldable pub serve_session : Context V → Exec (World V) (Unit {0})
  unfolding open_session
  serve_session ctx = do
    λ w. (ok tt, record w { conn = record (w.conn) { writer = new_writer w.conn.writer.sink } })
    ctx₁ ← from_client (read_client_parameters ctx)
    on_conn (handle_auth srv ctx₁)
    ctx₂ ← write_parameters order srv ctx₁
    ctx₃ ← open_session ctx₂
    consume_commands srv ctx₃

  -- `serve`, up to the deferred `conn.Close()`
  unfoldable pub serve_open : Context V → Exec (World V) (Unit {0})
  unfolding serve_session
  serve_open ctx = do
    version ← on_conn (handshake srv tls)
    (if version == version_cancel
        then on_conn close_connection
        else serve_session (set_type_info srv.types ctx))

  -- `serve` on a new connection; the deferred close runs on every path, and its error is dropped.
  unfoldable pub serve : Context V → Exec (World V) (Unit {0})
  unfolding serve_open
  serve ctx w =
      let (r, w') = serve_open ctx w in (r, record w' { conn = (close_connection w'.conn).1 })
