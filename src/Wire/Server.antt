-- ===== src/Wire/Server.antt =====
-- wire.go and options.go: the server's configuration, and the state of a connection.
pub mod Returning
use psql_wire.Base.{Bytes, List, Option, if◌then◌else◌, ℕ, ℤ}
use psql_wire.Buffer.Reader.{Reader}
use psql_wire.Buffer.Stream.{close_sink, close_stream}
use psql_wire.Buffer.Writer.{Writer}
use psql_wire.Errors.{Error, net_closed}
use psql_wire.Exec.{Exec, Result, err, ok}
use psql_wire.Wire.Cache.{DefaultPortalCache, DefaultStatementCache, StatementFn}
use psql_wire.Wire.Context.{ConnInfo, Context, Parameters}

-- `net.Conn`, as its two buffers.
pub record Conn : Type 0 where
  pub reader : Reader
  pub writer : Writer

-- What a connection's goroutine works on: its own buffers, and the caches and the parameter map of
-- the server. A nil cache or map is `none`.
pub record World (V : Type 0) : Type 0 where
  pub conn : Conn
  pub statements : Option (DefaultStatementCache V)
  pub portals : Option (DefaultPortalCache V)
  pub parameters : Option Parameters

-- `ParseFn`; a description is an oid.
abbrev pub ParseFn : Type 0 → Type 0
ParseFn V = Context V → Bytes → Result (Option (StatementFn V) × List ℕ)

-- `AuthStrategy`
abbrev pub AuthStrategy : Type 0 → Type 0
AuthStrategy V = Context V → Exec Conn (Unit {0})

-- `SessionHandler`
abbrev pub SessionHandler : Type 0 → Type 0
SessionHandler V = Context V → Result (Context V)

-- `CloseFn`
abbrev pub CloseFn : Type 0 → Type 0
CloseFn V = Context V → Option Error

-- The fields of `Server` that a connection reads and does not change. `certificates` is their
-- number. Logging, and the types and fields that only the TLS library reads, are left out.
pub record Server (V : Type 0) : Type 0 where
  pub types : ConnInfo V
  pub auth : Option (AuthStrategy V)
  pub buffered_msg_size : ℤ
  pub certificates : ℕ
  pub parse : Option (ParseFn V)
  pub session : Option (SessionHandler V)
  pub close_conn : Option (CloseFn V)
  pub terminate_conn : Option (CloseFn V)
  pub version : Bytes

abbrev pub on_reader : {A : Type 0} → Exec Reader A → Exec Conn A
on_reader m c = let (x, r) = m c.reader in (x, record c { reader = r })

abbrev pub on_writer : {A : Type 0} → Exec Writer A → Exec Conn A
on_writer m c = let (x, w) = m c.writer in (x, record c { writer = w })

abbrev pub on_conn : {V : Type 0} {A : Type 0} → Exec Conn A → Exec (World V) A
on_conn m w = let (x, c) = m w.conn in (x, record w { conn = c })

abbrev pub from_client : {V : Type 0} {A : Type 0} → Exec Reader A → Exec (World V) A
from_client m = on_conn (on_reader m)

abbrev pub to_client : {V : Type 0} {A : Type 0} → Exec Writer A → Exec (World V) A
to_client m = on_conn (on_writer m)

-- `conn.Close()`; a second close fails.
unfoldable pub close_connection : Exec Conn (Unit {0})
unfolding close_stream close_sink
close_connection c = if c.writer.sink.closed then (err net_closed, c) else (
  ok tt,
  record c {
    reader = record (c.reader) { buffer = close_stream c.reader.buffer };
    writer = record (c.writer) { sink = close_sink c.writer.sink };
  },
)
