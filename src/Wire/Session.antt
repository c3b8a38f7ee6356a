-- ===== src/Wire/Session.antt =====
-- What the commands of command.go promise, with no bytes, no reader and no maps: a session has two
-- functions from names, and a client that is written to.
pub mod Messages
pub mod Simulation
pub mod Handlers
pub mod Refinement
use psql_wire.Base.{Bytes, List, Option, [], equal, if◌then◌else◌, none, some, ℕ, ◌∷◌}
use psql_wire.Buffer.Stream.{close_sink}
use psql_wire.Buffer.Writer.{Writer, end, start}
use psql_wire.Errors.{is_eof, net_closed}
use psql_wire.Exec.{Exec, Result, err, lift, ok, panic, pure, stuck, ◌>>=◌, ◌>>◌}
use psql_wire.Messages.{
  client_parse, client_simple_query, server_bind_complete, server_idle, server_parse_complete,
}
use psql_wire.Wire.Cache.{Portal, StatementFn, call_statement}
use psql_wire.Wire.Context.{Context}
use psql_wire.Wire.Extended.{report}
use psql_wire.Wire.Extended.Parameters.{write_parameter_descriptions}
use psql_wire.Wire.Query.{
  is_blank, new_err_unimplemented_message_type, run_query, with_data_writer, write_empty_query,
}
use psql_wire.Wire.Response.{error_code, ready_for_query}
use psql_wire.Wire.Server.{Server}

pub record Session (V : Type 0) : Type 0 where
  pub statements : Bytes → Option (StatementFn V)
  pub portals : Bytes → Option (Portal V)
  pub client : Writer

-- A message of the client. The numbers are the oids of a Parse, the format codes of a Bind and the
-- row limit of an Execute.
pub data Command : Type 0 where
  queries : Bytes → Command
  parses : Bytes → Bytes → List ℕ → Command
  binds : Bytes → Bytes → ℕ → List Bytes → List ℕ → Command
  executes : Bytes → ℕ → Command
  describes : Bytes → Command
  syncs : Bytes → Command
  flushes : Bytes → Command

pub data Ending : Type 0 where
  leaves : Ending
  terminates : Ending

-- A name is given a new meaning.
abbrev pub update : {A : Type 0} → Bytes → A → (Bytes → A) → Bytes → A
update name a f n = if equal name n then a else f n

module _ {V : Type 0} where
  abbrev pub tell : {A : Type 0} → Exec Writer A → Exec (Session V) A
  tell m s = let (r, c) = m s.client in (r, record s { client = c })

  unfoldable pub remember : Bytes → Option (StatementFn V) → Exec (Session V) (Unit {0})
  remember name fn s = (ok tt, record s { statements = update name fn s.statements })

  -- The portal keeps what the statement's name means now.
  unfoldable pub open_portal : Bytes → Bytes → List Bytes → Exec (Session V) (Unit {0})
  open_portal name statement values s = (
    ok tt,
    record s {
      portals =
          update name (some (record { statement = s.statements statement; parameters = values }))
            s.portals;
    },
  )

  unfoldable pub prepare :
      Bytes → Result (Option (StatementFn V) × List ℕ) → Exec (Session V) (Unit {0})
  unfolding remember
  prepare name (ok (fn, descriptions)) = do
    tell (write_parameter_descriptions descriptions)
    remember name fn
    tell (start server_parse_complete)
    tell end
  prepare name (err e) = tell (error_code (some e))
  prepare name panic = lift panic
  prepare name stuck = lift stuck

  -- A portal that is not there runs nothing.
  unfoldable pub run_portal : Context V → Option (Portal V) → Exec (Session V) (Unit {0})
  run_portal ctx none = pure tt
  run_portal ctx (some p) =
      tell (λ c. report (with_data_writer (call_statement ctx p.statement p.parameters) c))

  unfoldable pub perform : Server V → Context V → Command → Exec (Session V) (Unit {0})
  unfolding prepare open_portal run_portal
  perform srv ctx (queries query) = elim srv.parse [
    | none ↦ tell (error_code (some (new_err_unimplemented_message_type client_simple_query)))
    | some parser ↦
        if is_blank query then tell write_empty_query else tell (run_query ctx parser query)
  ]
  perform srv ctx (parses name query oids) = elim srv.parse [
    | none ↦ tell (error_code (some (new_err_unimplemented_message_type client_parse)))
    | some parser ↦ prepare name (parser ctx query)
  ]
  perform srv ctx (binds portal statement formats values columns) = do
    open_portal portal statement values
    tell (start server_bind_complete)
    tell end
  perform srv ctx (executes portal limit) = λ s. run_portal ctx (s.portals portal) s
  perform srv ctx (describes body) = pure tt
  perform srv ctx (syncs body) = tell (ready_for_query server_idle)
  perform srv ctx (flushes body) = tell (ready_for_query server_idle)

  -- One after the other, up to the first that fails.
  unfoldable pub perform_all : Server V → Context V → List Command → Exec (Session V) (Unit {0})
  perform_all srv ctx [] = pure tt
  perform_all srv ctx (c ∷ cs) = perform srv ctx c >> perform_all srv ctx cs

  -- The end of the commands. An error that is an end of file ends a session as the end of its input
  -- does.
  unfoldable pub settle :
      Exec (Session V) (Unit {0}) → Result (Unit {0}) × Session V → Result (Unit {0}) × Session V
  settle last (ok a, s) = last s
  settle last (err e, s) = if is_eof e then (ok tt, s) else (err e, s)
  settle last (panic, s) = (panic, s)
  settle last (stuck, s) = (stuck, s)

  -- A client sends its commands and closes the connection, or sends Terminate behind them.
  unfoldable pub last_word : Ending → Exec (Session V) (Unit {0})
  last_word leaves s = (ok tt, s)
  last_word terminates s =
      if s.client.sink.closed
      then (err net_closed, s)
      else (ok tt, record s { client = record (s.client) { sink = close_sink s.client.sink } })

  unfoldable pub hold_session :
      Server V → Context V → List Command → Ending → Exec (Session V) (Unit {0})
  unfolding perform_all settle last_word
  hold_session srv ctx cs ending = do
    tell (ready_for_query server_idle)
    λ s. settle (last_word ending) (perform_all srv ctx cs s)
