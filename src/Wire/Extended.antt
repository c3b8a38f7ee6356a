-- ===== src/Wire/Extended.antt =====
-- `handleParse`, `handleBind` and `handleExecute` of command.go.
pub mod Parameters
pub mod Reported
pub mod Bound
pub mod Portals
pub mod Parsed
use psql_wire.Base.{Bool, Bytes, List, Option, false, if◌then◌else◌, none, some, true, ℕ}
use psql_wire.Buffer.Reader.{get_string, get_uint16, get_uint32}
use psql_wire.Buffer.Writer.{Writer, end, start}
use psql_wire.Exec.{Exec, Result, err, lift, ok, panic, stuck, ◌>>=◌, ◌>>◌}
use psql_wire.Messages.{client_execute, client_parse, server_bind_complete, server_parse_complete}
use psql_wire.Wire.Cache.{StatementFn, bind, execute, get, set}
use psql_wire.Wire.Context.{Context}
use psql_wire.Wire.Extended.Parameters.{read_parameters, write_parameter_descriptions}
use psql_wire.Wire.Options.{parse, portals, statements}
use psql_wire.Wire.Query.{new_err_unimplemented_message_type, with_data_writer}
use psql_wire.Wire.Response.{error_code}
use psql_wire.Wire.Server.{ParseFn, Server, World, from_client, to_client}

abbrev pub is_nil {ℓ} : {A : Type ℓ} → Option A → Bool
is_nil none = true
is_nil (some a) = false

-- `if err != nil { return ErrorCode(writer, err) }; return nil`
unfoldable pub report : Result (Unit {0}) × Writer → Result (Unit {0}) × Writer
report (ok a, w) = (ok tt, w)
report (err e, w) = error_code (some e) w
report (panic, w) = (panic, w)
report (stuck, w) = (stuck, w)

module _ {V : Type 0} where
  -- The default cache does not fail, so that `Set` only changes the cache.
  unfoldable pub set_statement : Bytes → Option (StatementFn V) → Exec (World V) (Unit {0})
  set_statement name fn w = elim w.statements [
    | none ↦ (panic, w)
    | some cache ↦
        (let (r, cache') = set name fn cache in (r, record w { statements = some cache' }))
  ]

  -- What follows `srv.Parse` in `handleParse`; an error of the parser goes to the client.
  unfoldable pub store_statement :
      Bytes → Result (Option (StatementFn V) × List ℕ) → Exec (World V) (Unit {0})
  unfolding set_statement
  store_statement name (ok (statement, descriptions)) = do
    to_client (write_parameter_descriptions descriptions)
    set_statement name statement
    to_client (start server_parse_complete)
    to_client end
  store_statement name (err e) = to_client (error_code (some e))
  store_statement name panic = lift panic
  store_statement name stuck = lift stuck

  -- `srv.Statements.Get`; a nil cache panics.
  unfoldable pub get_statement : Bytes → Exec (World V) (Option (StatementFn V))
  get_statement name w = elim w.statements [
    | none ↦ (panic, w)
    | some cache ↦ ((get name cache).0, w)
  ]

  -- `srv.Portals.Bind`
  unfoldable pub bind_portal :
      Bytes → Option (StatementFn V) → List Bytes → Exec (World V) (Unit {0})
  bind_portal name fn parameters w = elim w.portals [
    | none ↦ (panic, w)
    | some cache ↦
        (let (r, cache') = bind name fn parameters cache in (r, record w { portals = some cache' }))
  ]

  -- `handleBind`
  unfoldable pub handle_bind : Exec (World V) (Unit {0})
  unfolding get_statement bind_portal
  handle_bind = do
    name ← from_client get_string
    statement ← from_client get_string
    parameters ← from_client read_parameters
    fn ← get_statement statement
    bind_portal name fn parameters
    to_client (start server_bind_complete)
    to_client end

  -- The body of `handleParse` behind its guard. The loop over the parameter types is empty.
  unfoldable pub parse_message : Context V → ParseFn V → Exec (World V) (Unit {0})
  unfolding store_statement
  parse_message ctx parse = do
    name ← from_client get_string
    query ← from_client get_string
    parameters ← from_client get_uint16
    store_statement name (parse ctx query)

  -- `handleParse`
  unfoldable pub handle_parse : Server V → Context V → Exec (World V) (Unit {0})
  unfolding parse_message
  handle_parse srv ctx w = elim srv.parse [
    | none ↦ to_client (error_code (some (new_err_unimplemented_message_type client_parse))) w
    | some parse ↦
        if is_nil w.statements
        then to_client (error_code (some (new_err_unimplemented_message_type client_parse))) w
        else parse_message ctx parse w
  ]

  -- `srv.Portals.Execute` with a data writer of its own
  unfoldable pub execute_portal : Context V → Bytes → Exec (World V) (Unit {0})
  unfolding report with_data_writer
  execute_portal ctx name w = elim w.portals [
    | none ↦ (panic, w)
    | some cache ↦ to_client (λ c. report (with_data_writer (execute ctx cache name) c)) w
  ]

  -- `handleExecute`
  unfoldable pub handle_execute : Context V → Exec (World V) (Unit {0})
  unfolding execute_portal
  handle_execute ctx w =
      if is_nil w.statements
      then to_client (error_code (some (new_err_unimplemented_message_type client_execute))) w
      else (do
        name ← from_client get_string
        limit ← from_client get_uint32
        execute_portal ctx name)
          w
