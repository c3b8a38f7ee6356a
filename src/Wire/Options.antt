-- ===== src/Wire/Options.antt =====
-- options.go, and `NewServer` of wire.go.
pub mod Parser
pub mod Counting
pub mod Sessions
use psql_wire.Base.{Bytes, List, Option, [], codes, none, pos, some, ℕ, ℤ, ◌++◌, ◌∷◌}
use psql_wire.Errors.{message, text, wrapped}
use psql_wire.Exec.{Result, err, ok, panic, stuck}
use psql_wire.Wire.Cache.{DefaultPortalCache, DefaultStatementCache}
use psql_wire.Wire.Context.{ConnInfo, Context, Parameters}
use psql_wire.Wire.DataWriter.{Script}
use psql_wire.Wire.Options.Parser.{simple_parse}
use psql_wire.Wire.Server.{AuthStrategy, CloseFn, ParseFn, Server, SessionHandler}

-- A server and the caches and parameters that its connections share.
pub record Setup (V : Type 0) : Type 0 where
  pub server : Server V
  pub statements : Option (DefaultStatementCache V)
  pub portals : Option (DefaultPortalCache V)
  pub parameters : Option Parameters

-- `OptionFn`
abbrev pub OptionFn : Type 0 → Type 0
OptionFn V = Setup V → Result (Setup V)

module _ {V : Type 0} where
  abbrev with_server : Setup V → Server V → Setup V
  with_server s srv = record s { server = srv }

  -- `SimpleQuery`
  unfoldable pub simple_query :
      (ℕ → ℕ) → Option (Context V → Bytes → List Bytes → Script V) → OptionFn V
  simple_query grow fn s = elim s.server.parse [
    | some parse ↦ err (text (codes "simple query handler could not set if a query parser is set"))
    | none ↦ ok (with_server s (record (s.server) { parse = some (simple_parse grow fn) }))
  ]

  -- `Parse`
  unfoldable pub parse : Option (ParseFn V) → OptionFn V
  parse fn s = elim s.server.parse [
    | some parse' ↦ err (text (codes "parser could not set if a simple query handler is set"))
    | none ↦ ok (with_server s (record (s.server) { parse = fn }))
  ]

  -- `Session`: a new handler runs behind the ones that are set.
  unfoldable pub then_session : SessionHandler V → SessionHandler V → SessionHandler V
  then_session parent fn ctx = elim (parent ctx) [
    | ok ctx' ↦ fn ctx'
    | err e ↦ err e
    | panic ↦ panic
    | stuck ↦ stuck
  ]

  unfoldable pub session : SessionHandler V → OptionFn V
  unfolding then_session
  session fn s = elim s.server.session [
    | none ↦ ok (with_server s (record (s.server) { session = some fn }))
    | some parent ↦
        ok (with_server s (record (s.server) { session = some (then_session parent fn) }))
  ]

  -- `Statements`, `Portals`, `GlobalParameters`
  unfoldable pub statements : Option (DefaultStatementCache V) → OptionFn V
  statements cache s = ok (record s { statements = cache })

  unfoldable pub portals : Option (DefaultPortalCache V) → OptionFn V
  portals cache s = ok (record s { portals = cache })

  unfoldable pub global_parameters : Option Parameters → OptionFn V
  global_parameters params s = ok (record s { parameters = params })

  -- `CloseConn`, `TerminateConn`
  unfoldable pub close_conn : Option (CloseFn V) → OptionFn V
  close_conn fn s = ok (with_server s (record (s.server) { close_conn = fn }))

  unfoldable pub terminate_conn : Option (CloseFn V) → OptionFn V
  terminate_conn fn s = ok (with_server s (record (s.server) { terminate_conn = fn }))

  -- `MessageBufferSize`
  unfoldable pub message_buffer_size : ℤ → OptionFn V
  message_buffer_size size s = ok (with_server s (record (s.server) { buffered_msg_size = size }))

  -- `Certificates`
  unfoldable pub certificates : ℕ → OptionFn V
  certificates count s = ok (with_server s (record (s.server) { certificates = count }))

  -- `SessionAuthStrategy`
  unfoldable pub session_auth_strategy : Option (AuthStrategy V) → OptionFn V
  session_auth_strategy fn s = ok (with_server s (record (s.server) { auth = fn }))

  -- `Version`
  unfoldable pub version : Bytes → OptionFn V
  version v s = ok (with_server s (record (s.server) { version = v }))

  -- `ExtendTypes`
  unfoldable pub extend_types : (ConnInfo V → ConnInfo V) → OptionFn V
  extend_types fn s = ok (with_server s (record (s.server) { types = fn s.server.types }))

  -- The server that `NewServer` starts from.
  unfoldable pub default_setup : ConnInfo V → Setup V
  default_setup types = record {
    server = record {
      types = types;
      auth = none;
      buffered_msg_size = pos 0;
      certificates = 0;
      parse = none;
      session = some (λ ctx. ok ctx);
      close_conn = none;
      terminate_conn = none;
      version = [];
    };
    statements = some (record { statements = none });
    portals = some (record { portals = none });
    parameters = none;
  }

  unfoldable pub apply_options : List (OptionFn V) → Setup V → Result (Setup V)
  apply_options [] s = ok s
  apply_options (option ∷ options) s = elim (option s) [
    | ok s' ↦ apply_options options s'
    | err e ↦ err (
        wrapped (codes "unexpected error while attempting to configure a new server: " ++ message e)
          e)
    | panic ↦ panic
    | stuck ↦ stuck
  ]

  -- `NewServer`
  unfoldable pub new_server : ConnInfo V → List (OptionFn V) → Result (Setup V)
  unfolding apply_options default_setup message
  new_server types options = apply_options options (default_setup types)
