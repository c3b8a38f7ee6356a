-- ===== src/Wire/Command.antt =====
-- `handleCommand` and `consumeCommands` of command.go.
pub mod Handlers
pub mod Prepared
pub mod Dispatch
pub mod Ends
pub mod Bounded
pub mod Oversized
pub mod Rejected
pub mod Closed
use psql_wire.Base.{
  Bool, Option, false, if◌then◌else◌, length, none, some, suc, true, zero, ℕ, ℤ, ◌==◌, ◌||◌,
}
use psql_wire.Buffer.Failures.{unwrap_message_size_exceeded}
use psql_wire.Buffer.Reader.{read_typed_msg, slurp}
use psql_wire.Errors.{Error, eof, is_eof}
use psql_wire.Exec.{Exec, Result, after, check, err, ok, panic, pure, raise, stuck, ◌>>◌}
use psql_wire.Messages.{
  client_bind, client_close, client_copy_data, client_copy_done, client_copy_fail, client_describe,
  client_execute, client_flush, client_parse, client_simple_query, client_sync, client_terminate,
  server_idle,
}
use psql_wire.Wire.Context.{Context}
use psql_wire.Wire.Extended.{handle_bind, handle_execute, handle_parse}
use psql_wire.Wire.Query.{handle_simple_query, new_err_unimplemented_message_type}
use psql_wire.Wire.Response.{error_code, ready_for_query}
use psql_wire.Wire.Server.{
  CloseFn, Server, World, close_connection, from_client, on_conn, to_client,
}

abbrev pub is_copy : ℕ → Bool
is_copy t = t == client_copy_data || (t == client_copy_done || t == client_copy_fail)

abbrev pub is_eof_exactly : Error → Bool
is_eof_exactly eof = true
is_eof_exactly _ = false

module _ {V : Type 0} (srv : Server V) (ctx : Context V) where
  -- `handleConnClose` and `handleConnTerminate`
  abbrev pub call_close : Option (CloseFn V) → Exec (World V) (Unit {0})
  call_close none = pure tt
  call_close (some fn) = check (fn ctx)

  unfoldable pub handle_close : Exec (World V) (Unit {0})
  handle_close = do call_close srv.close_conn; on_conn close_connection

  unfoldable pub handle_terminate : Exec (World V) (Unit {0})
  handle_terminate = do call_close srv.terminate_conn; on_conn close_connection; raise eof

  -- `handleCommand`
  unfoldable pub handle_command : ℕ → Exec (World V) (Unit {0})
  unfolding handle_simple_query handle_execute handle_parse handle_bind handle_close
      handle_terminate
  handle_command t =
      if t == client_simple_query
      then handle_simple_query srv ctx
      else if t == client_execute
      then handle_execute ctx
      else if t == client_parse
      then handle_parse srv ctx
      else if t == client_describe
      then pure tt
      else if t == client_sync
      then to_client (ready_for_query server_idle)
      else if t == client_bind
      then handle_bind
      else if t == client_flush
      then to_client (ready_for_query server_idle)
      else if is_copy t
      then to_client (ready_for_query server_idle)
      else if t == client_close
      then handle_close
      else if t == client_terminate
      then handle_terminate
      else to_client (error_code (some (new_err_unimplemented_message_type t)))

  -- `handleMessageSizeExceeded` for an error that holds the size of a message
  unfoldable pub handle_message_size_exceeded : Error → ℤ → Exec (World V) (Unit {0})
  handle_message_size_exceeded exceeded size = do
    from_client (slurp size)
    to_client (error_code (some exceeded))

  -- One round of the loop of `consumeCommands`; `false` is `return nil`.
  unfoldable pub after_command : Result (Unit {0}) × World V → Result Bool × World V
  after_command (ok a, w) = (ok true, w)
  after_command (err e, w) = if is_eof e then (ok false, w) else (err e, w)
  after_command (panic, w) = (panic, w)
  after_command (stuck, w) = (stuck, w)

  unfoldable pub after_read : Result (ℕ × ℕ) × World V → Result Bool × World V
  unfolding after_command handle_message_size_exceeded
  after_read (ok (t, n), w) = after_command (handle_command t w)
  after_read (err e, w) =
      if is_eof_exactly e then (ok false, w) else elim (unwrap_message_size_exceeded e) [
        | none ↦ (err e, w)
        | some size ↦ after (handle_message_size_exceeded e size w) (λ _. pure true)
      ]
  after_read (panic, w) = (panic, w)
  after_read (stuck, w) = (stuck, w)

  unfoldable pub consume_one : Exec (World V) Bool
  unfolding after_read
  consume_one w = after_read (from_client read_typed_msg w)

  -- The loop, on fuel: a round that goes on has read the type byte of a message.
  unfoldable pub consume_loop : ℕ → Exec (World V) (Unit {0})
  consume_loop zero w = (stuck, w)
  consume_loop (suc fuel) w =
      after (consume_one w) (λ more. elim more [ true ↦ consume_loop fuel | false ↦ pure tt ])

  -- `consumeCommands`
  unfoldable pub consume_commands : Exec (World V) (Unit {0})
  unfolding consume_loop
  consume_commands w =
      after (to_client (ready_for_query server_idle) w)
        (λ _ w'. consume_loop (suc (length w'.conn.reader.buffer.pending)) w')
