-- ===== src/Wire/Command/Dispatch.antt =====
-- Every message type's handler comes back.
use psql_wire.Base.{Option, none, refl, some, ℕ, ℤ, ◌==◌}
use psql_wire.Buffer.Reader.Ends.{slurp-Tame}
use psql_wire.Errors.{Error, eof}
use psql_wire.Exec.Tame.{Tame-check, Tame-if, Tame-pure, Tame-raise, Tame-then}
use psql_wire.Messages.{
  client_bind, client_close, client_describe, client_execute, client_flush, client_parse,
  client_simple_query, client_sync, client_terminate, server_idle,
}
use psql_wire.Wire.Command.{
  call_close, handle_close, handle_command, handle_message_size_exceeded, handle_terminate, is_copy,
}
use psql_wire.Wire.Command.Handlers.{
  IsServer, TameWorld, close_connection-Tame, error_code-Returns, from_client-Tame,
  handle_simple_query-Tame, ready_for_query-Returns, to_client-Tame,
}
use psql_wire.Wire.Command.Prepared.{handle_bind-Tame, handle_execute-Tame, handle_parse-Tame}
use psql_wire.Wire.Context.{Context}
use psql_wire.Wire.DataWriter.Returning.{IsContext}
use psql_wire.Wire.Query.{new_err_unimplemented_message_type}
use psql_wire.Wire.Response.{ready_for_query}
use psql_wire.Wire.Server.{CloseFn, Server, to_client}

module _ {V : Type 0} (srv : Server V) (ctx : Context V) (server : IsServer srv)
    (total : IsContext ctx) where
  call_close-Tame : (fn : Option (CloseFn V)) → TameWorld (call_close srv ctx fn)
  call_close-Tame none = Tame-pure tt
  call_close-Tame (some fn) = Tame-check (fn ctx)

  handle_close-Tame : TameWorld (handle_close srv ctx)
  unfolding handle_close
  handle_close-Tame = Tame-then (call_close-Tame srv.close_conn) close_connection-Tame

  handle_terminate-Tame : TameWorld (handle_terminate srv ctx)
  unfolding handle_terminate
  handle_terminate-Tame =
      Tame-then (call_close-Tame srv.terminate_conn)
        (Tame-then close_connection-Tame (Tame-raise eof))

  pub ready-Tame : TameWorld (to_client {V = V} (ready_for_query server_idle))
  ready-Tame = to_client-Tame ready_for_query-Returns

  -- Every message type: its handler comes back and takes no byte but those of its message.
  pub handle_command-Tame : (t : ℕ) → TameWorld (handle_command srv ctx t)
  unfolding handle_command
  handle_command-Tame t =
      Tame-if (t == client_simple_query) (handle_simple_query-Tame srv ctx server total) (
        Tame-if (t == client_execute) (handle_execute-Tame ctx total) (
          Tame-if (t == client_parse)
            (handle_parse-Tame ctx total srv (λ p. server.parse p ctx) srv.parse refl)
            (Tame-if (t == client_describe) (Tame-pure tt) (
              Tame-if (t == client_sync) ready-Tame (
                Tame-if (t == client_bind) handle_bind-Tame (
                  Tame-if (t == client_flush) ready-Tame (
                    Tame-if (is_copy t) ready-Tame (
                      Tame-if (t == client_close) handle_close-Tame (
                        Tame-if (t == client_terminate) handle_terminate-Tame (
                          to_client-Tame (
                            error_code-Returns
                              (some (new_err_unimplemented_message_type t)))))))))))))

  pub handle_message_size_exceeded-Tame :
      (e : Error) (size : ℤ) → TameWorld (handle_message_size_exceeded srv ctx e size)
  unfolding handle_message_size_exceeded
  handle_message_size_exceeded-Tame e size =
      Tame-then (from_client-Tame (slurp-Tame size)) (to_client-Tame (error_code-Returns (some e)))
