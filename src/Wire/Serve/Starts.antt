-- ===== src/Wire/Serve/Starts.antt =====
-- From the startup message to the first command.
use psql_wire.Base.{
  Bytes, List, Option, [], ap, append-nil, arith, length, map, none, refl, some, sym, ◌++◌, ◌+◌,
  ◌-◌, ◌<◌, ◌∙◌, ◌∷◌, ◌≡◌, ◌≤◌,
}
use psql_wire.Buffer.Reader.{Reader, buffer_size, new_reader}
use psql_wire.Buffer.Stream.{Sink, Stream}
use psql_wire.Buffer.Words.{put_uint32}
use psql_wire.Buffer.Writer.{new_writer}
use psql_wire.Buffer.Writer.Emits.{sends, sent_both}
use psql_wire.Buffer.Writer.Framing.{server_message}
use psql_wire.Exec.{ok}
use psql_wire.Messages.{server_auth, version_30}
use psql_wire.Wire.Auth.{auth_ok, handle_auth, write_auth_type}
use psql_wire.Wire.Auth.Decision.{write_auth_type-Emits}
use psql_wire.Wire.Cache.{made}
use psql_wire.Wire.Command.{consume_commands}
use psql_wire.Wire.Context.{Context, Parameters, set_server_parameters, set_type_info}
use psql_wire.Wire.Handshake.{
  handshake, potential_conn_upgrade, server_parameters, write_each_parameter, write_parameters,
}
use psql_wire.Wire.Handshake.Pairs.{
  ArePairs, encode_pairs, parameter_status, read_client_parameters-encode_pairs, set_pairs,
  write_each_parameter-Emits,
}
use psql_wire.Wire.Handshake.Refused.{read_version_lem, startup_message}
use psql_wire.Wire.Serve.{open_session, serve_open, serve_session}
use psql_wire.Wire.Server.{Server, SessionHandler, World}

module _ {V : Type 0} (srv : Server V) (tls : Stream → Stream) (order : Parameters → Parameters)
    (ctx : Context V) (ps : Parameters) where
  -- The contexts behind `readClientParameters` and `writeParameters`.
  abbrev pub greeted_context : Context V
  greeted_context = record ctx {
    type_info = some srv.types;
    client_metadata = some (set_pairs ps []);
  }

  abbrev pub told_parameters : Option Parameters → Parameters
  told_parameters params = server_parameters srv greeted_context (made params)

  abbrev pub told_context : Option Parameters → Context V
  told_context params = record greeted_context { server_metadata = some (told_parameters params) }

  abbrev pub auth_ok_message : Bytes
  auth_ok_message = server_message server_auth (put_uint32 auth_ok)

  -- What a client is sent before the first ReadyForQuery.
  abbrev pub startup_messages : Option Parameters → List Bytes
  startup_messages params = auth_ok_message ∷ map parameter_status (order (told_parameters params))

  -- The connection when the commands begin.
  pub record Started (rest : Bytes) (w w' : World V) : Type 0 where
    pub statements : w'.statements ≡ w.statements
    pub portals : w'.portals ≡ w.portals
    pub buffer : w'.conn.reader.buffer ≡ record (w.conn.reader.buffer) { pending = rest }
    pub max_size : w'.conn.reader.max_message_size ≡ buffer_size srv.buffered_msg_size
    pub sink : w'.conn.writer.sink ≡ record (w.conn.writer.sink) {
      sent = w.conn.writer.sink.sent ++ startup_messages w.parameters;
      accepts = w.conn.writer.sink.accepts - length (startup_messages w.parameters);
    }

  -- `serve` of a client that introduces itself with version 3.0 and parameters that fit, on a server with
  -- no authentication strategy whose session handler succeeds, over a connection that takes what is
  -- sent: behind AuthenticationOk and one ParameterStatus for each parameter of the server, it goes on
  -- as the command loop on the rest of the input, with the caches as they were and the context that the
  -- session handler gives.
  pub serve_open-starts :
      (rest : Bytes) (ready : Context V) (handler : SessionHandler V) (w : World V)
      → w.conn.reader.buffer.pending ≡ startup_message version_30 (encode_pairs ps) ++ rest
      → ArePairs ps
      → length (encode_pairs ps) + 4 ≤ buffer_size srv.buffered_msg_size
      → length (encode_pairs ps) + 8 < 4294967296
      → srv.auth ≡ none
      → srv.session ≡ some handler
      → handler (told_context w.parameters) ≡ ok ready
      → length (startup_messages w.parameters) ≤ w.conn.writer.sink.accepts
      → (w' : World V) × (serve_open srv tls order ctx w ≡ consume_commands srv ready w')
        × Started rest w w'
  unfolding serve_open handshake new_reader potential_conn_upgrade serve_session open_session
      handle_auth write_parameters set_type_info set_server_parameters new_writer
  serve_open-starts rest ready handler w sent legal fits small no_auth given accepts_it room =
      let asked : Reader = record {
        buffer = w.conn.reader.buffer;
        msg = [];
        max_message_size = buffer_size srv.buffered_msg_size;
      } in
      let read : Reader = record asked {
        buffer = record (w.conn.reader.buffer) { pending = rest };
        msg = encode_pairs ps;
      } in
      let (e, s) =
        sends (write_auth_type-Emits auth_ok) (new_writer w.conn.writer.sink)
          (omega (arith, room)) in
      let client = (write_auth_type auth_ok (new_writer w.conn.writer.sink)).1 in
      let params = told_parameters w.parameters in
      let (f, t) =
        sends (write_each_parameter-Emits (order params)) client (rw s (omega (arith, room))) in
      let kept : Option Parameters = elim w.parameters [ none ↦ none | some _ ↦ some params ] in
      (
        record {
          conn = record {
            reader = record read { msg = [] };
            writer = (write_each_parameter (order params) client).1;
          };
          statements = w.statements;
          portals = w.portals;
          parameters = kept;
        },
        rw
            (
              read_version_lem version_30 (encode_pairs ps) rest asked (omega arith) fits small
                  sent,
              read_client_parameters-encode_pairs ps [] (set_type_info srv.types ctx) read legal
                  (sym (append-nil (encode_pairs ps))),
              no_auth,
              e,
              f,
              given,
              accepts_it,
            )
            refl,
        record {
          statements = refl;
          portals = refl;
          buffer = refl;
          max_size = refl;
          sink =
              t
              ∙ ap
                  (λ (u : Sink). record u {
                    sent = u.sent ++ map parameter_status (order params);
                    accepts = u.accepts - length (map parameter_status (order params));
                  })
                  s
              ∙ sent_both w.conn.writer.sink auth_ok_message (map parameter_status (order params))
                  (length (map parameter_status (order params)));
        },
      )
