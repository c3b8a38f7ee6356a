-- ===== src/Mock/Served.antt =====
-- The client of the tests against the server.
use psql_wire.Base.{
  All, Bytes, List, [], ap, append-nil, arith, length, map, none, refl, some, sym, ℕ, ◌++◌, ◌+◌,
  ◌∙◌, ◌∷◌, ◌≡◌, ◌≤◌,
}
use psql_wire.Buffer.Reader.{Reader, buffer_size, default_buffer_size}
use psql_wire.Buffer.Stream.{Sink, Stream}
use psql_wire.Buffer.Words.{put_uint32}
use psql_wire.Buffer.Writer.{Writer}
use psql_wire.Buffer.Writer.Emits.{sends}
use psql_wire.Buffer.Writer.Framing.{server_message}
use psql_wire.Errors.{eof}
use psql_wire.Exec.{Result, after, ok}
use psql_wire.Messages.{server_auth, server_idle, version_30}
use psql_wire.Mock.{client_authenticate, client_handshake, client_ready_for_query}
use psql_wire.Mock.Reads.{
  IsShort, client_authenticate_lem, client_handshake-sends, client_ready_for_query_lem, joined,
  joined-append, mock_pairs, mock_pairs-ArePairs,
}
use psql_wire.Wire.Auth.{auth_ok}
use psql_wire.Wire.Context.{Context, Parameters}
use psql_wire.Wire.Handshake.Pairs.{encode_pairs, parameter_status}
use psql_wire.Wire.Handshake.Refused.{startup_message}
use psql_wire.Wire.Response.{ready_for_query}
use psql_wire.Wire.Response.Sent.{ready_for_query-Emits, ready_message}
use psql_wire.Wire.Serve.{serve, serve_open}
use psql_wire.Wire.Serve.Closed.{keeps_sent}
use psql_wire.Wire.Serve.Starts.{startup_messages, told_context, told_parameters}
use psql_wire.Wire.Server.{Conn, Server, SessionHandler, World}
use psql_wire.Wire.Session.{Session, hold_session, last_word, leaves, perform_all, settle}
use psql_wire.Wire.Session.Messages.{encode_commands, encode_ending}
use psql_wire.Wire.Session.Refinement.Connections.{serve_open-holds}
use psql_wire.Wire.Session.Simulation.{Matches}

module _ {V : Type 0} (srv : Server V) (tls : Stream → Stream) (order : Parameters → Parameters)
    (ctx : Context V) where
  abbrev pub sent_parameters : World V → Parameters
  sent_parameters w = order (told_parameters srv tls order ctx mock_pairs w.parameters)

  -- `serve`, up to its deferred close, of a client that sends its handshake and no command.
  serve_open-greets :
      (held : ℕ) (ready : Context V) (handler : SessionHandler V) (w : World V) (s : Session V)
      → Matches (ok tt, w) (ok tt, s)
      → w.conn.reader.buffer ≡ record {
        pending = startup_message version_30 (encode_pairs mock_pairs);
        ending = eof;
        held = held;
      }
      → length (encode_pairs mock_pairs) + 4 ≤ buffer_size srv.buffered_msg_size
      → srv.auth ≡ none
      → srv.session ≡ some handler
      → handler (told_context srv tls order ctx mock_pairs w.parameters) ≡ ok ready
      → length (startup_messages srv tls order ctx mock_pairs w.parameters) + 1
        ≤ w.conn.writer.sink.accepts
      → ((serve_open srv tls order ctx w).0 ≡ ok tt)
        × ((serve_open srv tls order ctx w).1.conn.writer.sink.sent
            ≡ (w.conn.writer.sink.sent
                ++ startup_messages srv tls order ctx mock_pairs w.parameters)
              ++ ready_message ∷ [])
  unfolding hold_session encode_commands encode_ending perform_all settle last_word
  serve_open-greets held ready handler w s h e fits no_auth given accepts_it room =
      let (client, sink, m) =
        serve_open-holds srv tls order ctx mock_pairs [] leaves eof held ready handler w s h
          (e
            ∙ ap (λ (b : Bytes). record { pending = b; ending = eof; held = held })
                (sym (append-nil _)))
          mock_pairs-ArePairs fits (unfold encode_pairs in omega arith) tt refl no_auth given
          accepts_it (omega (arith, room)) in
      let (f, t) = sends ready_for_query-Emits client (rw sink (omega (arith, room))) in
      let client' = (ready_for_query server_idle client).1 in
      let held_run : hold_session srv ready [] leaves (record s { client = client })
          ≡ (ok tt, record s { client = client' }) =
        ap
          (λ (r : Result (Unit {0})).
            after (r, record s { client = client' })
              (λ _ s'. settle (last_word leaves) (perform_all srv ready [] s')))
          f in
      (
        m.answer ∙ ap (λ (p : Result (Unit {0}) × Session V). p.0) held_run,
        ap (λ (c : Writer). c.sink.sent)
              (m.client ∙ ap (λ (p : Result (Unit {0}) × Session V). p.1.client) held_run)
            ∙ ap (λ (u : Sink). u.sent) t
            ∙ ap (λ (u : Sink). u.sent ++ ready_message ∷ []) sink,
      )

  -- The client of the tests, on a server with the default caches and no authentication strategy, whose
  -- session handler succeeds, where both connections are new and take what is sent, the server's buffer
  -- takes the startup message, and the client's buffer takes each parameter of the server: `Handshake`
  -- succeeds; `serve`, on what `Handshake` has sent and then the end of the input, succeeds; and on what
  -- `serve` has sent `Authenticate` and then `ReadyForQuery` succeed and leave nothing.
  pub client_ready_for_query-serve :
      (client : Conn) (held : ℕ) (ready : Context V) (handler : SessionHandler V) (w : World V)
      (s : Session V) (r : Reader)
      → Matches (ok tt, w) (ok tt, s)
      → client.writer.sink.sent ≡ []
      → 1 ≤ client.writer.sink.accepts
      → w.conn.reader.buffer ≡ record {
        pending = joined (client_handshake client).1.writer.sink.sent;
        ending = eof;
        held = held;
      }
      → length (encode_pairs mock_pairs) + 4 ≤ buffer_size srv.buffered_msg_size
      → srv.auth ≡ none
      → srv.session ≡ some handler
      → handler (told_context srv tls order ctx mock_pairs w.parameters) ≡ ok ready
      → length (startup_messages srv tls order ctx mock_pairs w.parameters) + 1
        ≤ w.conn.writer.sink.accepts
      → w.conn.writer.sink.sent ≡ []
      → r.max_message_size ≡ default_buffer_size
      → All (IsShort default_buffer_size) (sent_parameters w)
      → r.buffer.pending ≡ joined (serve srv tls order ctx w).1.conn.writer.sink.sent
      → ((client_handshake client).0 ≡ ok tt)
        × ((serve srv tls order ctx w).0 ≡ ok tt)
        × ((client_authenticate r).0 ≡ ok tt)
        × ((client_ready_for_query (client_authenticate r).1).0 ≡ ok tt)
        × ((client_ready_for_query (client_authenticate r).1).1.buffer.pending ≡ [])
  unfolding serve
  client_ready_for_query-serve client held ready handler w s r h fresh takes e fits no_auth given
        accepts_it room unsent size short arrives =
      let (introduced, hello) = client_handshake-sends client takes in
      let bytes : joined (client_handshake client).1.writer.sink.sent
          ≡ startup_message version_30 (encode_pairs mock_pairs) =
        ap joined (
          hello
          ∙ ap (λ (l : List Bytes). l ++ startup_message version_30 (encode_pairs mock_pairs) ∷ [])
              fresh)
        ∙ append-nil _ in
      let (success, sent) =
        serve_open-greets held ready handler w s h
          (e ∙ ap (λ (b : Bytes). record { pending = b; ending = eof; held = held }) bytes) fits
          no_auth given accepts_it room in
      let ps = sent_parameters w in
      let rest = joined (map parameter_status ps) ++ (ready_message ++ []) in
      let all_of_it : r.buffer.pending ≡ server_message server_auth (put_uint32 auth_ok) ++ rest =
        arrives
        ∙ ap joined (
            keeps_sent (serve_open srv tls order ctx w).1.conn
            ∙ sent
            ∙ ap
                (λ (l : List Bytes).
                  (l ++ startup_messages srv tls order ctx mock_pairs w.parameters)
                  ++ ready_message ∷ [])
                unsent)
        ∙ ap (◌++◌ (server_message server_auth (put_uint32 auth_ok)))
            (joined-append (map parameter_status ps) (ready_message ∷ [])) in
      rw
        (
          client_authenticate_lem rest r (rw size (omega arith)) all_of_it,
          client_ready_for_query_lem ps []
              (record r { buffer = record (r.buffer) { pending = rest }; msg = [] }) (rw size short)
              (rw size (omega arith)) (rw size (omega arith)) refl,
        )
        (introduced, success, refl, refl, refl)
