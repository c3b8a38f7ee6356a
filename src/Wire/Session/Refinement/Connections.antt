-- ===== src/Wire/Session/Refinement/Connections.antt =====
-- A whole connection: the startup message, the commands and the end.
use psql_wire.Base.{
  All, Bytes, List, ap, length, none, refl, some, ℕ, ◌++◌, ◌+◌, ◌-◌, ◌<◌, ◌∙◌, ◌≡◌, ◌≤◌,
}
use psql_wire.Buffer.Reader.{buffer_size}
use psql_wire.Buffer.Stream.{Stream}
use psql_wire.Buffer.Writer.{Writer}
use psql_wire.Errors.{Error}
use psql_wire.Exec.{ok}
use psql_wire.Messages.{version_30}
use psql_wire.Wire.Context.{Context, Parameters}
use psql_wire.Wire.Handshake.Pairs.{ArePairs, encode_pairs}
use psql_wire.Wire.Handshake.Refused.{startup_message}
use psql_wire.Wire.Serve.{serve_open}
use psql_wire.Wire.Serve.Starts.{Started, serve_open-starts, startup_messages, told_context}
use psql_wire.Wire.Server.{Server, SessionHandler, World}
use psql_wire.Wire.Session.{Command, Ending, Session, hold_session}
use psql_wire.Wire.Session.Messages.{Fits, encode_commands, encode_ending}
use psql_wire.Wire.Session.Refinement.Served.{EndsAs, consume_commands-serves}
use psql_wire.Wire.Session.Simulation.{Matches}

module _ {V : Type 0} (srv : Server V) (tls : Stream → Stream) (order : Parameters → Parameters)
    (ctx : Context V) (ps : Parameters) where
  -- All that the client sends.
  abbrev pub whole_input : List Command → Ending → Bytes
  whole_input cs ending =
      startup_message version_30 (encode_pairs ps) ++ (encode_commands cs ++ encode_ending ending)

  Started-Matches :
      (rest : Bytes) (w w' : World V) (s : Session V)
      → Matches {A = Unit {0}} (ok tt, w) (ok tt, s)
      → Started srv tls order ctx ps rest w w'
      → Matches {A = Unit {0}} (ok tt, w') (ok tt, record s { client = w'.conn.writer })
  Started-Matches rest w w' s h st = record {
    answer = refl;
    known = h.known;
    bound = h.bound;
    known_is = st.statements ∙ h.known_is;
    bound_is = st.portals ∙ h.bound_is;
    statements = h.statements;
    portals = h.portals;
    client = refl;
  }

  -- A client that introduces itself with version 3.0, sends commands that fit and then closes the
  -- connection or sends Terminate, on a server with no authentication strategy whose session handler
  -- succeeds: it is sent AuthenticationOk, the parameters of the server, and then what the session
  -- sends for the commands; and the connection is answered and the caches are left as by the session.
  pub serve_open-holds :
      (cs : List Command) (ending : Ending) (broken : Error) (held : ℕ) (ready : Context V)
      (handler : SessionHandler V) (w : World V) (s : Session V)
      → Matches (ok tt, w) (ok tt, s)
      → w.conn.reader.buffer
        ≡ record { pending = whole_input cs ending; ending = broken; held = held }
      → ArePairs ps
      → length (encode_pairs ps) + 4 ≤ buffer_size srv.buffered_msg_size
      → length (encode_pairs ps) + 8 < 4294967296
      → All (Fits (buffer_size srv.buffered_msg_size)) cs
      → EndsAs srv broken ending
      → srv.auth ≡ none
      → srv.session ≡ some handler
      → handler (told_context srv tls order ctx ps w.parameters) ≡ ok ready
      → length (startup_messages srv tls order ctx ps w.parameters) ≤ w.conn.writer.sink.accepts
      → (client : Writer) × (client.sink ≡ record (w.conn.writer.sink) {
        sent = w.conn.writer.sink.sent ++ startup_messages srv tls order ctx ps w.parameters;
        accepts =
            w.conn.writer.sink.accepts
            - length (startup_messages srv tls order ctx ps w.parameters);
      })
        × Matches
            (serve_open srv tls order ctx w)
            (hold_session srv ready cs ending (record s { client = client }))
  serve_open-holds cs ending broken held ready handler w s h e legal fits small fit ends no_auth
        given accepts_it room =
      let rest = encode_commands cs ++ encode_ending ending in
      let (w', run, st) =
        serve_open-starts srv tls order ctx ps rest ready handler w
          (ap (λ (b : Stream). b.pending) e) legal fits small no_auth given accepts_it room in
      (
        w'.conn.writer,
        st.sink,
        rw run (
            consume_commands-serves srv ready cs ending broken held w'
              (record s { client = w'.conn.writer }) (Started-Matches rest w w' s h st)
              (rw st.max_size fit) ends
              (st.buffer ∙ ap (λ (b : Stream). record b { pending = rest }) e)),
      )
