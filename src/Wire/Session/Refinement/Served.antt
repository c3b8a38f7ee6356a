-- ===== src/Wire/Session/Refinement/Served.antt =====
-- `consumeCommands`, from a client's first command to the end of the connection.
-- A second close of a connection.
use psql_wire.Base.{
  All, Bool, List, [], ap, append-nil, arith, false, if◌then◌else◌, length, length-append, none,
  refl, subst, suc, sym, true, ℕ, ◌++◌, ◌+◌, ◌∙◌, ◌∷◌, ◌≡◌, ◌≤◌,
}
use psql_wire.Buffer.Reader.{Reader, read_typed_msg}
use psql_wire.Buffer.Reader.Typed.{read_typed_msg-server_message}
use psql_wire.Buffer.Stream.{Stream, close_sink, close_stream, read_byte}
use psql_wire.Buffer.Words.{length-put_uint32, put_uint32}
use psql_wire.Buffer.Writer.{Writer}
use psql_wire.Buffer.Writer.Framing.{server_message}
use psql_wire.Errors.{Error, eof, is_eof, net_closed}
use psql_wire.Exec.{Result, after, err, ok, panic, stuck, ◌>>◌}
use psql_wire.Messages.{client_terminate, server_idle}
use psql_wire.Wire.Command.{
  after_command, after_read, consume_commands, consume_loop, consume_one, handle_command,
  handle_terminate,
}
use psql_wire.Wire.Command.Closed.{consume_one-terminate}
use psql_wire.Wire.Context.{Context}
use psql_wire.Wire.Response.{ready_for_query}
use psql_wire.Wire.Server.{Conn, Server, World, close_connection}
use psql_wire.Wire.Session.{
  Command, Ending, Session, hold_session, last_word, leaves, perform_all, settle, tell, terminates,
}
use psql_wire.Wire.Session.Messages.{
  Fits, command_body, command_type, encode_commands, encode_ending,
}
use psql_wire.Wire.Session.Refinement.{loop-Matches}
use psql_wire.Wire.Session.Simulation.{Matches, answering, reading}

close_again : (c : Conn) → c.writer.sink.closed ≡ true → close_connection c ≡ (err net_closed, c)
unfolding close_connection
close_again c h =
    ap
      (λ (b : Bool). if b then (err net_closed, c) else (
        ok tt,
        record c {
          reader = record (c.reader) { buffer = close_stream c.reader.buffer };
          writer = record (c.writer) { sink = close_sink c.writer.sink };
        },
      ))
      h

module _ {V : Type 0} (srv : Server V) (ctx : Context V) where
  ends_at_eof :
      (held fuel : ℕ) (w : World V) (s : Session V)
      → Matches {A = Unit {0}} (ok tt, w) (ok tt, s)
      → w.conn.reader.buffer ≡ record { pending = []; ending = eof; held = held }
      → Matches (consume_loop srv ctx (suc fuel) w) (last_word leaves s)
  unfolding consume_loop consume_one after_read last_word read_typed_msg read_byte
  ends_at_eof held fuel w s h e =
      subst
        (λ (b : Stream).
          Matches
            (consume_loop srv ctx (suc fuel) (record w {
              conn = record (w.conn) { reader = record (w.conn.reader) { buffer = b } };
            }))
            (ok tt, s))
        (sym e)
        (reading
          (record (w.conn.reader) { buffer = record { pending = []; ending = eof; held = held } })
          (ok tt, w) (ok tt, s) h)

  last_word-closed :
      (s : Session V) → s.client.sink.closed ≡ true → last_word terminates s ≡ (err net_closed, s)
  unfolding last_word
  last_word-closed s h =
      ap
        (λ (b : Bool).
          if b
          then (err net_closed, s)
          else (ok tt, record s { client = record (s.client) { sink = close_sink s.client.sink } }))
        h

  last_word-open :
      (s : Session V)
      → s.client.sink.closed ≡ false
      → last_word terminates s
        ≡ (ok tt, record s { client = record (s.client) { sink = close_sink s.client.sink } })
  unfolding last_word
  last_word-open s h =
      ap
        (λ (b : Bool).
          if b
          then (err net_closed, s)
          else (ok tt, record s { client = record (s.client) { sink = close_sink s.client.sink } }))
        h

  ends_at_terminate :
      (held fuel : ℕ) (ending : Error) (w : World V) (s : Session V)
      → srv.terminate_conn ≡ none
      → Matches {A = Unit {0}} (ok tt, w) (ok tt, s)
      → w.conn.reader.buffer
        ≡ record { pending = encode_ending terminates; ending = ending; held = held }
      → Matches (consume_loop srv ctx (suc fuel) w) (last_word terminates s)
  unfolding consume_loop consume_one after_read after_command handle_command handle_terminate
      encode_ending is_eof
  ends_at_terminate held fuel ending w s unset h e =
      subst
        (λ (client : Writer).
          Matches (consume_loop srv ctx (suc fuel) w)
            (last_word terminates (record s { client = client })))
        h.client (by_flag w.conn.writer.sink.closed refl)
    where
      left_alone :
          (r : Reader)
          → Matches {A = Unit {0}}
              (ok tt, record w { conn = record (w.conn) { reader = r } })
              (ok tt, record s { client = w.conn.writer })
      left_alone r = record {
        answer = refl;
        known = h.known;
        bound = h.bound;
        known_is = h.known_is;
        bound_is = h.bound_is;
        statements = h.statements;
        portals = h.portals;
        client = refl;
      }

      by_flag :
          (b : Bool)
          → w.conn.writer.sink.closed ≡ b
          → Matches
              (consume_loop srv ctx (suc fuel) w)
              (last_word terminates (record s { client = w.conn.writer }))
      by_flag true c =
          let r : Reader = record (w.conn.reader) {
            buffer = record (w.conn.reader.buffer) { pending = [] };
            msg = [];
          } in
          rw
            (
              read_typed_msg-server_message client_terminate [] [] w.conn.reader (omega arith)
                  (omega arith)
                  (ap (λ (b : Stream). b.pending) e ∙ sym (append-nil (encode_ending terminates))),
              unset,
              close_again (record (w.conn) { reader = r }) c,
              last_word-closed (record s { client = w.conn.writer }) c,
            )
            (answering (err net_closed) (ok tt, record w { conn = record (w.conn) { reader = r } })
              (ok tt, record s { client = w.conn.writer }) (left_alone r))
      by_flag false c =
          rw
            (
              consume_one-terminate srv ctx [] w
                  (ap (λ (b : Stream). b.pending) e ∙ sym (append-nil (encode_ending terminates)))
                  unset c,
              last_word-open (record s { client = w.conn.writer }) c,
            )
            (record {
              answer = refl;
              known = h.known;
              bound = h.bound;
              known_is = h.known_is;
              bound_is = h.bound_is;
              statements = h.statements;
              portals = h.portals;
              client = refl;
            })

-- How the connection ends: the input ends, or Terminate is sent to a server that has no handler for it.
abbrev pub EndsAs : {V : Type 0} → Server V → Error → Ending → Type 0
EndsAs srv broken leaves = broken ≡ eof
EndsAs srv broken terminates = srv.terminate_conn ≡ none

encode_commands-length : (cs : List Command) → length cs ≤ length (encode_commands cs)
unfolding encode_commands
encode_commands-length [] = omega arith
encode_commands-length (c ∷ cs) =
    let more = encode_commands-length cs in
    let m = server_message (command_type c) (command_body c) in
    omega (
      arith,
      length-append m (encode_commands cs),
      length-append (put_uint32 (length (command_body c) + 4)) (command_body c),
      length-put_uint32 (length (command_body c) + 4),
    )

module _ {V : Type 0} (srv : Server V) (ctx : Context V) where
  ends_as :
      (ending : Ending) (broken : Error) (held fuel : ℕ) (w : World V) (s : Session V)
      → EndsAs srv broken ending
      → Matches {A = Unit {0}} (ok tt, w) (ok tt, s)
      → w.conn.reader.buffer
        ≡ record { pending = encode_ending ending; ending = broken; held = held }
      → Matches (consume_loop srv ctx (suc fuel) w) (last_word ending s)
  unfolding encode_ending
  ends_as leaves broken held fuel w s h m e = ends_at_eof srv ctx held fuel w s m (e ∙ rw h)
  ends_as terminates broken held fuel w s h m e =
      ends_at_terminate srv ctx held fuel broken w s h m e

  -- On a client that sends commands that fit the server's messages and then closes the connection, or
  -- sends Terminate to a server with no handler for it, `consumeCommands` answers what the session
  -- answers, sends the client what the session sends, and leaves the caches with the meanings that the
  -- session gave the names; so an error of a command ends both at the same command.
  pub consume_commands-serves :
      (cs : List Command) (ending : Ending) (broken : Error) (held : ℕ) (w : World V)
      (s : Session V)
      → Matches (ok tt, w) (ok tt, s)
      → All (Fits w.conn.reader.max_message_size) cs
      → EndsAs srv broken ending
      → w.conn.reader.buffer ≡ record {
        pending = encode_commands cs ++ encode_ending ending;
        ending = broken;
        held = held;
      }
      → Matches (consume_commands srv ctx w) (hold_session srv ctx cs ending s)
  unfolding consume_commands hold_session
  consume_commands-serves cs ending broken held w s h fit ends e =
      subst
        (λ (client : Writer).
          Matches (consume_commands srv ctx w)
            (hold_session srv ctx cs ending (record s { client = client })))
        h.client (greeted (ready_for_query server_idle w.conn.writer))
    where
      matched :
          (c : Writer)
          → Matches {A = Unit {0}}
              (ok tt, record w { conn = record (w.conn) { writer = c } })
              (ok tt, record s { client = c })
      matched c = record {
        answer = refl;
        known = h.known;
        bound = h.bound;
        known_is = h.known_is;
        bound_is = h.bound_is;
        statements = h.statements;
        portals = h.portals;
        client = refl;
      }

      greeted :
          (p : Result (Unit {0}) × Writer)
          → Matches
              (after
                (p.0, record w { conn = record (w.conn) { writer = p.1 } })
                (λ _ w'. consume_loop srv ctx (suc (length w'.conn.reader.buffer.pending)) w'))
              (after
                (p.0, record s { client = p.1 })
                (λ _ s'. settle (last_word ending) (perform_all srv ctx cs s')))
      greeted (ok a, c) =
          loop-Matches srv ctx w.conn.reader.max_message_size held broken (encode_ending ending)
            (last_word ending) (λ fuel w' s' m. ends_as ending broken held fuel w' s' ends m) cs
            (suc (length w.conn.reader.buffer.pending))
            (record w { conn = record (w.conn) { writer = c } }) (record s { client = c }) fit
            (rw e (
              let n = encode_commands-length cs in
              omega (arith, length-append (encode_commands cs) (encode_ending ending))))
            (record { matches = matched c; buffer = e; max_size = refl })
      greeted (err x, c) = answering (err x) _ _ (matched c)
      greeted (panic, c) = answering panic _ _ (matched c)
      greeted (stuck, c) = answering stuck _ _ (matched c)

  -- Where a session performs every command on a connection that it leaves open, the client that sends
  -- Terminate behind these commands, to a server with no handler for it, gets its connection closed:
  -- `consumeCommands` comes back with no error, it has sent what the session sends, and no write
  -- reaches the client from then on.
  pub consume_commands-closes :
      (cs : List Command) (broken : Error) (held : ℕ) (w : World V) (s done : Session V)
      → Matches (ok tt, w) (ok tt, s)
      → All (Fits w.conn.reader.max_message_size) cs
      → srv.terminate_conn ≡ none
      → w.conn.reader.buffer ≡ record {
        pending = encode_commands cs ++ server_message client_terminate [];
        ending = broken;
        held = held;
      }
      → (tell (ready_for_query server_idle) >> perform_all srv ctx cs) s ≡ (ok tt, done)
      → done.client.sink.closed ≡ false
      → ((consume_commands srv ctx w).0 ≡ ok tt)
        × ((consume_commands srv ctx w).1.conn.writer.sink.sent ≡ done.client.sink.sent)
        × ((consume_commands srv ctx w).1.conn.writer.sink.closed ≡ true)
        × ((consume_commands srv ctx w).1.conn.writer.sink.accepts ≡ 0)
  unfolding encode_ending hold_session close_sink settle
  consume_commands-closes cs broken held w s done h fit unset e all_done open_ =
      let m = consume_commands-serves cs terminates broken held w s h fit unset e in
      let f =
        all_performed (tell (ready_for_query server_idle) s) all_done
        ∙ last_word-open srv ctx done open_ in
      let left = m.client ∙ ap (λ (p : Result (Unit {0}) × Session V). p.1.client) f in
      (
        m.answer ∙ ap (λ (p : Result (Unit {0}) × Session V). p.0) f,
        ap (λ (c : Writer). c.sink.sent) left,
        ap (λ (c : Writer). c.sink.closed) left,
        ap (λ (c : Writer). c.sink.accepts) left,
      )
    where
      all_performed :
          (p : Result (Unit {0}) × Session V)
          → after p (λ _. perform_all srv ctx cs) ≡ (ok tt, done)
          → after p (λ _ s'. settle (last_word terminates) (perform_all srv ctx cs s'))
            ≡ last_word terminates done
      all_performed (ok a, t) g = ap (settle (last_word terminates)) g
      all_performed (err x, t) g = absurd (cc)
      all_performed (panic, t) g = absurd (cc)
      all_performed (stuck, t) g = absurd (cc)
