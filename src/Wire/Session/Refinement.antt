-- ===== src/Wire/Session/Refinement.antt =====
-- The command loop of command.go does what the session does.
pub mod Served
pub mod Connections
use psql_wire.Base.{
  All, Bool, Bytes, List, Option, [], ap, append_assoc, arith, false, if◌then◌else◌, length, refl,
  some, subst, suc, sym, true, zero, ℕ, ◌++◌, ◌<◌, ◌∙◌, ◌∷◌, ◌≡◌,
}
use psql_wire.Buffer.Reader.{Reader}
use psql_wire.Buffer.Reader.Typed.{read_typed_msg-server_message}
use psql_wire.Buffer.Stream.{Stream}
use psql_wire.Buffer.Writer.{Writer}
use psql_wire.Buffer.Writer.Framing.{server_message}
use psql_wire.Errors.{Error, is_eof}
use psql_wire.Exec.{Exec, Result, after, err, ok, panic, pure, stuck}
use psql_wire.Messages.{server_idle}
use psql_wire.Wire.Cache.{DefaultPortalCache, DefaultStatementCache, Portal, StatementFn}
use psql_wire.Wire.Command.{after_command, consume_loop, consume_one, handle_command}
use psql_wire.Wire.Context.{Context, Parameters}
use psql_wire.Wire.Response.{ready_for_query}
use psql_wire.Wire.Server.{Conn, Server, World}
use psql_wire.Wire.Session.{
  Command, Session, binds, describes, executes, flushes, parses, perform, perform_all, queries,
  settle, syncs,
}
use psql_wire.Wire.Session.Handlers.{
  binds-Follows, executes-Follows, parses-Follows, queries-Follows, session_of, tell-Follows,
  world_of,
}
use psql_wire.Wire.Session.Messages.{Fits, IsSound, command_body, command_type, encode_commands}
use psql_wire.Wire.Session.Simulation.{Follows, IsBound, IsKnown, Matches, answering, reading}

module _ {V : Type 0} (srv : Server V) (ctx : Context V) where
  handle_command_base :
      (c : Command) (known : DefaultStatementCache V) (bound : DefaultPortalCache V)
      (params : Option Parameters) (f : Bytes → Option (StatementFn V))
      (g : Bytes → Option (Portal V)) (is_known : IsKnown known f) (is_bound : IsBound bound g)
      (conn : Conn)
      → IsSound c
      → conn.reader.msg ≡ command_body c
      → Follows conn.reader.buffer conn.reader.max_message_size
          (handle_command srv ctx
            (command_type c)
            (world_of known bound params f g is_known is_bound conn))
          (perform srv ctx c (session_of known bound params f g is_known is_bound conn.writer))
  unfolding handle_command command_type command_body perform
  handle_command_base (queries query) known bound params f g is_known is_bound conn sound e =
      queries-Follows known bound params f g is_known is_bound srv ctx query srv.parse conn refl
        sound e
  handle_command_base (parses name query oids) known bound params f g is_known is_bound conn
        (hn, hq, hc) e =
      parses-Follows known bound params f g is_known is_bound srv ctx name query oids srv.parse conn
        refl hn hq hc e
  handle_command_base (binds portal statement formats values columns) known bound params f g
        is_known is_bound conn (hp, hs, he) e =
      binds-Follows known bound params f g is_known is_bound srv ctx portal statement formats values
        columns conn hp hs he e
  handle_command_base (executes portal limit) known bound params f g is_known is_bound conn (hp, hl)
        e =
      executes-Follows known bound params f g is_known is_bound srv ctx portal limit conn hp hl e
  handle_command_base (describes body) known bound params f g is_known is_bound conn sound e =
      tell-Follows known bound params f g is_known is_bound (pure tt) conn
  handle_command_base (syncs body) known bound params f g is_known is_bound conn sound e =
      tell-Follows known bound params f g is_known is_bound (ready_for_query server_idle) conn
  handle_command_base (flushes body) known bound params f g is_known is_bound conn sound e =
      tell-Follows known bound params f g is_known is_bound (ready_for_query server_idle) conn

  -- A world that matches a session is one of those.
  handle_command-Follows :
      (c : Command) (w : World V) (s : Session V)
      → Matches (ok tt, w) (ok tt, s)
      → IsSound c
      → w.conn.reader.msg ≡ command_body c
      → Follows w.conn.reader.buffer w.conn.reader.max_message_size
          (handle_command srv ctx (command_type c) w)
          (perform srv ctx c s)
  handle_command-Follows c w s h sound e =
      subst
        (λ (w' : World V).
          Follows w.conn.reader.buffer w.conn.reader.max_message_size
            (handle_command srv ctx (command_type c) w') (perform srv ctx c s))
        (sym same_world)
        (subst
          (λ (client : Writer).
            Follows w.conn.reader.buffer w.conn.reader.max_message_size
              (handle_command srv ctx (command_type c) (
                world_of h.known h.bound w.parameters s.statements s.portals h.statements h.portals
                  w.conn))
              (perform srv ctx c (record s { client = client })))
          h.client
          (handle_command_base c h.known h.bound w.parameters s.statements s.portals h.statements
            h.portals w.conn sound e))
    where
      same_world : w ≡ record w { statements = some h.known; portals = some h.bound }
      same_world i = record w { statements = h.known_is i; portals = h.bound_is i }

  -- What the loop makes of a command's answer, and what it does behind the last command.
  module _ (last : Exec (Session V) (Unit {0})) (next : Exec (World V) (Unit {0}))
      (following : Exec (Session V) (Unit {0})) where
    pub decide : Result Bool × World V → Result (Unit {0}) × World V
    decide p = after p (λ more. elim more [ true ↦ next | false ↦ pure tt ])

    after_eof :
        (b : Bool) (e : Error) (w : World V) (s : Session V)
        → Matches {A = Unit {0}} (ok tt, w) (ok tt, s)
        → Matches
            (decide (if b then (ok false, w) else (err e, w)))
            (if b then (ok tt, s) else (err e, s))
    unfolding decide
    after_eof true e w s h = h
    after_eof false e w s h = answering (err e) (ok tt, w) (ok tt, s) h

    after_same :
        (r : Result (Unit {0})) (w : World V) (s : Session V)
        → Matches {A = Unit {0}} (ok tt, w) (ok tt, s)
        → Matches (next w) (settle last (following s))
        → Matches
            (decide (after_command srv ctx (r, w)))
            (settle last (after (r, s) (λ _. following)))
    unfolding decide after_command settle
    after_same (ok a) w s h behind = behind
    after_same (err e) w s h behind = after_eof (is_eof e) e w s h
    after_same panic w s h behind = answering panic (ok tt, w) (ok tt, s) h
    after_same stuck w s h behind = answering stuck (ok tt, w) (ok tt, s) h

    after_command-Matches :
        (p : Result (Unit {0}) × World V) (q : Result (Unit {0}) × Session V)
        → Matches p q
        → Matches (next p.1) (settle last (following q.1))
        → Matches (decide (after_command srv ctx p)) (settle last (after q (λ _. following)))
    after_command-Matches p q h behind =
        subst
          (λ (r : Result (Unit {0})).
            Matches (decide (after_command srv ctx (r, p.1)))
              (settle last (after q (λ _. following))))
          (sym h.answer) (after_same q.0 p.1 q.1 (answering (ok tt) p q h) behind)

  -- The loop, with what it does on the rest of the input given.
  module _ (max held : ℕ) (ending : Error) (rest : Bytes) (last : Exec (Session V) (Unit {0}))
      (at_rest : (fuel : ℕ) (w : World V) (s : Session V)
        → Matches {A = Unit {0}} (ok tt, w) (ok tt, s)
        → w.conn.reader.buffer ≡ record { pending = rest; ending = ending; held = held }
        → Matches (consume_loop srv ctx (suc fuel) w) (last s)) where
    abbrev awaiting : Bytes → Stream
    awaiting bytes = record { pending = bytes; ending = ending; held = held }

    pub loop-Matches :
        (cs : List Command) (fuel : ℕ) (w : World V) (s : Session V)
        → All (Fits max) cs
        → length cs < fuel
        → Follows (awaiting (encode_commands cs ++ rest)) max (ok tt, w) (ok tt, s)
        → Matches (consume_loop srv ctx fuel w) (settle last (perform_all srv ctx cs s))
    unfolding consume_loop consume_one perform handle_command decide encode_commands perform_all
        settle
    loop-Matches [] zero w s fit enough h = absurd (omega arith)
    loop-Matches [] (suc fuel) w s fit enough h = at_rest fuel w s h.matches h.buffer
    loop-Matches (c ∷ cs) zero w s fit enough h = absurd (omega arith)
    loop-Matches (c ∷ cs) (suc fuel) w s (fits, fit) enough h =
        let left = encode_commands cs ++ rest in
        let r : Reader = record (w.conn.reader) {
          buffer = record (w.conn.reader.buffer) { pending = left };
          msg = command_body c;
        } in
        let w' : World V = record w { conn = record (w.conn) { reader = r } } in
        let f =
          handle_command-Follows c w' s (reading r (ok tt, w) (ok tt, s) h.matches) fits.0 refl in
        rw
          (read_typed_msg-server_message (command_type c) (command_body c) left w.conn.reader
            (rw h.max_size fits.1) fits.2
            (ap (λ (b : Stream). b.pending) h.buffer
              ∙ append_assoc (server_message (command_type c) (command_body c)) (encode_commands cs)
                  rest))
          (after_command-Matches last (consume_loop srv ctx fuel) (perform_all srv ctx cs)
            (handle_command srv ctx (command_type c) w') (perform srv ctx c s) f.matches
            (loop-Matches cs fuel (handle_command srv ctx (command_type c) w').1
              (perform srv ctx c s).1 fit (omega arith)
              (record {
                matches = answering (ok tt) _ _ f.matches;
                buffer = f.buffer ∙ ap (λ (b : Stream). record b { pending = left }) h.buffer;
                max_size = f.max_size ∙ h.max_size;
              })))
