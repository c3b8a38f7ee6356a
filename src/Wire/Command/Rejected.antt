-- ===== src/Wire/Command/Rejected.antt =====
-- A simple query that the parser rejects.
use psql_wire.Base.{
  Bytes, [], arith, false, length, length-append, refl, some, ◌++◌, ◌+◌, ◌<◌, ◌∷◌, ◌≡◌, ◌≤◌,
}
use psql_wire.Buffer.Reader.Typed.{read_typed_msg-server_message}
use psql_wire.Buffer.Reader.Values.{IsText, get_string-append}
use psql_wire.Buffer.Writer.Framing.{server_message}
use psql_wire.Errors.{Error, is_eof}
use psql_wire.Exec.{err}
use psql_wire.Messages.{client_simple_query}
use psql_wire.Wire.Cache.{set}
use psql_wire.Wire.Command.{after_command, after_read, consume_one, handle_command}
use psql_wire.Wire.Context.{Context}
use psql_wire.Wire.Query.{handle_simple_query, is_blank, run_query}
use psql_wire.Wire.Server.{ParseFn, Server, World}

module _ {V : Type 0} (srv : Server V) (ctx : Context V) where
  -- A round of the command loop on a simple query that fits and is not blank, where the parser
  -- answers an error that is no end of file: the loop ends with this error, and the client is sent
  -- nothing.
  pub consume_one-rejected :
      (query rest : Bytes) (parser : ParseFn V) (e : Error) (w : World V)
      → IsText query
      → is_blank query ≡ false
      → length query + 1 ≤ w.conn.reader.max_message_size
      → length query + 5 < 4294967296
      → w.conn.reader.buffer.pending ≡ server_message client_simple_query (query ++ 0 ∷ []) ++ rest
      → srv.parse ≡ some parser
      → parser ctx query ≡ err e
      → is_eof e ≡ false
      → ((consume_one srv ctx w).0 ≡ err e)
        × ((consume_one srv ctx w).1.conn.writer ≡ w.conn.writer)
        × ((consume_one srv ctx w).1.conn.reader.buffer.pending ≡ rest)
  unfolding consume_one after_read after_command handle_command handle_simple_query run_query
  consume_one-rejected query rest parser e w legal inked fits small sent set rejected broken =
      let size : length (query ++ 0 ∷ []) ≡ length query + 1 =
        omega (arith, length-append {0} query (0 ∷ [])) in
      rw
        (
          read_typed_msg-server_message client_simple_query (query ++ 0 ∷ []) rest w.conn.reader
              (rw size fits) (rw size (omega arith)) sent,
          set,
          get_string-append query []
              (record (w.conn.reader) {
                buffer = record (w.conn.reader.buffer) { pending = rest };
                msg = query ++ 0 ∷ [];
              })
              legal refl,
          inked,
          rejected,
          broken,
        )
        (refl, refl, refl)
