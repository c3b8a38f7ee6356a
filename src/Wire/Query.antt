-- ===== src/Wire/Query.antt =====
-- `handleSimpleQuery` of command.go.
pub mod Finished
pub mod Tables
use psql_wire.Base.{
  Bool, Bytes, [], codes, decimal, false, if◌then◌else◌, leb, none, some, true, ℕ, ◌&&◌, ◌++◌, ◌==◌,
  ◌||◌, ◌∷◌,
}
use psql_wire.Buffer.Reader.{get_string}
use psql_wire.Buffer.Writer.{Writer, end, start}
use psql_wire.Errors.{Error, coded, graded, level_fatal, text}
use psql_wire.Errors.Codes.Completion.{connection_does_not_exist}
use psql_wire.Exec.{Exec, Result, err, lift, ok, panic, stuck, ◌>>=◌, ◌>>◌}
use psql_wire.Messages.{client_simple_query, server_empty_query, server_idle}
use psql_wire.Wire.Cache.{call_statement}
use psql_wire.Wire.Context.{Context}
use psql_wire.Wire.DataWriter.{DataWriter, new_data_writer}
use psql_wire.Wire.Options.{parse}
use psql_wire.Wire.Response.{error_code, ready_for_query}
use psql_wire.Wire.Server.{ParseFn, Server, World, from_client, to_client}

unfoldable pub new_err_unimplemented_message_type : ℕ → Error
new_err_unimplemented_message_type t =
    graded
      (coded (text (codes "unimplemented client message type: " ++ decimal t))
        connection_does_not_exist)
      level_fatal

-- `strings.TrimSpace(query) == ""`: the query is UTF-8 white space only.
abbrev pub is_space : ℕ → Bool
is_space a = (leb 9 a && leb a 13) || a == 32

-- U+0085 and U+00A0
abbrev pub is_space2 : ℕ → ℕ → Bool
is_space2 a b = a == 0xc2 && (b == 0x85 || b == 0xa0)

-- U+1680, U+2000 to U+200A, U+2028, U+2029, U+202F, U+205F and U+3000
abbrev pub is_space3 : ℕ → ℕ → ℕ → Bool
is_space3 a b c =
    (a == 0xe1 && (b == 0x9a && c == 0x80))
    || ((a == 0xe2
          && ((b == 0x80 && ((leb 0x80 c && leb c 0x8a) || (c == 0xa8 || (c == 0xa9 || c == 0xaf))))
              || (b == 0x81 && c == 0x9f)))
        || (a == 0xe3 && (b == 0x80 && c == 0x80)))

unfoldable pub is_blank : Bytes → Bool
is_blank [] = true
is_blank (a ∷ []) = is_space a
is_blank (a ∷ b ∷ []) = elim (is_space a) [ true ↦ is_blank (b ∷ []) | false ↦ is_space2 a b ]
is_blank (a ∷ b ∷ c ∷ s) = elim (is_space a) [
  | true ↦ is_blank (b ∷ c ∷ s)
  | false ↦ elim (is_space2 a b) [
    | true ↦ is_blank (c ∷ s)
    | false ↦ elim (is_space3 a b c) [ true ↦ is_blank s | false ↦ false ]
  ]
]

-- A statement with a data writer of its own.
unfoldable pub with_data_writer : Exec DataWriter (Unit {0}) → Exec Writer (Unit {0})
unfolding new_data_writer
with_data_writer m w = let (r, d) = m (new_data_writer w) in (r, d.client)

-- The answer to an empty query.
unfoldable pub write_empty_query : Exec Writer (Unit {0})
write_empty_query = do start server_empty_query; end; ready_for_query server_idle

-- `err = statement(...)`: an error goes to the client, and ends the command cycle as success does.
unfoldable pub finish_query : Result (Unit {0}) × Writer → Result (Unit {0}) × Writer
finish_query (ok a, w) = ready_for_query server_idle w
finish_query (err e, w) = error_code (some e) w
finish_query (panic, w) = (panic, w)
finish_query (stuck, w) = (stuck, w)

module _ {V : Type 0} where
  -- The query is parsed and run; an error of the parser is returned.
  unfoldable pub run_query : Context V → ParseFn V → Bytes → Exec Writer (Unit {0})
  unfolding with_data_writer finish_query call_statement
  run_query ctx parse query = do
    (statement, descriptions) ← lift (parse ctx query)
    λ w. finish_query (with_data_writer (call_statement ctx statement []) w)

  -- `handleSimpleQuery`
  unfoldable pub handle_simple_query : Server V → Context V → Exec (World V) (Unit {0})
  unfolding write_empty_query run_query is_blank
  handle_simple_query srv ctx = elim srv.parse [
    | none ↦ to_client (error_code (some (new_err_unimplemented_message_type client_simple_query)))
    | some parse ↦ do
      query ← from_client get_string
      if is_blank query then to_client write_empty_query else to_client (run_query ctx parse query)
  ]
