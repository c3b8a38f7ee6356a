-- ===== src/Wire/Session/Messages.antt =====
-- The messages that stand for the commands.
use psql_wire.Base.{Bytes, List, [], length, ℕ, ◌++◌, ◌+◌, ◌<◌, ◌∷◌, ◌≤◌}
use psql_wire.Buffer.Reader.Values.{IsText}
use psql_wire.Buffer.Words.{put_uint16, put_uint32}
use psql_wire.Buffer.Writer.Framing.{server_message}
use psql_wire.Messages.{
  client_bind, client_describe, client_execute, client_flush, client_parse, client_simple_query,
  client_sync, client_terminate,
}
use psql_wire.Wire.Extended.Parameters.RoundTrip.{IsEncodable, encode_parameters}
use psql_wire.Wire.Extended.Parsed.{encode_oids}
use psql_wire.Wire.Session.{
  Command, Ending, binds, describes, executes, flushes, leaves, parses, queries, syncs, terminates,
}

unfoldable pub command_type : Command → ℕ
command_type (queries query) = client_simple_query
command_type (parses name query oids) = client_parse
command_type (binds portal statement formats values columns) = client_bind
command_type (executes portal limit) = client_execute
command_type (describes body) = client_describe
command_type (syncs body) = client_sync
command_type (flushes body) = client_flush

unfoldable pub command_body : Command → Bytes
command_body (queries query) = query ++ 0 ∷ []
command_body (parses name query oids) =
    name ++ 0 ∷ (query ++ 0 ∷ (put_uint16 (length oids) ++ encode_oids oids))
command_body (binds portal statement formats values columns) =
    portal ++ 0 ∷ (statement ++ 0 ∷ encode_parameters formats values columns)
command_body (executes portal limit) = portal ++ 0 ∷ put_uint32 limit
command_body (describes body) = body
command_body (syncs body) = body
command_body (flushes body) = body

unfoldable pub encode_commands : List Command → Bytes
unfolding command_type command_body
encode_commands [] = []
encode_commands (c ∷ cs) = server_message (command_type c) (command_body c) ++ encode_commands cs

-- The texts hold no NUL, and the numbers fit their words.
abbrev pub IsSound : Command → Type 0
IsSound (queries query) = IsText query
IsSound (parses name query oids) = IsText name × IsText query × (length oids < 65536)
IsSound (binds portal statement formats values columns) =
    IsText portal × IsText statement × IsEncodable formats values columns
IsSound (executes portal limit) = IsText portal × (limit < 4294967296)
IsSound (describes body) = Unit {0}
IsSound (syncs body) = Unit {0}
IsSound (flushes body) = Unit {0}

-- A sound command whose message has at most `max` bytes behind its length word.
abbrev pub Fits : ℕ → Command → Type 0
Fits max c =
    IsSound c × (length (command_body c) ≤ max) × (length (command_body c) + 4 < 4294967296)

unfoldable pub encode_ending : Ending → Bytes
encode_ending leaves = []
encode_ending terminates = server_message client_terminate []
