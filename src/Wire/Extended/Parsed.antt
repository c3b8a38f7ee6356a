-- ===== src/Wire/Extended/Parsed.antt =====
-- Parse, from the message of a client to the cache.
use psql_wire.Base.{
  Bytes, List, Option, [], ap, append-nil, arith, equal, if◌then◌else◌, length, refl, some, subst,
  ℕ, ◌%◌, ◌++◌, ◌+◌, ◌<◌, ◌∙◌, ◌∷◌, ◌≡◌, ◌≤◌,
}
use psql_wire.Buffer.Reader.Values.{IsText, get_string-append, get_uint16-put_uint16}
use psql_wire.Buffer.Stream.{Sink}
use psql_wire.Buffer.Words.{put_uint16, put_uint32}
use psql_wire.Buffer.Writer.{add_int16, add_int32, end, start}
use psql_wire.Buffer.Writer.Emits.{Emits, Emits-pure, sends}
use psql_wire.Buffer.Writer.Framing.{
  Adds, Adds-add, Adds-then, Emits-message, Ends, Ends-end, Ends-then, server_message,
}
use psql_wire.Exec.{ok, ◌>>◌}
use psql_wire.Messages.{server_parameter_description, server_parse_complete}
use psql_wire.Wire.Cache.{DefaultPortalCache, DefaultStatementCache, StatementFn, get, set}
use psql_wire.Wire.Cache.Laws.{get-set}
use psql_wire.Wire.Context.{Context, Parameters}
use psql_wire.Wire.Extended.{handle_parse, parse_message, set_statement, store_statement}
use psql_wire.Wire.Extended.Parameters.{add_each_int32, write_parameter_descriptions}
use psql_wire.Wire.Response.Sent.{Adds-pure}
use psql_wire.Wire.Server.{Conn, ParseFn, Server}

-- The answer to a Parse message: the types of the parameters, where there are any, and ParseComplete.
unfoldable pub encode_oids : List ℕ → Bytes
encode_oids [] = []
encode_oids (i ∷ is) = put_uint32 i ++ encode_oids is

abbrev pub description_messages : List ℕ → List Bytes
description_messages [] = []
description_messages (p ∷ ps) =
    server_message server_parameter_description
      (put_uint16 (length (p ∷ ps) % 65536) ++ encode_oids (p ∷ ps))
    ∷ []

add_each_int32-Adds : (is : List ℕ) → Adds (add_each_int32 is) (encode_oids is)
unfolding add_each_int32 add_int32 encode_oids
add_each_int32-Adds [] = Adds-pure 0
add_each_int32-Adds (i ∷ is) =
    Adds-then (put_uint32 i) (encode_oids is) (Adds-add (put_uint32 i)) (add_each_int32-Adds is)

write_parameter_descriptions-Emits :
    (ps : List ℕ) → Emits (write_parameter_descriptions ps) (description_messages ps)
unfolding write_parameter_descriptions add_int16
write_parameter_descriptions-Emits [] = Emits-pure
write_parameter_descriptions-Emits (p ∷ ps) =
    let n = put_uint16 (length (p ∷ ps) % 65536) in
    let d = encode_oids (p ∷ ps) in
    Emits-message server_parameter_description (n ++ d) (
      Ends-then n d (Adds-add n) (
        subst (Ends (add_each_int32 (p ∷ ps) >> end)) (append-nil d)
          (Ends-then d [] (add_each_int32-Adds (p ∷ ps)) Ends-end)))

parse_complete-Emits :
    Emits (start server_parse_complete >> end) (server_message server_parse_complete [] ∷ [])
parse_complete-Emits = Emits-message server_parse_complete [] Ends-end

module _ {V : Type 0} where
  store_statement_lem :
      (name : Bytes) (fn : Option (StatementFn V)) (descriptions : List ℕ)
      (known : DefaultStatementCache V) (conn : Conn) (bound : Option (DefaultPortalCache V))
      (params : Option Parameters)
      → length (description_messages descriptions) + 1 ≤ conn.writer.sink.accepts
      → let p =
          store_statement name (ok (fn, descriptions)) (record {
            conn = conn;
            statements = some known;
            portals = bound;
            parameters = params;
          }) in
        (p.0 ≡ ok tt)
        × (p.1.statements ≡ some (set name fn known).1)
        × (p.1.conn.writer.sink.sent
            ≡ (conn.writer.sink.sent ++ description_messages descriptions)
              ++ server_message server_parse_complete [] ∷ [])
  unfolding store_statement set_statement start set
  store_statement_lem name fn descriptions known conn bound params room =
      let (e, s) =
        sends (write_parameter_descriptions-Emits descriptions) conn.writer (omega arith) in
      let w = (write_parameter_descriptions descriptions conn.writer).1 in
      let (e', s') = sends parse_complete-Emits w (rw s (omega arith)) in
      rw e (
        e',
        refl,
        ap (λ (t : Sink). t.sent) s'
            ∙ ap (λ (t : Sink). t.sent ++ server_message server_parse_complete [] ∷ []) s,
      )

  handle_parse-set :
      (srv : Server V) (ctx : Context V) (name query types : Bytes) (count : ℕ) (parser : ParseFn V)
      (fn : Option (StatementFn V)) (descriptions : List ℕ) (known : DefaultStatementCache V)
      (conn : Conn) (bound : Option (DefaultPortalCache V)) (params : Option Parameters)
      → IsText name
      → IsText query
      → count < 65536
      → conn.reader.msg ≡ name ++ 0 ∷ (query ++ 0 ∷ (put_uint16 count ++ types))
      → srv.parse ≡ some parser
      → parser ctx query ≡ ok (fn, descriptions)
      → length (description_messages descriptions) + 1 ≤ conn.writer.sink.accepts
      → let p =
          handle_parse srv ctx (record {
            conn = conn;
            statements = some known;
            portals = bound;
            parameters = params;
          }) in
        (p.0 ≡ ok tt)
        × (p.1.statements ≡ some (set name fn known).1)
        × (p.1.conn.writer.sink.sent
            ≡ (conn.writer.sink.sent ++ description_messages descriptions)
              ++ server_message server_parse_complete [] ∷ [])
  unfolding handle_parse parse_message
  handle_parse-set srv ctx name query types count parser fn descriptions known conn bound params hn
        hq hc em given parsed room =
      let m2 = put_uint16 count ++ types in
      let m1 = query ++ 0 ∷ m2 in
      rw
        (
          given,
          get_string-append name m1 conn.reader hn em,
          get_string-append query m2 (record (conn.reader) { msg = m1 }) hq refl,
          get_uint16-put_uint16 count types (record (conn.reader) { msg = m2 }) hc refl,
          parsed,
        )
        (store_statement_lem name fn descriptions known
          (record conn { reader = record (conn.reader) { msg = types } }) bound params room)

  -- `handleParse` on a Parse message with any list of parameter types, where the parser takes the query
  -- and the connection takes the answer: from then on `Get` answers the statement for the name, and for
  -- every other name what it answered before; and the client is sent the parser's parameter types,
  -- where there are any, and ParseComplete.
  pub handle_parse-caches :
      (srv : Server V) (ctx : Context V) (name query types : Bytes) (count : ℕ) (parser : ParseFn V)
      (fn : Option (StatementFn V)) (descriptions : List ℕ) (known : DefaultStatementCache V)
      (conn : Conn) (bound : Option (DefaultPortalCache V)) (params : Option Parameters)
      → IsText name
      → IsText query
      → count < 65536
      → conn.reader.msg ≡ name ++ 0 ∷ (query ++ 0 ∷ (put_uint16 count ++ types))
      → srv.parse ≡ some parser
      → parser ctx query ≡ ok (fn, descriptions)
      → length (description_messages descriptions) + 1 ≤ conn.writer.sink.accepts
      → let p =
          handle_parse srv ctx (record {
            conn = conn;
            statements = some known;
            portals = bound;
            parameters = params;
          }) in
        (p.0 ≡ ok tt)
        × ((cache : DefaultStatementCache V) × (p.1.statements ≡ some cache)
            × ((n : Bytes) → (get n cache).0 ≡ (if equal name n then ok fn else (get n known).0)))
        × (p.1.conn.writer.sink.sent
            ≡ (conn.writer.sink.sent ++ description_messages descriptions)
              ++ server_message server_parse_complete [] ∷ [])
  handle_parse-caches srv ctx name query types count parser fn descriptions known conn bound params
        hn hq hc em given parsed room =
      let (done, kept, told) =
        handle_parse-set srv ctx name query types count parser fn descriptions known conn bound
          params hn hq hc em given parsed room in
      (done, ((set name fn known).1, kept, λ n. get-set n name fn known), told)
