-- ===== src/Wire/Query/Finished.antt =====
-- The end of a simple query.
use psql_wire.Base.{Bytes, List, Option, [], ap, length, none, some, ℕ, ◌++◌, ◌∙◌, ◌∷◌, ◌≡◌, ◌≤◌}
use psql_wire.Buffer.Stream.{Sink}
use psql_wire.Buffer.Writer.{Writer}
use psql_wire.Buffer.Writer.Emits.{sends}
use psql_wire.Buffer.Writer.Framing.{server_message}
use psql_wire.Errors.{Error, flatten}
use psql_wire.Exec.{Result, err, ok, panic, stuck}
use psql_wire.Messages.{server_error_response}
use psql_wire.Wire.Cache.{StatementFn, call_statement}
use psql_wire.Wire.Context.{Context}
use psql_wire.Wire.DataWriter.{new_data_writer}
use psql_wire.Wire.Query.{finish_query, run_query, with_data_writer}
use psql_wire.Wire.Response.Sent.{
  error_body, error_code-Emits, ready_for_query-Emits, ready_message,
}
use psql_wire.Wire.Server.{ParseFn}

-- What a statement's outcome sends at last: ReadyForQuery, behind an ErrorResponse where it failed.
abbrev pub ending_messages : Option Error → List Bytes
ending_messages none = ready_message ∷ []
ending_messages (some e) =
    server_message server_error_response (error_body (flatten (some e))) ∷ ready_message ∷ []

-- What a Go function's error answers for.
abbrev pub failure_of : Result (Unit {0}) → Option (Option Error)
failure_of (ok a) = some none
failure_of (err e) = some (some e)
failure_of panic = none
failure_of stuck = none

finish_query_lem :
    (p : Result (Unit {0}) × Writer) (failure : Option Error)
    → failure_of p.0 ≡ some failure
    → length (ending_messages failure) ≤ p.1.sink.accepts
    → ((finish_query p).0 ≡ ok tt)
      × ((finish_query p).1.sink.sent ≡ p.1.sink.sent ++ ending_messages failure)
unfolding finish_query
finish_query_lem (ok a, w) none h room =
    let (e, s) = sends ready_for_query-Emits w room in (e, ap (λ (s : Sink). s.sent) s)
finish_query_lem (ok a, w) (some e) h room = absurd cc
finish_query_lem (err e, w) none h room = absurd cc
finish_query_lem (err e, w) (some e') h room =
    let same : e ≡ e' = cc in
    let (d, s) = sends (error_code-Emits (some e)) w room in
    (
      d,
      ap (λ (s : Sink). s.sent) s
          ∙ ap (λ (e : Error). w.sink.sent ++ ending_messages (some e)) same,
    )
finish_query_lem (panic, w) failure h room = absurd cc
finish_query_lem (stuck, w) failure h room = absurd cc

-- A simple query that the parser takes, where the statement returns, with or without an error, and
-- the connection takes the end of the answer behind what the statement sent: the handler succeeds,
-- and behind what the statement sent the client has exactly one ReadyForQuery, which follows an
-- ErrorResponse where the statement failed.
pub run_query-ready :
    {V : Type 0} (ctx : Context V) (parser : ParseFn V) (query : Bytes)
    (fn : Option (StatementFn V)) (descriptions : List ℕ) (failure : Option Error) (w : Writer)
    → parser ctx query ≡ ok (fn, descriptions)
    → let run = call_statement ctx fn [] (new_data_writer w) in
      failure_of run.0 ≡ some failure
      → length (ending_messages failure) ≤ run.1.client.sink.accepts
      → ((run_query ctx parser query w).0 ≡ ok tt)
        × ((run_query ctx parser query w).1.sink.sent
            ≡ run.1.client.sink.sent ++ ending_messages failure)
unfolding run_query with_data_writer
run_query-ready ctx parser query fn descriptions failure w parsed outcome room =
    let run = call_statement ctx fn [] (new_data_writer w) in
    rw parsed (finish_query_lem (run.0, run.1.client) failure outcome room)
