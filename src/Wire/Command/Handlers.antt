-- ===== src/Wire/Command/Handlers.antt =====
-- Every handler comes back, whatever the client sends, if the callbacks of the server do.
use psql_wire.Base.{Bytes, List, Option, [], arith, length-take-le, none, refl, some, ℕ, ◌≡◌, ◌≢◌}
use psql_wire.Buffer.Failures.{unwrap_message_size_exceeded}
use psql_wire.Buffer.Reader.{Reader}
use psql_wire.Buffer.Reader.Ends.{IsLive, TameReader, get_string-Tame, unread}
use psql_wire.Buffer.Stream.{close_stream}
use psql_wire.Buffer.Writer.{Writer}
use psql_wire.Buffer.Writer.Returning.{Emits-Returns, end-Returns, start-Returns}
use psql_wire.Errors.{Error}
use psql_wire.Exec.{Exec, Result, err, ok, panic, stuck}
use psql_wire.Exec.Tame.{Returns, Returns-at, Tame, Tame-bind, Tame-if, Tame-lift, Tame-then}
use psql_wire.Messages.{server_idle}
use psql_wire.Wire.Cache.{StatementFn, call_statement}
use psql_wire.Wire.Context.{Context}
use psql_wire.Wire.DataWriter.{DataWriter, new_data_writer}
use psql_wire.Wire.DataWriter.Returning.{IsContext, run_script-ne-stuck}
use psql_wire.Wire.Extended.{report}
use psql_wire.Wire.Query.{
  finish_query, handle_simple_query, is_blank, run_query, with_data_writer, write_empty_query,
}
use psql_wire.Wire.Response.{error_code, ready_for_query}
use psql_wire.Wire.Response.Sent.{error_code-Emits, ready_for_query-Emits}
use psql_wire.Wire.Server.{
  ParseFn, Server, World, close_connection, from_client, on_conn, to_client,
}

abbrev pub to_read : {V : Type 0} → World V → ℕ
to_read w = unread w.conn.reader

abbrev pub Live : {V : Type 0} → World V → Type 0
Live w = IsLive w.conn.reader

abbrev pub TameWorld : {V A : Type 0} → Exec (World V) A → Type 0
TameWorld m = Tame to_read Live m

pub record IsServer {V : Type 0} (srv : Server V) : Type 0 where
  pub parse :
      (p : ParseFn V) (ctx : Context V) (query : Bytes) → srv.parse ≡ some p → p ctx query ≢ stuck

module _ {V A : Type 0} where
  pub from_client-Tame : {m : Exec Reader A} → TameReader m → TameWorld (from_client {V = V} m)
  from_client-Tame {m} tm = record {
    returns = λ w g. tm.returns w.conn.reader g;
    shrinks = λ w g. tm.shrinks w.conn.reader g;
    keeps = λ w g. tm.keeps w.conn.reader g;
  }

  pub to_client-Tame : {m : Exec Writer A} → Returns m → TameWorld (to_client {V = V} m)
  to_client-Tame {m} rm = record {
    returns = λ w g. rm.returns w.conn.writer tt;
    shrinks = λ w g. omega arith;
    keeps = λ w g. g;
  }

module _ {V : Type 0} where
  pub close_connection-Tame : TameWorld (on_conn {V = V} close_connection)
  unfolding close_connection close_stream unwrap_message_size_exceeded
  close_connection-Tame = record {
    returns = λ w g. ground arith;
    shrinks = λ w g.
        ground (arith, length-take-le {0} w.conn.reader.buffer.held w.conn.reader.buffer.pending);
    keeps = λ w g. ground arith;
  }

  pub call_statement-ne-stuck :
      (ctx : Context V)
      → IsContext ctx
      → (fn : Option (StatementFn V)) (parameters : List Bytes) (d : DataWriter)
      → (call_statement ctx fn parameters d).0 ≢ stuck
  unfolding call_statement
  call_statement-ne-stuck ctx h none parameters d = λ p. cc
  call_statement-ne-stuck ctx h (some fn) parameters d =
      run_script-ne-stuck ctx h (fn ctx parameters) d

pub error_code-Returns : (e : Option Error) → Returns (error_code e)
error_code-Returns e = Emits-Returns _ (error_code-Emits e)

pub ready_for_query-Returns : Returns (ready_for_query server_idle)
ready_for_query-Returns = Emits-Returns _ ready_for_query-Emits

finish_query-ne-stuck : (p : Result (Unit {0}) × Writer) → p.0 ≢ stuck → (finish_query p).0 ≢ stuck
unfolding finish_query
finish_query-ne-stuck (ok a, w) h = ready_for_query-Returns.returns w tt
finish_query-ne-stuck (err e, w) h = (error_code-Returns (some e)).returns w tt
finish_query-ne-stuck (panic, w) h = λ p. cc
finish_query-ne-stuck (stuck, w) h = absurd (h refl)

pub report-ne-stuck : (p : Result (Unit {0}) × Writer) → p.0 ≢ stuck → (report p).0 ≢ stuck
unfolding report
report-ne-stuck (ok a, w) h = λ p. cc
report-ne-stuck (err e, w) h = (error_code-Returns (some e)).returns w tt
report-ne-stuck (panic, w) h = λ p. cc
report-ne-stuck (stuck, w) h = absurd (h refl)

write_empty_query-Returns : Returns write_empty_query
unfolding write_empty_query
write_empty_query-Returns =
    Tame-then (start-Returns _) (Tame-then end-Returns ready_for_query-Returns)

module _ {V : Type 0} (srv : Server V) (ctx : Context V) (server : IsServer srv)
    (total : IsContext ctx) where
  run_query-Returns :
      (parse : ParseFn V) (query : Bytes)
      → parse ctx query ≢ stuck
      → Returns (run_query ctx parse query)
  unfolding run_query with_data_writer
  run_query-Returns parse query h =
      Tame-bind _
        (λ s. Returns-at (λ w.
          finish_query-ne-stuck _ (call_statement-ne-stuck ctx total s.0 [] (new_data_writer w))))
        (Tame-lift (parse ctx query) h)

  simple_query_lem :
      (parse : Option (ParseFn V)) → srv.parse ≡ parse → TameWorld (handle_simple_query srv ctx)
  unfolding handle_simple_query
  simple_query_lem none e = rw (e, handle_simple_query) (to_client-Tame (error_code-Returns _))
  simple_query_lem (some parse) e =
      rw (e, handle_simple_query)
        (Tame-bind _
          (λ query.
            Tame-if (is_blank query) (to_client-Tame write_empty_query-Returns)
              (to_client-Tame (run_query-Returns parse query (server.parse parse ctx query e))))
          (from_client-Tame get_string-Tame))

  pub handle_simple_query-Tame : TameWorld (handle_simple_query srv ctx)
  handle_simple_query-Tame = simple_query_lem srv.parse refl
