-- ===== src/Wire/DataWriter/Tables.antt =====
-- A statement that sends a table: its columns, its rows and a tag.
use psql_wire.Base.{
  Bytes, List, Option, [], ap, append-nil, append_assoc, arith, false, length, refl, some, suc, ℕ,
  ◌%◌, ◌++◌, ◌+◌, ◌-◌, ◌==◌, ◌∙◌, ◌∷◌, ◌≡◌, ◌≤◌,
}
use psql_wire.Buffer.Stream.{Sink}
use psql_wire.Buffer.Words.{put_uint16}
use psql_wire.Buffer.Writer.{Writer, add_null_terminate, add_string}
use psql_wire.Buffer.Writer.Emits.{Emits, sends, sent_both}
use psql_wire.Buffer.Writer.Framing.{Adds-add, Emits-message, Ends-end, Ends-then, server_message}
use psql_wire.Exec.{Result, ok}
use psql_wire.Messages.{server_command_complete, server_data_row, server_row_description}
use psql_wire.Wire.Context.{Context}
use psql_wire.Wire.DataWriter.{
  DataWriter, Script, announce_empty, answer, close, command_complete, complete, completes, define,
  defines, empty, finish, new_data_writer, returns, row, rows, run_script,
}
use psql_wire.Wire.Row.{Column}
use psql_wire.Wire.Row.Cells.{AreCells, encode_cells, write_columns-Emits}
use psql_wire.Wire.Row.Described.{column_descriptions, define_columns-Emits}

module _ {V : Type 0} where
  unfoldable pub each_row : List (List (Option V)) → Script V → Script V
  each_row [] k = k
  each_row (values ∷ more) k = rows values (λ e. each_row more k)

  -- Errors are not looked at until the end, which is answered.
  abbrev pub send_table : List Column → List (List (Option V)) → Bytes → Script V
  send_table columns values tag =
      defines (some columns) (λ e. each_row values (completes tag (λ e'. returns e')))

-- The columns encode each row.
pub data AreRows {V : Type 0} (ctx : Context V) (columns : List Column)
    : List (List (Option V)) → List (List Bytes) → Type 0 where
  no_rows : AreRows ctx columns [] []
  one_row :
      {srcs : List (Option V)} {cells : List Bytes} {more : List (List (Option V))}
      {encoded : List (List Bytes)}
      → AreCells ctx columns srcs cells
      → AreRows ctx columns more encoded
      → AreRows ctx columns (srcs ∷ more) (cells ∷ encoded)

abbrev pub data_rows :
    {V : Type 0} → List Column → List (List (Option V)) → List (List Bytes) → List Bytes
data_rows columns (srcs ∷ more) (cells ∷ encoded) =
    server_message server_data_row (put_uint16 (length columns % 65536) ++ encode_cells srcs cells)
    ∷ data_rows columns more encoded
data_rows columns _ _ = []

-- The messages of a whole table.
abbrev pub table_messages :
    {V : Type 0} → List Column → List (List (Option V)) → List (List Bytes) → Bytes → List Bytes
table_messages columns srcs cells tag =
    server_message server_row_description
      (put_uint16 (length columns % 65536) ++ column_descriptions columns)
    ∷ (data_rows columns srcs cells ++ server_message server_command_complete (tag ++ 0 ∷ []) ∷ [])

pub command_complete-Emits :
    (tag : Bytes)
    → Emits (command_complete tag) (server_message server_command_complete (tag ++ 0 ∷ []) ∷ [])
unfolding command_complete add_string add_null_terminate
command_complete-Emits tag =
    Emits-message server_command_complete (tag ++ 0 ∷ [])
      (Ends-then tag (0 ∷ []) (Adds-add tag) (Ends-then (0 ∷ []) [] (Adds-add (0 ∷ [])) Ends-end))

-- A data writer with columns, and room for `n` more messages.
record IsOpen (columns : List Column) (n : ℕ) (d : DataWriter) : Type 0 where
  defined : d.columns ≡ some columns
  open_ : d.closed ≡ false
  room : n ≤ d.client.sink.accepts

announce_empty_lem :
    (columns : List Column) (d : DataWriter)
    → d.columns ≡ some columns
    → d.closed ≡ false
    → announce_empty d ≡ (ok tt, record d { closed = d.written == 0 })
unfolding announce_empty empty close
announce_empty_lem columns d defined open_ = ground (arith, defined, open_)

complete_lem :
    (columns : List Column) (tag : Bytes) (d : DataWriter)
    → IsOpen columns 1 d
    → ((complete tag d).0 ≡ ok tt)
      × ((complete tag d).1.client.sink ≡ record (d.client.sink) {
        sent = d.client.sink.sent ++ server_message server_command_complete (tag ++ 0 ∷ []) ∷ [];
        accepts = d.client.sink.accepts - 1;
      })
unfolding complete finish close
complete_lem columns tag d h =
    rw (announce_empty_lem columns d h.defined h.open_, h.open_)
      (sends (command_complete-Emits tag) d.client h.room)

sent_all :
    (t : Sink) (m : Bytes) (ms : List Bytes) (last : Bytes) (n : ℕ)
    → record t { sent = ((t.sent ++ m ∷ []) ++ ms) ++ last ∷ []; accepts = t.accepts - 1 - n - 1 }
      ≡ record t { sent = t.sent ++ m ∷ (ms ++ last ∷ []); accepts = t.accepts - (n + 2) }
sent_all t m ms last n i = record t { sent = regrouped i; accepts = fewer i }
  where
    regrouped : ((t.sent ++ m ∷ []) ++ ms) ++ last ∷ [] ≡ t.sent ++ m ∷ (ms ++ last ∷ [])
    regrouped =
        append_assoc (t.sent ++ m ∷ []) ms (last ∷ [])
        ∙ append_assoc t.sent (m ∷ []) (ms ++ last ∷ [])

    fewer : t.accepts - 1 - n - 1 ≡ t.accepts - (n + 2)
    fewer = omega arith

module _ {V : Type 0} (ctx : Context V) (columns : List Column) where
  row_lem :
      (n : ℕ) (srcs : List (Option V)) (cells : List Bytes) (d : DataWriter)
      → AreCells ctx columns srcs cells
      → IsOpen columns (suc n) d
      → ((row ctx srcs d).0 ≡ ok tt)
        × IsOpen columns n (row ctx srcs d).1
        × ((row ctx srcs d).1.client.sink ≡ record (d.client.sink) {
          sent = d.client.sink.sent ++ data_rows columns (srcs ∷ []) (cells ∷ []);
          accepts = d.client.sink.accepts - 1;
        })
  unfolding row
  row_lem n srcs cells d h o =
      let (e, s) =
        sends (write_columns-Emits ctx columns srcs cells h) d.client (omega (arith, o.room)) in
      rw (o.open_, o.defined)
        (e, record { defined = o.defined; open_ = o.open_; room = rw s (omega (arith, o.room)) }, s)

  -- The rows are sent, and the statement goes on.
  record Sent (k : Script V) (values : List (List (Option V))) (encoded : List (List Bytes))
      (d : DataWriter) : Type 0 where
    after_rows : DataWriter
    goes_on : run_script ctx (each_row values k) d ≡ run_script ctx k after_rows
    still_open : IsOpen columns 1 after_rows
    sent : after_rows.client.sink ≡ record (d.client.sink) {
      sent = d.client.sink.sent ++ data_rows columns values encoded;
      accepts = d.client.sink.accepts - length values;
    }

  each_row-Sent :
      {values : List (List (Option V))} {encoded : List (List Bytes)} (k : Script V)
      (d : DataWriter)
      → AreRows ctx columns values encoded
      → IsOpen columns (length values + 1) d
      → Sent k values encoded d
  unfolding each_row run_script
  each_row-Sent k d no_rows o = record {
    after_rows = d;
    goes_on = refl;
    still_open = o;
    sent = ground (arith, append-nil d.client.sink.sent);
  }
  each_row-Sent k d (one_row {srcs} {cells} {more} {encoded} h hs) o =
      let (e, o', s) =
        row_lem (length more + 1) srcs cells d h
          (record { defined = o.defined; open_ = o.open_; room = omega (arith, o.room) }) in
      let d' = (row ctx srcs d).1 in
      let next = each_row-Sent k d' hs o' in
      record {
        after_rows = next.after_rows;
        goes_on =
            ap (λ (r : Result (Unit {0})). answer (r, d') (λ x. run_script ctx (each_row more k))) e
            ∙ next.goes_on;
        still_open = next.still_open;
        sent =
            next.sent
            ∙ ap
                (λ (t : Sink). record t {
                  sent = t.sent ++ data_rows columns more encoded;
                  accepts = t.accepts - length more;
                })
                s
            ∙ sent_both d.client.sink
                (server_message server_data_row
                  (put_uint16 (length columns % 65536) ++ encode_cells srcs cells))
                (data_rows columns more encoded) (length more);
      }

module _ {V : Type 0} (ctx : Context V) (column : Column) (others : List Column) (tag : Bytes) where
  abbrev columns : List Column
  columns = column ∷ others

  -- The data writer behind `Define`.
  abbrev described : DataWriter → DataWriter
  described d = (define (some columns) d).1

  -- A statement that defines at least one column, sends rows that the columns encode and completes with a
  -- tag, on a connection that takes all of it: it succeeds, and the client is sent one RowDescription,
  -- one DataRow for each row in order, and CommandComplete with the tag.
  pub send_table-sends :
      (values : List (List (Option V))) (encoded : List (List Bytes)) (w : Writer)
      → AreRows ctx columns values encoded
      → length values + 2 ≤ w.sink.accepts
      → let p = run_script ctx (send_table columns values tag) (new_data_writer w) in
        (p.0 ≡ ok tt)
        × (p.1.client.sink ≡ record (w.sink) {
          sent = w.sink.sent ++ table_messages columns values encoded tag;
          accepts = w.sink.accepts - (length values + 2);
        })
  unfolding run_script define new_data_writer
  send_table-sends values encoded w h room =
      let d = described (new_data_writer w) in
      let (e, s) = sends (define_columns-Emits column others) w (omega (arith, room)) in
      let o : IsOpen columns (length values + 1) d = record {
        defined = refl;
        open_ = refl;
        room = rw s (omega (arith, room));
      } in
      let k : Script V = completes tag (λ e'. returns e') in
      let sent = each_row-Sent ctx columns k d h o in
      let d' = sent.after_rows in
      let (c, t) = complete_lem columns tag d' sent.still_open in
      let run : run_script ctx (send_table columns values tag) (new_data_writer w)
          ≡ (ok tt, (complete tag d').1) =
        ap (λ (r : Result (Unit {0})). answer (r, d) (λ x. run_script ctx (each_row values k))) e
        ∙ sent.goes_on
        ∙ ap
            (λ (r : Result (Unit {0})).
              answer (r, (complete tag d').1) (λ x. run_script ctx (returns x)))
            c in
      let rest = data_rows columns values encoded in
      let last = server_message server_command_complete (tag ++ 0 ∷ []) in
      (
        ap (λ (p : Result (Unit {0}) × DataWriter). p.0) run,
        ap (λ (p : Result (Unit {0}) × DataWriter). p.1.client.sink) run
            ∙ t
            ∙ ap (λ (u : Sink). record u { sent = u.sent ++ last ∷ []; accepts = u.accepts - 1 })
                sent.sent
            ∙ ap
                (λ (u : Sink). record u {
                  sent = (u.sent ++ rest) ++ last ∷ [];
                  accepts = u.accepts - length values - 1;
                })
                s
            ∙ sent_all w.sink
                (server_message server_row_description
                  (put_uint16 (length columns % 65536) ++ column_descriptions columns))
                rest last (length values),
      )
