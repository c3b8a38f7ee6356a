-- ===== src/Wire/DataWriter.antt =====
-- writer.go: the data writer that a statement is handed, and the statement as the calls it makes.
pub mod Returning
pub mod Closing
pub mod Tables
use psql_wire.Base.{
  Bool, Bytes, List, Option, [], false, if◌then◌else◌, none, some, true, ℕ, ◌%◌, ◌+◌, ◌==◌,
}
use psql_wire.Buffer.Writer.{Writer, add_null_terminate, add_string, end, start}
use psql_wire.Errors.{Error, closed_writer, data_written, undefined_columns}
use psql_wire.Exec.{Exec, Result, err, ok, panic, stuck, ◌>>◌}
use psql_wire.Messages.{server_command_complete}
use psql_wire.Wire.Context.{Context}
use psql_wire.Wire.Row.{Column, define_columns, write_columns}

-- `columns`: a nil slice is `none`. `written` is a uint64.
pub record DataWriter : Type 0 where
  pub columns : Option (List Column)
  pub closed : Bool
  pub written : ℕ
  pub client : Writer

-- `NewDataWriter`; the context is an argument of the calls.
unfoldable pub new_data_writer : Writer → DataWriter
new_data_writer w = record { columns = none; closed = false; written = 0; client = w }

abbrev pub on_client : {A : Type 0} → Exec Writer A → Exec DataWriter A
on_client m d = let (r, w) = m d.client in (r, record d { client = w })

-- `close`
unfoldable pub close : DataWriter → DataWriter
close d = record d { closed = true }

-- `columns.Define`, where a nil slice has no columns
abbrev pub columns_or_none : Option (List Column) → List Column
columns_or_none none = []
columns_or_none (some columns) = columns

-- `Define`
unfoldable pub define : Option (List Column) → Exec DataWriter (Unit {0})
define columns d =
    if d.closed
    then (err closed_writer, d)
    else on_client (define_columns (columns_or_none columns)) (record d { columns = columns })

-- `Row`; the row is counted before it is written.
unfoldable pub row : {V : Type 0} → Context V → List (Option V) → Exec DataWriter (Unit {0})
row ctx values d = if d.closed then (err closed_writer, d) else elim d.columns [
  | none ↦ (err undefined_columns, d)
  | some columns ↦
      on_client (write_columns ctx columns values)
        (record d { written = (d.written + 1) % 18446744073709551616 })
]

-- `Empty`
unfoldable pub empty : Exec DataWriter (Unit {0})
unfolding close
empty d = if d.closed then (err closed_writer, d) else elim d.columns [
  | none ↦ (err undefined_columns, d)
  | some columns ↦ if d.written == 0 then (ok tt, close d) else (err data_written, d)
]

-- `commandComplete`
unfoldable pub command_complete : Bytes → Exec Writer (Unit {0})
command_complete description = do
  start server_command_complete
  add_string description
  add_null_terminate
  end

-- `if writer.written == 0 && writer.columns != nil { writer.Empty() }`
unfoldable pub announce_empty : Exec DataWriter (Unit {0})
unfolding empty
announce_empty d = elim d.columns [
  | none ↦ (ok tt, d)
  | some columns ↦ if d.written == 0 then empty d else (ok tt, d)
]

-- `defer writer.close(); return commandComplete(...)`
unfoldable pub finish : Bytes → Exec DataWriter (Unit {0})
unfolding command_complete close
finish description d = let (r, d') = on_client (command_complete description) d in (r, close d')

-- `Complete`
unfoldable pub complete : Bytes → Exec DataWriter (Unit {0})
unfolding announce_empty finish
complete description d =
    if d.closed then (err closed_writer, d) else (announce_empty >> finish description) d

-- What a `PreparedStatementFn` does with its data writer: it returns, panics, or makes a call and
-- goes on with what the call answers. A statement that never returns is not modelled.
pub data Script (V : Type 0) : Type 0 where
  returns : Option Error → Script V
  crashes : Script V
  defines : Option (List Column) → (Option Error → Script V) → Script V
  rows : List (Option V) → (Option Error → Script V) → Script V
  empties : (Option Error → Script V) → Script V
  completes : Bytes → (Option Error → Script V) → Script V
  asks_written : (ℕ → Script V) → Script V

-- The answer of a call, to the rest of the statement; a panic ends the statement.
abbrev pub answer :
    {B : Type 0}
    → Result (Unit {0}) × DataWriter
    → (Option Error → Exec DataWriter B)
    → Result B × DataWriter
answer (ok a, d) f = f none d
answer (err e, d) f = f (some e) d
answer (panic, d) f = (panic, d)
answer (stuck, d) f = (stuck, d)

module _ {V : Type 0} where
  unfoldable pub run_script : Context V → Script V → Exec DataWriter (Unit {0})
  run_script ctx (returns none) d = (ok tt, d)
  run_script ctx (returns (some e)) d = (err e, d)
  run_script ctx crashes d = (panic, d)
  run_script ctx (defines columns k) d = answer (define columns d) (λ e. run_script ctx (k e))
  run_script ctx (rows values k) d = answer (row ctx values d) (λ e. run_script ctx (k e))
  run_script ctx (empties k) d = answer (empty d) (λ e. run_script ctx (k e))
  run_script ctx (completes description k) d =
      answer (complete description d) (λ e. run_script ctx (k e))
  run_script ctx (asks_written k) d = run_script ctx (k d.written) d
