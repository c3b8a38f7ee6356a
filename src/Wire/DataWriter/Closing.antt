-- ===== src/Wire/DataWriter/Closing.antt =====
-- A data writer that is closed stays closed.
use psql_wire.Base.{Bytes, List, Option, arith, none, refl, some, true, ◌≡◌}
use psql_wire.Errors.{closed_writer}
use psql_wire.Exec.{err, ok}
use psql_wire.Wire.Context.{Context}
use psql_wire.Wire.DataWriter.{
  DataWriter, Script, asks_written, close, complete, completes, crashes, define, defines, empties,
  empty, returns, row, rows, run_script,
}
use psql_wire.Wire.Row.{Column}

define-closed :
    (columns : Option (List Column)) (d : DataWriter)
    → d.closed ≡ true
    → define columns d ≡ (err closed_writer, d)
unfolding define
define-closed columns d h = ground (arith, h)

row-closed :
    {V : Type 0} (ctx : Context V) (values : List (Option V)) (d : DataWriter)
    → d.closed ≡ true
    → row ctx values d ≡ (err closed_writer, d)
unfolding row
row-closed ctx values d h = ground (arith, h)

empty-closed : (d : DataWriter) → d.closed ≡ true → empty d ≡ (err closed_writer, d)
unfolding empty
empty-closed d h = ground (arith, h)

complete-closed :
    (description : Bytes) (d : DataWriter)
    → d.closed ≡ true
    → complete description d ≡ (err closed_writer, d)
unfolding complete
complete-closed description d h = ground (arith, h)

module _ {V : Type 0} (ctx : Context V) where
  -- A closed data writer is not changed by any statement, and nothing more is sent through it.
  pub run_script-closed :
      (script : Script V) (d : DataWriter) → d.closed ≡ true → (run_script ctx script d).1 ≡ d
  unfolding run_script
  run_script-closed (returns none) d h = refl
  run_script-closed (returns (some e)) d h = refl
  run_script-closed crashes d h = refl
  run_script-closed (defines columns k) d h =
      rw (define-closed columns d h) (run_script-closed (k (some closed_writer)) d h)
  run_script-closed (rows values k) d h =
      rw (row-closed ctx values d h) (run_script-closed (k (some closed_writer)) d h)
  run_script-closed (empties k) d h =
      rw (empty-closed d h) (run_script-closed (k (some closed_writer)) d h)
  run_script-closed (completes description k) d h =
      rw (complete-closed description d h) (run_script-closed (k (some closed_writer)) d h)
  run_script-closed (asks_written k) d h = run_script-closed (k d.written) d h

-- Behind an `Empty` that succeeds, `Complete` fails: no CommandComplete is sent.
pub complete-empty :
    (description : Bytes) (d : DataWriter)
    → (empty d).0 ≡ ok tt
    → complete description (empty d).1 ≡ (err closed_writer, record d { closed = true })
unfolding empty complete close
complete-empty description d h = ground (arith, h)
