-- ===== src/Wire/DataWriter/Returning.antt =====
-- Every call of the data writer comes back, and so does every statement.
use psql_wire.Base.{
  Bytes, List, Option, Option-cases, [], arith, inl, inr, length, none, refl, some, ℕ, ◌==◌, ◌∷◌,
  ◌≡◌, ◌≢◌,
}
use psql_wire.Buffer.Writer.{add_bytes, add_int16, add_int32, add_null_terminate, add_string}
use psql_wire.Buffer.Writer.Returning.{add-Returns, end-Returns, start-Returns, writer_rules}
use psql_wire.Errors.{Error}
use psql_wire.Exec.{Exec, Result, err, ok, panic, stuck}
use psql_wire.Exec.Tame.{
  Returns, Returns-at, Tame-bind, Tame-check, Tame-if, Tame-lift, Tame-pure, Tame-raise, Tame-then,
  if-ne-stuck, tame_rules,
}
use psql_wire.Wire.Context.{ConnInfo, Context, DataType}
use psql_wire.Wire.DataWriter.{
  DataWriter, Script, announce_empty, answer, asks_written, columns_or_none, command_complete,
  complete, completes, crashes, define, defines, empties, empty, finish, returns, row, rows,
  run_script,
}
use psql_wire.Wire.Row.{
  Column, define_column, define_columns, define_each, encoder, write_column, write_columns,
  write_each, write_typed, write_with,
}

-- `stuck` is no Go value, so that no callback answers it.
pub record IsTypes {V : Type 0} (ci : ConnInfo V) : Type 0 where
  pub encode_text :
      (oid : ℕ) (d : DataType V) (v : Option V)
      → ci.data_type_for_oid oid ≡ some d
      → d.encode_text v ≢ stuck
  pub encode_binary :
      (oid : ℕ) (d : DataType V) (v : Option V)
      → ci.data_type_for_oid oid ≡ some d
      → d.encode_binary v ≢ stuck

pub record IsContext {V : Type 0} (ctx : Context V) : Type 0 where
  pub types : (ci : ConnInfo V) → ctx.type_info ≡ some ci → IsTypes ci

ruleset returning_rules = (tame_rules, writer_rules)

define_column-Returns : (column : Column) → Returns (define_column column)
unfolding define_column add_string add_null_terminate add_int32 add_int16
define_column-Returns column = search returning_rules depth 20

define_each-Returns : (columns : List Column) → Returns (define_each columns)
unfolding define_each
define_each-Returns [] = Tame-pure 0
define_each-Returns (column ∷ columns) =
    Tame-then (define_column-Returns column) (define_each-Returns columns)

define_columns-Returns : (columns : List Column) → Returns (define_columns columns)
unfolding define_columns add_int16
define_columns-Returns [] = Tame-pure tt
define_columns-Returns (column ∷ columns) =
    Tame-then (start-Returns _)
      (Tame-then (add-Returns _) (Tame-then (define_each-Returns (column ∷ columns)) end-Returns))

command_complete-Returns : (description : Bytes) → Returns (command_complete description)
unfolding command_complete add_string add_null_terminate
command_complete-Returns description = search returning_rules depth 8

encoder-ne-stuck :
    {V : Type 0} (code : ℕ) (d : DataType V) (src : Option V)
    → (d.encode_text src ≢ stuck) × (d.encode_binary src ≢ stuck)
    → encoder code d src ≢ stuck
unfolding encoder
encoder-ne-stuck code d src h = ground (arith, h.0, h.1)

write_typed-Returns :
    {V : Type 0} (column : Column) (typed : Option (DataType V)) (src : Option V)
    → ((d : DataType V)
        → typed ≡ some d
        → (d.encode_text src ≢ stuck) × (d.encode_binary src ≢ stuck))
    → Returns (write_typed column typed src)
unfolding write_typed add_int32 add_bytes
write_typed-Returns column none src h = Tame-raise _
write_typed-Returns column (some typed) src h = Tame-then (Tame-check (typed.set src)) (
    Tame-bind _ (λ bytes. Tame-then (add-Returns _) (Tame-then (add-Returns _) (Tame-pure tt)))
      (Tame-lift (encoder column.format typed src)
        (encoder-ne-stuck column.format typed src (h typed refl))))

-- The field `type_info` of the context, matched.
write_with-Returns :
    {V : Type 0} (info : Option (ConnInfo V)) (column : Column) (src : Option V)
    → ((ci : ConnInfo V) → info ≡ some ci → IsTypes ci)
    → Returns (write_with info column src)
unfolding write_with
write_with-Returns none column src h = Tame-raise _
write_with-Returns (some ci) column src h =
    write_typed-Returns column (ci.data_type_for_oid column.oid) src (λ d e.
      ((h ci refl).encode_text column.oid d src e, (h ci refl).encode_binary column.oid d src e))

module _ {V : Type 0} (ctx : Context V) (total : IsContext ctx) where
  write_column-Returns : (column : Column) (src : Option V) → Returns (write_column ctx column src)
  unfolding write_column
  write_column-Returns column src =
      Tame-then (Tame-check ctx.cancelled) (write_with-Returns ctx.type_info column src total.types)

  write_each-Returns :
      (columns : List Column) (srcs : List (Option V)) → Returns (write_each ctx columns srcs)
  unfolding write_each
  write_each-Returns (column ∷ columns) (src ∷ srcs) =
      Tame-then (write_column-Returns column src) (write_each-Returns columns srcs)
  write_each-Returns _ _ = Tame-pure tt

  write_columns-Returns :
      (columns : List Column) (srcs : List (Option V)) → Returns (write_columns ctx columns srcs)
  unfolding write_columns add_int16
  write_columns-Returns columns srcs =
      Tame-if (length srcs == length columns)
        (Tame-then (start-Returns _)
          (Tame-then (add-Returns _) (Tame-then (write_each-Returns columns srcs) end-Returns)))
        (Tame-raise _)

  define-ne-stuck : (columns : Option (List Column)) (d : DataWriter) → (define columns d).0 ≢ stuck
  unfolding define
  define-ne-stuck columns d =
      ground (arith, (define_columns-Returns (columns_or_none columns)).returns d.client tt)

  row-ne-stuck : (values : List (Option V)) (d : DataWriter) → (row ctx values d).0 ≢ stuck
  unfolding row
  row-ne-stuck values d = elim (Option-cases d.columns) [
    | inl e ↦ ground arith
    | inr (columns, e) ↦ ground (arith, (write_columns-Returns columns values).returns d.client tt)
  ]

  empty-ne-stuck : (d : DataWriter) → (empty d).0 ≢ stuck
  unfolding empty
  empty-ne-stuck d = ground arith

  announce_empty-Returns : Returns announce_empty
  unfolding announce_empty
  announce_empty-Returns = Returns-at (λ d. ground (arith, empty-ne-stuck d))

  finish-Returns : (description : Bytes) → Returns (finish description)
  unfolding finish
  finish-Returns description =
      Returns-at (λ d. (command_complete-Returns description).returns d.client tt)

  complete-ne-stuck : (description : Bytes) (d : DataWriter) → (complete description d).0 ≢ stuck
  unfolding complete
  complete-ne-stuck description d =
      if-ne-stuck d.closed _ _ (λ p. cc)
        ((Tame-then announce_empty-Returns (finish-Returns description)).returns d tt)

  answer-ne-stuck :
      (p : Result (Unit {0}) × DataWriter) (f : Option Error → Exec DataWriter (Unit {0}))
      → p.0 ≢ stuck
      → ((e : Option Error) (d : DataWriter) → (f e d).0 ≢ stuck)
      → (answer p f).0 ≢ stuck
  answer-ne-stuck (ok a, d) f h k = k none d
  answer-ne-stuck (err e, d) f h k = k (some e) d
  answer-ne-stuck (panic, d) f h k = λ p. cc
  answer-ne-stuck (stuck, d) f h k = absurd (h refl)

  -- Whatever calls a statement makes, and whatever their answers, it comes back, if the encoders of
  -- the context's data types do.
  pub run_script-ne-stuck : (s : Script V) (d : DataWriter) → (run_script ctx s d).0 ≢ stuck
  unfolding run_script
  run_script-ne-stuck (returns none) d = λ p. cc
  run_script-ne-stuck (returns (some e)) d = λ p. cc
  run_script-ne-stuck crashes d = λ p. cc
  run_script-ne-stuck (defines columns k) d =
      answer-ne-stuck _ _ (define-ne-stuck columns d) (λ e. run_script-ne-stuck (k e))
  run_script-ne-stuck (rows values k) d =
      answer-ne-stuck _ _ (row-ne-stuck values d) (λ e. run_script-ne-stuck (k e))
  run_script-ne-stuck (empties k) d =
      answer-ne-stuck _ _ (empty-ne-stuck d) (λ e. run_script-ne-stuck (k e))
  run_script-ne-stuck (completes description k) d =
      answer-ne-stuck _ _ (complete-ne-stuck description d) (λ e. run_script-ne-stuck (k e))
  run_script-ne-stuck (asks_written k) d = run_script-ne-stuck (k d.written) d
