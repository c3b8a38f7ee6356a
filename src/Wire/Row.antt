-- ===== src/Wire/Row.antt =====
-- row.go and format.go. Integers of 16 and 32 bits are bit patterns.
pub mod Described
pub mod Cells
use psql_wire.Base.{
  Bytes, List, Option, [], codes, decimal, if◌then◌else◌, length, none, some, ℕ, ◌%◌, ◌++◌, ◌==◌,
  ◌∷◌,
}
use psql_wire.Buffer.Writer.{
  Writer, add_bytes, add_int16, add_int32, add_null_terminate, add_string, end, start,
}
use psql_wire.Errors.{Error, text}
use psql_wire.Exec.{Exec, Result, check, lift, ok, pure, raise, ◌>>=◌, ◌>>◌}
use psql_wire.Messages.{server_data_row, server_row_description}
use psql_wire.Wire.Context.{ConnInfo, Context, DataType}

pub record Column : Type 0 where
  pub table : ℕ
  pub name : Bytes
  pub attr_no : ℕ
  pub oid : ℕ
  pub width : ℕ
  pub type_modifier : ℕ
  pub format : ℕ

abbrev pub text_format : ℕ
text_format = 0

abbrev pub binary_format : ℕ
binary_format = 1

-- `Column.Define`
unfoldable pub define_column : Column → Exec Writer ℕ
define_column column = do
  add_string column.name
  add_null_terminate
  add_int32 column.table
  add_int16 column.attr_no
  add_int32 column.oid
  add_int16 column.width
  add_int32 0xffffffff
  add_int16 column.format

unfoldable pub define_each : List Column → Exec Writer ℕ
unfolding define_column
define_each [] = pure 0
define_each (column ∷ columns) = do define_column column; define_each columns

-- `Columns.Define`
unfoldable pub define_columns : List Column → Exec Writer (Unit {0})
unfolding define_each
define_columns [] = pure tt
define_columns (column ∷ columns) = do
  start server_row_description
  add_int16 (length (column ∷ columns) % 65536)
  define_each (column ∷ columns)
  end

unfoldable pub unexpected_columns : ℕ → ℕ → Error
unexpected_columns defined given = text (
    codes "unexpected columns, "
    ++ (decimal defined
        ++ (codes " columns are defined inside the given table but "
            ++ (decimal given ++ codes " were given"))))

module _ {V : Type 0} where
  -- `unknownEncoderfunc`: the result `err` of the closure hides the parameter, and is nil.
  unfoldable pub unknown_encoder : Error → Option V → Result Bytes
  unknown_encoder e src = ok []

  -- `FormatCode.Encoder`
  unfoldable pub encoder : ℕ → DataType V → Option V → Result Bytes
  unfolding unknown_encoder
  encoder code typed src =
      if code == text_format
      then typed.encode_text src
      else if code == binary_format
      then typed.encode_binary src
      else unknown_encoder (text (codes "unknown format encoder " ++ decimal code)) src

  -- The length word of a value: -1 for nil.
  unfoldable pub value_length : Option V → Bytes → ℕ
  value_length none bytes = 0xffffffff
  value_length (some v) bytes = length bytes % 4294967296

  -- `Column.Write`, once the data type is looked up
  unfoldable pub write_typed : Column → Option (DataType V) → Option V → Exec Writer (Unit {0})
  unfolding encoder value_length
  write_typed column none src = raise (text (codes "unknown data type: wire.Column"))
  write_typed column (some typed) src = do
    check (typed.set src)
    bytes ← lift (encoder column.format typed src)
    add_int32 (value_length src bytes)
    add_bytes bytes
    pure tt

  -- `Column.Write`, with the connection info of the context
  unfoldable pub write_with : Option (ConnInfo V) → Column → Option V → Exec Writer (Unit {0})
  unfolding write_typed
  write_with none column src =
      raise (text (codes "postgres connection info has not been defined inside the given context"))
  write_with (some ci) column src = write_typed column (ci.data_type_for_oid column.oid) src

  -- `Column.Write`
  unfoldable pub write_column : Context V → Column → Option V → Exec Writer (Unit {0})
  unfolding write_with
  write_column ctx column src = do check ctx.cancelled; write_with ctx.type_info column src

  unfoldable pub write_each : Context V → List Column → List (Option V) → Exec Writer (Unit {0})
  unfolding write_column
  write_each ctx (column ∷ columns) (src ∷ srcs) = do
    write_column ctx column src
    write_each ctx columns srcs
  write_each ctx _ _ = pure tt

  -- `Columns.Write`
  unfoldable pub write_columns : Context V → List Column → List (Option V) → Exec Writer (Unit {0})
  unfolding write_each unexpected_columns
  write_columns ctx columns srcs =
      if length srcs == length columns
      then (do
        start server_data_row
        add_int16 (length columns % 65536)
        write_each ctx columns srcs
        end)
      else raise (unexpected_columns (length columns) (length srcs))
