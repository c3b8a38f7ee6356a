-- ===== src/Wire/Row/Described.antt =====
-- RowDescription, and the cells of a DataRow.
use psql_wire.Base.{
  Bytes, List, [], ap, append-nil, arith, false, length, none, some, subst, ◌%◌, ◌++◌, ◌==◌, ◌∙◌,
  ◌∷◌, ◌≡◌, ◌≢◌,
}
use psql_wire.Buffer.Words.{put_uint16, put_uint32}
use psql_wire.Buffer.Writer.{add_bytes, add_int16, add_int32, add_null_terminate, add_string, end}
use psql_wire.Buffer.Writer.Emits.{Emits}
use psql_wire.Buffer.Writer.Framing.{
  Adds, Adds-add, Adds-then, Emits-message, Ends, Ends-end, Ends-then, server_message,
}
use psql_wire.Exec.{ok, ◌>>◌}
use psql_wire.Messages.{server_row_description}
use psql_wire.Wire.Context.{DataType}
use psql_wire.Wire.Response.Sent.{Adds-pure}
use psql_wire.Wire.Row.{
  Column, binary_format, define_column, define_columns, define_each, encoder, text_format,
  unknown_encoder, value_length, write_typed,
}

-- A column in a RowDescription; the type modifier is always -1.
abbrev pub column_description : Column → Bytes
column_description column =
    column.name
    ++ (0 ∷ []
        ++ (put_uint32 column.table
            ++ (put_uint16 column.attr_no
                ++ (put_uint32 column.oid
                    ++ (put_uint16 column.width
                        ++ (put_uint32 0xffffffff ++ put_uint16 column.format))))))

pub column_descriptions : List Column → Bytes
column_descriptions [] = []
column_descriptions (column ∷ columns) = column_description column ++ column_descriptions columns

define_column-Adds : (column : Column) → Adds (define_column column) (column_description column)
unfolding define_column add_string add_null_terminate add_int32 add_int16
define_column-Adds column = Adds-then column.name _ (Adds-add column.name) (
    Adds-then (0 ∷ []) _ (Adds-add (0 ∷ [])) (
      Adds-then (put_uint32 column.table) _ (Adds-add (put_uint32 column.table)) (
        Adds-then (put_uint16 column.attr_no) _ (Adds-add (put_uint16 column.attr_no)) (
          Adds-then (put_uint32 column.oid) _ (Adds-add (put_uint32 column.oid)) (
            Adds-then (put_uint16 column.width) _ (Adds-add (put_uint16 column.width)) (
              Adds-then (put_uint32 0xffffffff) (put_uint16 column.format)
                (Adds-add (put_uint32 0xffffffff)) (Adds-add (put_uint16 column.format))))))))

define_each-Adds :
    (columns : List Column) → Adds (define_each columns) (column_descriptions columns)
unfolding define_each column_descriptions
define_each-Adds [] = Adds-pure 0
define_each-Adds (column ∷ columns) =
    Adds-then (column_description column) (column_descriptions columns) (define_column-Adds column)
      (define_each-Adds columns)

-- `Columns.Define` of at least one column sends one RowDescription: the number of columns in 16
-- bits, and the columns in order.
pub define_columns-Emits :
    (column : Column) (columns : List Column)
    → Emits (define_columns (column ∷ columns)) (
        server_message server_row_description
          (put_uint16 (length (column ∷ columns) % 65536) ++ column_descriptions (column ∷ columns))
        ∷ [])
unfolding define_columns add_int16
define_columns-Emits column columns =
    let n = put_uint16 (length (column ∷ columns) % 65536) in
    let d = column_descriptions (column ∷ columns) in
    Emits-message server_row_description (n ++ d) (
      Ends-then n d (Adds-add n) (
        subst (Ends (define_each (column ∷ columns) >> end)) (append-nil d)
          (Ends-then d [] (define_each-Adds (column ∷ columns)) Ends-end)))

-- A value that is not nil in a column with a format code that is neither text nor binary, where the
-- data type takes the value: the cell goes out as an empty value, and no error is reported.
pub write_typed-unknown :
    {V : Type 0} (column : Column) (typed : DataType V) (v : V)
    → column.format ≢ text_format
    → column.format ≢ binary_format
    → typed.set (some v) ≡ none
    → Adds (write_typed column (some typed) (some v)) (put_uint32 0)
unfolding write_typed encoder unknown_encoder value_length add_int32 add_bytes
write_typed-unknown column typed v no_text no_binary accepted = record {
  at = λ w h.
      let t : (column.format == text_format) ≡ false = ground arith in
      let b : (column.format == binary_format) ≡ false = ground arith in
      let (n, e) =
        (Adds-then (put_uint32 0) [] (Adds-add (put_uint32 0))
            (Adds-then [] [] (Adds-add []) (Adds-pure tt))).at
          w h in
      (
        tt,
        rw (accepted, t, b)
            (e
              ∙ ap (λ (b : Bytes). (ok tt, record w { frame = w.frame ++ b }))
                  (append-nil (put_uint32 0))),
      );
}
