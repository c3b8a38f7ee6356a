-- ===== src/Wire/Row/Cells.antt =====
-- The cells of a DataRow, and a client that reads them.
use psql_wire.Base.{
  ==_iff, Bytes, List, Option, [], ap, append-nil, append_assoc, arith, drop, drop-append_length,
  false, ge→ltb, if◌then◌else◌, length, length-append, ltb, none, refl, some, subst, suc, take,
  take-append_length, zero, ℕ, ◌%◌, ◌++◌, ◌<◌, ◌==◌, ◌∙◌, ◌∷◌, ◌≡◌, ◌≤◌,
}
use psql_wire.Buffer.Stream.{Sink}
use psql_wire.Buffer.Words.{
  put_uint16, put_uint32, uint16, uint16-put_uint16, uint32, uint32-put_uint32,
}
use psql_wire.Buffer.Writer.{Writer, add_bytes, add_int16, add_int32, end}
use psql_wire.Buffer.Writer.Emits.{Emits, sends}
use psql_wire.Buffer.Writer.Framing.{
  Adds, Adds-add, Adds-then, Emits-message, Ends, Ends-end, Ends-then, server_message,
}
use psql_wire.Exec.{ok, ◌>>◌}
use psql_wire.Messages.{server_data_row}
use psql_wire.Wire.Context.{ConnInfo, Context, DataType}
use psql_wire.Wire.Response.Sent.{Adds-pure}
use psql_wire.Wire.Row.{
  Column, encoder, value_length, write_column, write_columns, write_each, write_typed, write_with,
}

-- What `Column.Write` needs for a value: a live context that knows the column's type, a type that takes
-- the value, and an encoding of it, which is empty for nil.
pub record IsCell {V : Type 0} (ctx : Context V) (column : Column) (src : Option V) (bytes : Bytes)
    : Type 0 where
  pub live : ctx.cancelled ≡ none
  pub ci : ConnInfo V
  pub typed : DataType V
  pub known : ctx.type_info ≡ some ci
  pub found : ci.data_type_for_oid column.oid ≡ some typed
  pub accepted : typed.set src ≡ none
  pub encoded : encoder column.format typed src ≡ ok bytes
  pub fits : length bytes < 4294967295
  pub null_is_empty : src ≡ none → bytes ≡ []

-- One encoding for each column and value.
pub data AreCells {V : Type 0} (ctx : Context V)
    : List Column → List (Option V) → List Bytes → Type 0 where
  no_cells : AreCells ctx [] [] []
  one_cell :
      {column : Column} {src : Option V} {bytes : Bytes} {columns : List Column}
      {srcs : List (Option V)} {cells : List Bytes}
      → IsCell ctx column src bytes
      → AreCells ctx columns srcs cells
      → AreCells ctx (column ∷ columns) (src ∷ srcs) (bytes ∷ cells)

unfoldable pub encode_cells : {V : Type 0} → List (Option V) → List Bytes → Bytes
encode_cells (src ∷ srcs) (bytes ∷ cells) =
    put_uint32 (value_length src bytes) ++ (bytes ++ encode_cells srcs cells)
encode_cells _ _ = []

module _ {V : Type 0} (ctx : Context V) where
  write_column-Adds :
      (column : Column) (src : Option V) (bytes : Bytes)
      → IsCell ctx column src bytes
      → Adds (write_column ctx column src) (put_uint32 (value_length src bytes) ++ bytes)
  unfolding write_column write_with write_typed add_int32 add_bytes
  write_column-Adds column src bytes h = record {
    at = λ w q.
        let size = put_uint32 (value_length src bytes) in
        let (n, e) =
          (Adds-then size _ (Adds-add size) (Adds-then bytes [] (Adds-add bytes) (Adds-pure tt))).at
            w q in
        (
          tt,
          rw (h.live, h.known, h.found, h.accepted, h.encoded)
              (e
                ∙ ap (λ (b : Bytes). (ok tt, record w { frame = w.frame ++ (size ++ b) }))
                    (append-nil bytes)),
        );
  }

  write_each-Adds :
      {columns : List Column} {srcs : List (Option V)} {cells : List Bytes}
      → AreCells ctx columns srcs cells
      → Adds (write_each ctx columns srcs) (encode_cells srcs cells)
  unfolding write_each encode_cells
  write_each-Adds no_cells = Adds-pure tt
  write_each-Adds (one_cell {column} {src} {bytes} {columns} {srcs} {cells} h hs) =
      subst (Adds (write_each ctx (column ∷ columns) (src ∷ srcs)))
        (append_assoc (put_uint32 (value_length src bytes)) bytes (encode_cells srcs cells))
        (Adds-then (put_uint32 (value_length src bytes) ++ bytes) (encode_cells srcs cells)
          (write_column-Adds column src bytes h) (write_each-Adds hs))

  pub same_length :
      {columns : List Column} {srcs : List (Option V)} {cells : List Bytes}
      → AreCells ctx columns srcs cells
      → length srcs ≡ length columns
  same_length no_cells = refl
  same_length (one_cell h hs) = ap suc (same_length hs)

  -- `Columns.Write` of values that their columns encode sends one DataRow: the number of columns in 16
  -- bits, and for each value its length, or -1 for nil, and its encoding.
  pub write_columns-Emits :
      (columns : List Column) (srcs : List (Option V)) (cells : List Bytes)
      → AreCells ctx columns srcs cells
      → Emits (write_columns ctx columns srcs) (
          server_message server_data_row
            (put_uint16 (length columns % 65536) ++ encode_cells srcs cells)
          ∷ [])
  unfolding write_columns add_int16
  write_columns-Emits columns srcs cells h =
      let n = put_uint16 (length columns % 65536) in
      let d = encode_cells srcs cells in
      rw ((==_iff _ _).1 (same_length h)) (
        Emits-message server_data_row (n ++ d) (
          Ends-then n d (Adds-add n) (
            subst (Ends (write_each ctx columns srcs >> end)) (append-nil d)
              (Ends-then d [] (write_each-Adds h) Ends-end))))

abbrev pub before {ℓ} : {A : Type ℓ} → A → Option (List A) → Option (List A)
before a none = none
before a (some xs) = some (a ∷ xs)

-- A client reads `n` cells, and none of them is cut short; -1 is NULL.
unfoldable pub decode_cells : ℕ → Bytes → Option (List (Option Bytes))
decode_cells zero [] = some []
decode_cells zero (b ∷ s) = none
decode_cells (suc n) s =
    let rest = drop 4 s in
    let size = uint32 s in
    let skipped = decode_cells n rest in
    let more = decode_cells n (drop size rest) in
    if ltb (length s) 4
    then none
    else if size == 0xffffffff
    then before none skipped
    else if ltb (length rest) size
    then none
    else before (some (take size rest)) more

-- The body of a DataRow.
unfoldable pub decode_row : Bytes → Option (List (Option Bytes))
unfolding decode_cells
decode_row s = if ltb (length s) 2 then none else decode_cells (uint16 s) (drop 2 s)

-- What the client is to see of the values.
abbrev pub seen : {V : Type 0} → List (Option V) → List Bytes → List (Option Bytes)
seen (none ∷ srcs) (bytes ∷ cells) = none ∷ seen srcs cells
seen (some v ∷ srcs) (bytes ∷ cells) = some bytes ∷ seen srcs cells
seen _ _ = []

module _ {V : Type 0} (ctx : Context V) where
  decode_cells-encode :
      {columns : List Column} {srcs : List (Option V)} {cells : List Bytes}
      → AreCells ctx columns srcs cells
      → decode_cells (length columns) (encode_cells srcs cells) ≡ some (seen srcs cells)
  unfolding decode_cells encode_cells value_length put_uint32
  decode_cells-encode no_cells = refl
  decode_cells-encode (one_cell {src = none} {bytes} {columns} {srcs} {cells} h hs) =
      let rest = encode_cells srcs cells in
      rw
        (
          ge→ltb (length (put_uint32 0xffffffff ++ (bytes ++ rest))) 4 (omega arith),
          uint32-put_uint32 0xffffffff (bytes ++ rest),
          h.null_is_empty refl,
          decode_cells-encode hs,
        )
        refl
  decode_cells-encode (one_cell {src = some v} {bytes} {columns} {srcs} {cells} h hs) =
      let rest = encode_cells srcs cells in
      let size : length bytes % 4294967296 % 4294967296 ≡ length bytes = omega (arith, h.fits) in
      let proper : (length bytes == 0xffffffff) ≡ false = ground (arith, h.fits) in
      let whole : ltb (length (bytes ++ rest)) (length bytes) ≡ false =
        ge→ltb (length (bytes ++ rest)) (length bytes) (omega (arith, length-append bytes rest)) in
      rw
        (
          ge→ltb (length (put_uint32 (length bytes % 4294967296) ++ (bytes ++ rest))) 4
              (omega arith),
          uint32-put_uint32 (length bytes % 4294967296) (bytes ++ rest),
          size,
          proper,
          whole,
          take-append_length bytes rest,
          drop-append_length bytes rest,
          decode_cells-encode hs,
        )
        refl

  -- The DataRow that `Columns.Write` sends gives a client back, for fewer than 65536 columns, exactly
  -- the encodings of the values that are not nil and NULL for those that are, in order.
  pub write_columns-decode_row :
      (columns : List Column) (srcs : List (Option V)) (cells : List Bytes) (w : Writer)
      → AreCells ctx columns srcs cells
      → length columns < 65536
      → 1 ≤ w.sink.accepts
      → (body : Bytes) × ((write_columns ctx columns srcs w).0 ≡ ok tt)
        × ((write_columns ctx columns srcs w).1.sink.sent
            ≡ w.sink.sent ++ server_message server_data_row body ∷ [])
        × (decode_row body ≡ some (seen srcs cells))
  unfolding decode_row
  write_columns-decode_row columns srcs cells w h few room =
      let (e, s) = sends (write_columns-Emits ctx columns srcs cells h) w room in
      let n = length columns % 65536 in
      let small : n % 65536 ≡ length columns = omega (arith, few) in
      (
        put_uint16 n ++ encode_cells srcs cells,
        e,
        ap (λ (t : Sink). t.sent) s,
        rw
            (
              ge→ltb (length (put_uint16 n ++ encode_cells srcs cells)) 2
                  (unfold put_uint16 in omega arith),
              uint16-put_uint16 n (encode_cells srcs cells),
              small,
            )
            (unfold put_uint16 in decode_cells-encode h),
      )
