-- ===== src/Buffer/Writer.antt =====
-- internal/buffer/writer.go
pub mod Emits
pub mod Framing
pub mod Returning
use psql_wire.Base.{
  Bool, Bytes, Option, [], codes, drop, if◌then◌else◌, length, none, some, ℕ, ◌++◌, ◌==◌, ◌∷◌,
}
use psql_wire.Buffer.Stream.{Sink, write}
use psql_wire.Buffer.Words.{put_uint16, put_uint32}
use psql_wire.Errors.{Error}
use psql_wire.Exec.{Exec, err, ok}

-- `putbuf` is an array of 64 bytes, by index; a new array holds zeroes. Growing the frame buffer
-- does not fail.
pub record Writer : Type 0 where
  pub sink : Sink
  pub frame : Bytes
  pub putbuf : ℕ → ℕ
  pub failed : Option Error

-- `NewWriter`
unfoldable pub new_writer : Sink → Writer
new_writer s = record { sink = s; frame = []; putbuf = λ i. 0; failed = none }

-- `Reset`
unfoldable pub reset_frame : Writer → Writer
reset_frame w = record w { frame = []; failed = none }

-- `Start`: the type byte and four bytes that `End` writes over.
unfoldable pub start : ℕ → Exec Writer (Unit {0})
unfolding reset_frame
start t w =
    let put : ℕ → ℕ = λ i. if i == 0 then t else w.putbuf i in
    let w' = reset_frame w in
    (
      ok tt,
      record w' { putbuf = put; frame = w'.frame ++ (put 0 ∷ put 1 ∷ put 2 ∷ put 3 ∷ put 4 ∷ []) },
    )

-- One write to the frame, unless an earlier one has failed: the number of bytes written.
unfoldable pub add : Bytes → Exec Writer ℕ
add bytes w = elim w.failed [
  | none ↦ (ok (length bytes), record w { frame = w.frame ++ bytes })
  | some e ↦ (ok 0, w)
]

-- `AddByte`
unfoldable pub add_byte : ℕ → Exec Writer ℕ
unfolding add
add_byte b = add (b ∷ [])

-- `AddInt16`
unfoldable pub add_int16 : ℕ → Exec Writer ℕ
unfolding add
add_int16 i = add (put_uint16 i)

-- `AddInt32`
unfoldable pub add_int32 : ℕ → Exec Writer ℕ
unfolding add
add_int32 i = add (put_uint32 i)

-- `AddBytes`
unfoldable pub add_bytes : Bytes → Exec Writer ℕ
unfolding add
add_bytes = add

-- `AddString`
unfoldable pub add_string : Bytes → Exec Writer ℕ
unfolding add
add_string = add

-- `AddNullTerminate`
unfoldable pub add_null_terminate : Exec Writer ℕ
unfolding add
add_null_terminate = add (0 ∷ [])

-- `binary.BigEndian.PutUint32(bytes[1:5], length)`. Every caller of `End` has called `Start`, so
-- the five bytes are there.
unfoldable pub put_length : Bytes → Bytes
put_length [] = []
put_length (t ∷ bytes) = t ∷ put_uint32 (length bytes) ++ drop 4 bytes

-- `End`; the deferred `Reset` runs on both paths.
unfoldable pub end : Exec Writer (Unit {0})
unfolding put_length reset_frame
end w = elim w.failed [
  | some e ↦ (err e, reset_frame w)
  | none ↦
      (let (r, s) = write (put_length w.frame) w.sink in (r, reset_frame (record w { sink = s })))
]

-- `EncodeBoolean`
unfoldable pub encode_boolean : Bool → Bytes
encode_boolean value = if value then codes "on" else codes "off"
