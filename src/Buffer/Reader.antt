-- ===== src/Buffer/Reader.antt =====
-- internal/buffer/reader.go
pub mod Values
pub mod Typed
pub mod Slurped
pub mod Bounded
pub mod Ends
use psql_wire.Base.{
  Bytes, Option, [], drop, if◌then◌else◌, length, ltb, negsuc, none, pos, replicate, some, sub_ℕ,
  suc, take, zero, ℕ, ℤ, ◌++◌, ◌+◌, ◌-◌, ◌==◌, ◌∷◌,
}
use psql_wire.Buffer.Failures.{
  new_insufficient_data, new_message_size_exceeded, new_missing_nul_terminator,
}
use psql_wire.Buffer.Stream.{Filled, Stream, read_byte, read_full}
use psql_wire.Buffer.Words.{uint16, uint32}
use psql_wire.Errors.{Error}
use psql_wire.Exec.{Exec, Result, err, ok, pure, stuck, ◌>>=◌, ◌>>◌}

abbrev pub default_buffer_size : ℕ
default_buffer_size = 16777216

-- `Buffer` is the stream. `Msg` is the part of the current message that is not read yet.
pub record Reader : Type 0 where
  pub buffer : Stream
  pub msg : Bytes
  pub max_message_size : ℕ

-- `NewReader`
unfoldable pub buffer_size : ℤ → ℕ
buffer_size (pos zero) = default_buffer_size
buffer_size (pos (suc n)) = suc n
buffer_size (negsuc n) = default_buffer_size

unfoldable pub new_reader : Stream → ℤ → Reader
unfolding buffer_size
new_reader s size = record { buffer = s; msg = []; max_message_size = buffer_size size }

-- `reset`: the message gets exactly `size` bytes. What they hold is never read before they are
-- filled, and spare capacity behind the old message is reused, never the old message.
unfoldable pub reset : ℕ → Reader → Reader
reset size r = record r { msg = replicate size 0 }

-- `copy` of the bytes that were read over the front of the message
abbrev pub fill : Bytes → Bytes → Bytes
fill bytes msg = bytes ++ drop (length bytes) msg

-- `io.ReadFull(reader.Buffer, reader.Msg)` with the message just set to `size` bytes.
unfoldable pub read_msg : ℕ → Reader → Option Error × ℕ × Reader
unfolding reset
read_msg size r =
    let f = read_full size r.buffer in
    let r' = reset size r in
    (f.failure, length f.bytes, record r' { buffer = f.left; msg = fill f.bytes r'.msg })

abbrev pub to_result {ℓ} : {A : Type ℓ} → Option Error → A → Result A
to_result none a = ok a
to_result (some e) a = err e

-- The length word counts itself: `size -= 4` on an int.
abbrev pub body_size : Bytes → ℤ
body_size header = sub_ℕ (uint32 header) 4

abbrev pub read_body : ℤ → Exec Reader ℕ
read_body (negsuc n) r = (err (new_message_size_exceeded r.max_message_size (negsuc n)), r)
read_body (pos size) r =
    if ltb r.max_message_size size
    then (err (new_message_size_exceeded r.max_message_size (pos size)), r)
    else (let (failure, n, r') = read_msg size r in (to_result failure (4 + n), r'))

-- What follows the read of the length word.
abbrev pub after_header : Filled → Reader → Result ℕ × Reader
after_header f r = elim f.failure [
  | some e ↦ (err e, record r { buffer = f.left })
  | none ↦ read_body (body_size f.bytes) (record r { buffer = f.left })
]

-- `ReadUntypedMsg`. The number of bytes read is kept for a message that is read whole; beside an
-- error no caller looks at it.
unfoldable pub read_untyped_msg : Exec Reader ℕ
unfolding read_msg
read_untyped_msg r = after_header (read_full 4 r.buffer) r

abbrev pub on_buffer : {A : Type 0} → Exec Stream A → Exec Reader A
on_buffer m r = let (x, s) = m r.buffer in (x, record r { buffer = s })

-- `ReadTypedMsg`: the type byte and the number of bytes of the message behind it.
unfoldable pub read_typed_msg : Exec Reader (ℕ × ℕ)
unfolding read_untyped_msg read_byte
read_typed_msg = do b ← on_buffer read_byte; n ← read_untyped_msg; pure (b, n)

abbrev pub after_piece :
    Option Error × ℕ × Reader → (ℕ → Exec Reader (Unit {0})) → Result (Unit {0}) × Reader
after_piece (none, n, r) f = f n r
after_piece (some e, n, r) f = (err e, r)

-- The loop of `Slurp`, on fuel: a round reads a byte at least where the maximum is positive.
unfoldable pub slurp_loop : ℕ → ℕ → Exec Reader (Unit {0})
unfolding read_msg
slurp_loop fuel zero r = (ok tt, r)
slurp_loop zero (suc k) r = (stuck, r)
slurp_loop (suc fuel) (suc k) r =
    let reading = if ltb r.max_message_size (suc k) then r.max_message_size else suc k in
    after_piece (read_msg reading r) (λ n. slurp_loop fuel (suc k - n))

-- `Slurp`; a size that is not positive leaves the loop at once.
unfoldable pub slurp : ℤ → Exec Reader (Unit {0})
unfolding slurp_loop
slurp (pos size) = slurp_loop size size
slurp (negsuc n) = pure tt

-- `bytes.IndexByte(msg, 0)`, as the string in front of the NUL and the bytes behind it.
unfoldable pub split_nul : Bytes → Option (Bytes × Bytes)
split_nul [] = none
split_nul (b ∷ msg) =
    if b == 0
    then some ([], msg)
    else elim (split_nul msg) [ none ↦ none | some (s, rest) ↦ some (b ∷ s, rest) ]

-- `GetString`
unfoldable pub get_string : Exec Reader Bytes
unfolding split_nul
get_string r = elim (split_nul r.msg) [
  | none ↦ (err new_missing_nul_terminator, r)
  | some (s, rest) ↦ (ok s, record r { msg = rest })
]

-- `GetBytes`
unfoldable pub get_bytes : ℕ → Exec Reader Bytes
get_bytes n r =
    if ltb (length r.msg) n
    then (err (new_insufficient_data (length r.msg)), r)
    else (ok (take n r.msg), record r { msg = drop n r.msg })

-- `GetPrepareType`
unfoldable pub get_prepare_type : Exec Reader ℕ
unfolding get_bytes
get_prepare_type = do v ← get_bytes 1; pure (elim v [ [] ↦ 0 | b ∷ _ ↦ b ])

-- `GetUint16`
unfoldable pub get_uint16 : Exec Reader ℕ
get_uint16 r =
    if ltb (length r.msg) 2
    then (err (new_insufficient_data (length r.msg)), r)
    else (ok (uint16 (take 2 r.msg)), record r { msg = drop 2 r.msg })

-- `GetUint32`
unfoldable pub get_uint32 : Exec Reader ℕ
get_uint32 r =
    if ltb (length r.msg) 4
    then (err (new_insufficient_data (length r.msg)), r)
    else (ok (uint32 (take 4 r.msg)), record r { msg = drop 4 r.msg })
