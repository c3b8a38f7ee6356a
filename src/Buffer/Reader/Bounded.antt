-- ===== src/Buffer/Reader/Bounded.antt =====
-- How long the message in the buffer is, behind a call of the reader.
use psql_wire.Base.{
  Bytes, arith, drop, inl, inr, length, length-append, length-drop, length-replicate, length-take,
  replicate, ℕ, ◌≡◌, ◌≤◌,
}
use psql_wire.Buffer.Reader.{Reader, get_string, read_msg, reset}
use psql_wire.Buffer.Reader.Values.{get_string_shrinks}
use psql_wire.Buffer.Stream.{Stream, read_full}

read_full_count : (size : ℕ) (s : Stream) → length (read_full size s).bytes ≤ size
unfolding read_full
read_full_count size s = ground (arith, length-take {0} size s.pending)

-- The buffer is set to the size asked for, and filled from its front.
pub read_msg-length : (size : ℕ) (r : Reader) → length (read_msg size r).2.msg ≡ size
unfolding read_msg reset
read_msg-length size r =
    let bytes : Bytes = (read_full size r.buffer).bytes in
    let zeros : Bytes = replicate size 0 in
    omega (
      arith,
      read_full_count size r.buffer,
      length-append {0} bytes (drop (length bytes) zeros),
      length-drop {0} (length bytes) zeros,
      length-replicate {0} {A = ℕ} size 0,
    )

pub get_string_le : (r : Reader) → length (get_string r).1.msg ≤ length r.msg
get_string_le r = elim (get_string_shrinks r) [
  | inl e ↦ rw e (omega arith)
  | inr (s, rest, e, l) ↦ rw e (omega arith)
]
