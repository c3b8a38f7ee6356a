-- ===== src/Buffer/Reader/Typed.antt =====
-- Whole messages: what `ReadTypedMsg` reads of what a client has sent.
use psql_wire.Base.{
  Bytes, Option, [], ap, append-nil, append_assoc, arith, drop, drop-append_length, ge→ltb, length,
  length-append, le→leb, none, pos, refl, replicate, sub_ℕ, suc, take, take-append_length, zero, ℕ,
  ℤ, ◌++◌, ◌+◌, ◌<◌, ◌∙◌, ◌∷◌, ◌≡◌, ◌≤◌,
}
use psql_wire.Buffer.Reader.{
  Reader, after_header, fill, on_buffer, read_body, read_msg, read_typed_msg, read_untyped_msg,
  reset, to_result,
}
use psql_wire.Buffer.Stream.{Filled, Stream, read_full, take_byte}
use psql_wire.Buffer.Words.{put_uint32, uint32}
use psql_wire.Buffer.Writer.Framing.{server_message}
use psql_wire.Errors.{Error}
use psql_wire.Exec.{Result, after, ok, pure, ◌>>=◌}

read_full_enough :
    (xs rest : Bytes) (s : Stream)
    → s.pending ≡ xs ++ rest
    → read_full (length xs) s
      ≡ record { bytes = xs; failure = none; left = record s { pending = rest } }
unfolding read_full
read_full_enough xs rest s e =
    rw (le→leb (length xs) (length s.pending) (rw e (omega (arith, length-append {0} xs rest)))) (
      ap
        (λ (p : Bytes). record {
          bytes = take (length xs) p;
          failure = none;
          left = record s { pending = drop (length xs) p };
        })
        e
      ∙ rw (take-append_length xs rest, drop-append_length xs rest))

drop-replicate : (n : ℕ) → drop n (replicate {A = ℕ} n 0) ≡ []
drop-replicate zero = refl
drop-replicate (suc n) = drop-replicate n

-- A message of `length body` bytes, read whole.
pub read_msg_enough :
    (body rest : Bytes) (r : Reader)
    → r.buffer.pending ≡ body ++ rest
    → read_msg (length body) r
      ≡ (none, length body, record r { buffer = record (r.buffer) { pending = rest }; msg = body })
unfolding read_msg reset
read_msg_enough body rest r e =
    ap
      (λ (f : Filled). (
        f.failure,
        length f.bytes,
        record r { buffer = f.left; msg = fill f.bytes (replicate (length body) 0) },
      ))
      (read_full_enough body rest r.buffer e)
    ∙ ap
        (λ (m : Bytes). (
          none,
          length body,
          record r { buffer = record (r.buffer) { pending = rest }; msg = body ++ m },
        ))
        (drop-replicate (length body))
    ∙ ap
        (λ (m : Bytes).
          (none, length body, record r { buffer = record (r.buffer) { pending = rest }; msg = m }))
        (append-nil body)

-- The length word is read, and the body or a refusal follows.
pub read_untyped_msg-put_uint32 :
    (n : ℕ) (rest : Bytes) (r : Reader)
    → n < 4294967296
    → r.buffer.pending ≡ put_uint32 n ++ rest
    → read_untyped_msg r
      ≡ read_body (sub_ℕ n 4) (record r { buffer = record (r.buffer) { pending = rest } })
unfolding read_untyped_msg put_uint32
read_untyped_msg-put_uint32 n rest r h e =
    ap (λ (f : Filled). after_header f r) (read_full_enough (put_uint32 n) rest r.buffer e)
    ∙ ap
        (λ (k : ℕ).
          read_body (sub_ℕ k 4) (record r { buffer = record (r.buffer) { pending = rest } }))
        word
  where
    word : uint32 (put_uint32 n) ≡ n
    word = unfold uint32 in omega arith

read_body_fits :
    (body rest : Bytes) (r : Reader)
    → length body ≤ r.max_message_size
    → r.buffer.pending ≡ body ++ rest
    → read_body (pos (length body)) r ≡ (
      ok (4 + length body),
      record r { buffer = record (r.buffer) { pending = rest }; msg = body },
    )
read_body_fits body rest r fits e = rw (ge→ltb r.max_message_size (length body) fits) (
    ap (λ (p : Option Error × ℕ × Reader). (to_result p.0 (4 + p.1), p.2))
      (read_msg_enough body rest r e))

pub sub_ℕ-add : (n : ℕ) → sub_ℕ (n + 4) 4 ≡ pos n
sub_ℕ-add n = ground arith

-- `ReadUntypedMsg` on the same, without the type byte.
pub read_untyped_msg-body :
    (body rest : Bytes) (r : Reader)
    → length body ≤ r.max_message_size
    → length body + 4 < 4294967296
    → r.buffer.pending ≡ put_uint32 (length body + 4) ++ (body ++ rest)
    → read_untyped_msg r ≡ (
      ok (4 + length body),
      record r { buffer = record (r.buffer) { pending = rest }; msg = body },
    )
read_untyped_msg-body body rest r fits small e =
    read_untyped_msg-put_uint32 (length body + 4) (body ++ rest) r small e
    ∙ ap
        (λ (z : ℤ).
          read_body z (record r { buffer = record (r.buffer) { pending = body ++ rest } }))
        (sub_ℕ-add (length body))
    ∙ read_body_fits body rest (record r { buffer = record (r.buffer) { pending = body ++ rest } })
        fits refl

-- The type byte is read, and the untyped message follows.
pub read_typed_msg-cons :
    (t : ℕ) (rest : Bytes) (r : Reader)
    → r.buffer.pending ≡ t ∷ rest
    → read_typed_msg r
      ≡ after
          (read_untyped_msg (record r { buffer = record (r.buffer) { pending = rest } }))
          (λ n. pure (t, n))
unfolding read_typed_msg
read_typed_msg-cons t rest r e =
    ap
      (λ (p : Bytes).
        after (on_buffer (take_byte p) r) (λ b. read_untyped_msg >>= (λ n. pure (b, n))))
      e

-- `ReadTypedMsg` reads a message that fits whole and leaves what follows it; the number of bytes is
-- the length word.
pub read_typed_msg-server_message :
    (t : ℕ) (body rest : Bytes) (r : Reader)
    → length body ≤ r.max_message_size
    → length body + 4 < 4294967296
    → r.buffer.pending ≡ server_message t body ++ rest
    → read_typed_msg r ≡ (
      ok (t, 4 + length body),
      record r { buffer = record (r.buffer) { pending = rest }; msg = body },
    )
read_typed_msg-server_message t body rest r fits small e =
    read_typed_msg-cons t (put_uint32 (length body + 4) ++ (body ++ rest)) r
      (e ∙ ap (◌∷◌ t) (append_assoc (put_uint32 (length body + 4)) body rest))
    ∙ ap (λ (p : Result ℕ × Reader). after p (λ n. pure (t, n)))
        (read_untyped_msg-body body rest _ fits small refl)
