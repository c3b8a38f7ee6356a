-- ===== src/Wire/Command/Oversized.antt =====
-- A message that is larger than the maximum.
use psql_wire.Base.{
  Bytes, List, [], ap, append_assoc, arith, drop, drop-append_length, length, length-append, pos,
  refl, some, true, ℕ, ℤ, ◌++◌, ◌+◌, ◌<◌, ◌∙◌, ◌∷◌, ◌≡◌, ◌≤◌,
}
use psql_wire.Buffer.Failures.{new_message_size_exceeded, unwrap_message_size_exceeded}
use psql_wire.Buffer.Reader.{Reader, read_body, read_typed_msg}
use psql_wire.Buffer.Reader.Slurped.{slurp-drop}
use psql_wire.Buffer.Reader.Typed.{read_typed_msg-cons, read_untyped_msg-put_uint32, sub_ℕ-add}
use psql_wire.Buffer.Stream.{Sink}
use psql_wire.Buffer.Words.{put_uint32}
use psql_wire.Buffer.Writer.Emits.{sends}
use psql_wire.Buffer.Writer.Framing.{server_message}
use psql_wire.Errors.{Error, flatten}
use psql_wire.Exec.{Result, after, err, ok, pure}
use psql_wire.Messages.{server_error_response}
use psql_wire.Wire.Command.{after_read, consume_one, handle_message_size_exceeded}
use psql_wire.Wire.Context.{Context}
use psql_wire.Wire.Response.Sent.{error_body, error_code-Emits, ready_message}
use psql_wire.Wire.Server.{Server, World}

-- What the client is told about a message that would take `size` bytes.
abbrev pub refusal : ℕ → ℕ → List Bytes
refusal max size =
    server_message server_error_response
      (error_body (flatten (some (new_message_size_exceeded max (pos size)))))
    ∷ ready_message
    ∷ []

read_body_refused :
    (size : ℕ) (r : Reader)
    → r.max_message_size < size
    → read_body (pos size) r ≡ (err (new_message_size_exceeded r.max_message_size (pos size)), r)
read_body_refused size r h = ground arith

-- The header is read, and the body is left.
read_typed_msg_refused :
    (t : ℕ) (body rest : Bytes) (r : Reader)
    → r.max_message_size < length body
    → length body + 4 < 4294967296
    → r.buffer.pending ≡ server_message t body ++ rest
    → read_typed_msg r ≡ (
      err (new_message_size_exceeded r.max_message_size (pos (length body))),
      record r { buffer = record (r.buffer) { pending = body ++ rest } },
    )
read_typed_msg_refused t body rest r large small e =
    read_typed_msg-cons t (put_uint32 (length body + 4) ++ (body ++ rest)) r
      (e ∙ ap (◌∷◌ t) (append_assoc (put_uint32 (length body + 4)) body rest))
    ∙ ap (λ (p : Result ℕ × Reader). after p (λ n. pure (t, n)))
        (read_untyped_msg-put_uint32 (length body + 4) (body ++ rest) _ small refl
          ∙ ap
              (λ (z : ℤ).
                read_body z (record r { buffer = record (r.buffer) { pending = body ++ rest } }))
              (sub_ℕ-add (length body))
          ∙ read_body_refused (length body)
              (record r { buffer = record (r.buffer) { pending = body ++ rest } }) large)

module _ {V : Type 0} (srv : Server V) (ctx : Context V) where
  discard :
      (body rest : Bytes) (e : Error) (w : World V)
      → 0 < w.conn.reader.max_message_size
      → w.conn.reader.buffer.pending ≡ body ++ rest
      → 2 ≤ w.conn.writer.sink.accepts
      → let p =
          after (handle_message_size_exceeded srv ctx e (pos (length body)) w) (λ _. pure true) in
        (p.0 ≡ ok true)
        × (p.1.conn.reader.buffer.pending ≡ rest)
        × (p.1.conn.writer.sink.sent
            ≡ w.conn.writer.sink.sent
              ++ server_message server_error_response (error_body (flatten (some e)))
                ∷ ready_message
                ∷ [])
  unfolding handle_message_size_exceeded
  discard body rest e w positive sent room =
      let (done, left, same) =
        slurp-drop (length body) w.conn.reader positive
          (rw sent (omega (arith, length-append {0} body rest))) in
      let (told, s) = sends (error_code-Emits (some e)) w.conn.writer room in
      rw (done, told)
        (
          refl,
          rw left (ap (drop (length body)) sent ∙ drop-append_length body rest),
          ap (λ (s : Sink). s.sent) s,
        )

  -- A round on a message that is larger than the maximum, where the maximum is positive and the
  -- connection takes two writes: the loop goes on, exactly this message is gone from the input, and
  -- the client has the error and one ReadyForQuery.
  pub consume_one-oversized :
      (t : ℕ) (body rest : Bytes) (w : World V)
      → 0 < w.conn.reader.max_message_size
      → w.conn.reader.max_message_size < length body
      → length body + 4 < 4294967296
      → w.conn.reader.buffer.pending ≡ server_message t body ++ rest
      → 2 ≤ w.conn.writer.sink.accepts
      → ((consume_one srv ctx w).0 ≡ ok true)
        × ((consume_one srv ctx w).1.conn.reader.buffer.pending ≡ rest)
        × ((consume_one srv ctx w).1.conn.writer.sink.sent
            ≡ w.conn.writer.sink.sent ++ refusal w.conn.reader.max_message_size (length body))
  unfolding consume_one
  consume_one-oversized t body rest w positive large small sent room =
      rw (read_typed_msg_refused t body rest w.conn.reader large small sent) (
        unfold after_read new_message_size_exceeded unwrap_message_size_exceeded in
        discard body rest _
          (record w {
            conn = record (w.conn) {
              reader = record (w.conn.reader) {
                buffer = record (w.conn.reader.buffer) { pending = body ++ rest };
              };
            };
          })
          positive refl room)
