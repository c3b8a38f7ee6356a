-- ===== src/Wire/Handshake/Refused.antt =====
-- A client that asks for TLS where the server has no certificates.
use psql_wire.Base.{
  Bool-cases, Bytes, [], append_assoc, arith, false, if◌then◌else◌, inl, inr, length, refl, ℕ, ◌++◌,
  ◌+◌, ◌<◌, ◌==◌, ◌∙◌, ◌∷◌, ◌≡◌, ◌≤◌,
}
use psql_wire.Buffer.Reader.{Reader, buffer_size, new_reader}
use psql_wire.Buffer.Reader.Typed.{read_untyped_msg-body}
use psql_wire.Buffer.Reader.Values.{get_uint32-put_uint32}
use psql_wire.Buffer.Stream.{Stream, write}
use psql_wire.Buffer.Words.{put_uint32}
use psql_wire.Exec.{err, ok}
use psql_wire.Messages.{version_cancel, version_ssl_request}
use psql_wire.Wire.Handshake.{
  handshake, potential_conn_upgrade, read_version, refuse_ssl, ssl_unsupported, unexpected_cancel,
}
use psql_wire.Wire.Server.{Conn, Server}

-- A message without a type byte.
abbrev pub untyped_message : Bytes → Bytes
untyped_message body = put_uint32 (length body + 4) ++ body

-- The startup message, or a request, of this version.
abbrev pub startup_message : ℕ → Bytes → Bytes
startup_message v body = untyped_message (put_uint32 v ++ body)

pub read_version_lem :
    (v : ℕ) (body rest : Bytes) (r : Reader)
    → v < 4294967296
    → length body + 4 ≤ r.max_message_size
    → length body + 8 < 4294967296
    → r.buffer.pending ≡ startup_message v body ++ rest
    → read_version r
      ≡ (ok v, record r { buffer = record (r.buffer) { pending = rest }; msg = body })
unfolding read_version
read_version_lem v body rest r hv fits small e =
    let size : length (put_uint32 v ++ body) ≡ length body + 4 = unfold put_uint32 in omega arith in
    rw
      (read_untyped_msg-body (put_uint32 v ++ body) rest r (rw size fits) (rw size (omega arith)) (
        e
        ∙ append_assoc (put_uint32 (length (put_uint32 v ++ body) + 4)) (put_uint32 v ++ body)
            rest))
      (get_uint32-put_uint32 v body
        (record r { buffer = record (r.buffer) { pending = rest }; msg = put_uint32 v ++ body }) hv
        refl)

module _ {V : Type 0} (srv : Server V) (tls : Stream → Stream) where
  -- `Handshake` where the server has no certificates and the client asks for TLS, then sends a
  -- startup message of another version that fits, over a connection that takes a write: the client is
  -- told `N` and nothing else, and the version and the parameters are those of the second message. A
  -- cancel request in its place fails.
  pub handshake-refuses_ssl :
      (v : ℕ) (body rest : Bytes) (c : Conn)
      → srv.certificates ≡ 0
      → v < 4294967296
      → length body + 4 ≤ buffer_size srv.buffered_msg_size
      → length body + 8 < 4294967296
      → c.reader.buffer.pending
        ≡ startup_message version_ssl_request [] ++ (startup_message v body ++ rest)
      → 1 ≤ c.writer.sink.accepts
      → ((handshake srv tls c).0 ≡ (if v == version_cancel then err unexpected_cancel else ok v))
        × ((handshake srv tls c).1.reader.msg ≡ body)
        × ((handshake srv tls c).1.reader.buffer.pending ≡ rest)
        × ((handshake srv tls c).1.writer.sink.sent ≡ c.writer.sink.sent ++ ssl_unsupported ∷ [])
  unfolding handshake new_reader potential_conn_upgrade refuse_ssl write
  handshake-refuses_ssl v body rest c none_given hv fits small sent room =
      let size = buffer_size srv.buffered_msg_size in
      let more = startup_message v body ++ rest in
      let asked : Reader = record { buffer = c.reader.buffer; msg = []; max_message_size = size } in
      let left : Reader = record {
        buffer = record (c.reader.buffer) { pending = more };
        msg = [];
        max_message_size = size;
      } in
      let takes : (c.writer.sink.accepts == 0) ≡ false = ground arith in
      rw
        (
          read_version_lem version_ssl_request [] more asked (omega arith) (omega arith)
              (omega arith) sent,
          none_given,
          takes,
          read_version_lem v body rest left hv fits small refl,
        )
        (elim (Bool-cases (v == version_cancel)) [
          | inl cancels ↦ rw cancels (refl, refl, refl, refl)
          | inr starts ↦ rw starts (refl, refl, refl, refl)
        ])
