-- ===== src/Wire/Auth/Decision.antt =====
-- What a client is told, and what the server does, once the client has sent a password.
use psql_wire.Base.{
  Bool, Bytes, List, [], ap, append-nil, arith, false, length, length-append, refl, some, subst,
  true, ℕ, ◌++◌, ◌+◌, ◌<◌, ◌∙◌, ◌∷◌, ◌≡◌, ◌≤◌,
}
use psql_wire.Buffer.Reader.Typed.{read_typed_msg-server_message}
use psql_wire.Buffer.Reader.Values.{IsText, get_string-append}
use psql_wire.Buffer.Stream.{Sink}
use psql_wire.Buffer.Words.{put_uint32}
use psql_wire.Buffer.Writer.{add_int32, end}
use psql_wire.Buffer.Writer.Emits.{Emits, sends}
use psql_wire.Buffer.Writer.Framing.{
  Adds-add, Emits-message, Ends, Ends-end, Ends-then, server_message,
}
use psql_wire.Errors.{flatten}
use psql_wire.Exec.{Result, ok, ◌>>◌}
use psql_wire.Messages.{client_password, server_auth, server_error_response}
use psql_wire.Wire.Auth.{
  auth_clear_text_password, auth_ok, check_password, clear_text_password, conclude,
  invalid_credentials, write_auth_type,
}
use psql_wire.Wire.Context.{Context, client_parameter, param_username}
use psql_wire.Wire.Response.Sent.{error_body, error_code-Emits, ready_message}
use psql_wire.Wire.Server.{Conn}

pub write_auth_type-Emits :
    (status : ℕ)
    → Emits (write_auth_type status) (server_message server_auth (put_uint32 status) ∷ [])
unfolding write_auth_type add_int32
write_auth_type-Emits status = Emits-message server_auth (put_uint32 status) (
    subst (Ends (add_int32 status >> end)) (append-nil (put_uint32 status))
      (Ends-then (put_uint32 status) [] (Adds-add (put_uint32 status)) Ends-end))

-- What the server sends on the credentials.
abbrev pub verdict : Bool → List Bytes
verdict true = server_message server_auth (put_uint32 auth_ok) ∷ []
verdict false =
    server_message server_error_response (error_body (flatten (some invalid_credentials)))
    ∷ ready_message
    ∷ []

conclude_sends :
    (valid : Bool) (c : Conn)
    → 2 ≤ c.writer.sink.accepts
    → ((conclude valid c).0 ≡ ok tt)
      × ((conclude valid c).1.writer.sink.sent ≡ c.writer.sink.sent ++ verdict valid)
unfolding conclude
conclude_sends true c h =
    let (e, s) = sends (write_auth_type-Emits auth_ok) c.writer (omega arith) in
    (e, ap (λ (s : Sink). s.sent) s)
conclude_sends false c h =
    let (e, s) = sends (error_code-Emits (some invalid_credentials)) c.writer h in
    (e, ap (λ (s : Sink). s.sent) s)

module _ {V : Type 0} (validate : Bytes → Bytes → Result Bool) (ctx : Context V) where
  -- The client's answer, read and checked.
  check_password_lem :
      (password rest : Bytes) (valid : Bool) (c : Conn)
      → IsText password
      → length password + 1 ≤ c.reader.max_message_size
      → length password + 5 < 4294967296
      → c.reader.buffer.pending ≡ server_message client_password (password ++ 0 ∷ []) ++ rest
      → validate (client_parameter ctx param_username) password ≡ ok valid
      → check_password validate ctx c
        ≡ conclude valid (record c {
          reader = record (c.reader) {
            buffer = record (c.reader.buffer) { pending = rest };
            msg = [];
          };
        })
  unfolding check_password
  check_password_lem password rest valid c legal fits small sent checked =
      let size : length (password ++ 0 ∷ []) ≡ length password + 1 =
        omega (arith, length-append {0} password (0 ∷ [])) in
      rw
        (
          read_typed_msg-server_message client_password (password ++ 0 ∷ []) rest c.reader
              (rw (size) fits) (rw size (omega arith)) sent,
          get_string-append password []
              (record (c.reader) {
                buffer = record (c.reader.buffer) { pending = rest };
                msg = password ++ 0 ∷ [];
              })
              legal refl,
          checked,
        )
        refl

  -- `ClearTextPassword`, where the client answers with a password message, the validation gives a
  -- verdict, and the connection takes three writes: the client is asked for a password and told the
  -- verdict, and the strategy succeeds whichever the verdict is, refused credentials included.
  pub clear_text_password-answers :
      (password rest : Bytes) (valid : Bool) (c : Conn)
      → IsText password
      → length password + 1 ≤ c.reader.max_message_size
      → length password + 5 < 4294967296
      → c.reader.buffer.pending ≡ server_message client_password (password ++ 0 ∷ []) ++ rest
      → validate (client_parameter ctx param_username) password ≡ ok valid
      → 3 ≤ c.writer.sink.accepts
      → ((clear_text_password validate ctx c).0 ≡ ok tt)
        × ((clear_text_password validate ctx c).1.writer.sink.sent
            ≡ (c.writer.sink.sent
                ++ server_message server_auth (put_uint32 auth_clear_text_password) ∷ [])
              ++ verdict valid)
  unfolding clear_text_password
  clear_text_password-answers password rest valid c legal fits small sent checked room =
      let w = (write_auth_type auth_clear_text_password c.writer).1 in
      let (e, s) = sends (write_auth_type-Emits auth_clear_text_password) c.writer (omega arith) in
      let c' : Conn = record c {
        reader = record (c.reader) {
          buffer = record (c.reader.buffer) { pending = rest };
          msg = [];
        };
        writer = w;
      } in
      let (r, l) = conclude_sends valid c' (rw s (omega arith)) in
      rw
        (
          e,
          check_password_lem password rest valid (record c { writer = w }) legal fits small sent
              checked,
        )
        (r, l ∙ ap (λ (s : Sink). s.sent ++ verdict valid) s)
