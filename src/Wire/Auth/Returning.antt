-- ===== src/Wire/Auth/Returning.antt =====
-- `ClearTextPassword` comes back.
use psql_wire.Base.{
  Bool, Bytes, [], arith, if◌then◌else◌, length, none, refl, some, ℕ, ◌==◌, ◌∷◌, ◌≡◌, ◌≢◌, ◌≤◌,
}
use psql_wire.Buffer.Reader.{Reader, on_buffer, read_typed_msg}
use psql_wire.Buffer.Reader.Ends.{TameReader, get_string-Tame, read_untyped_msg-Tame}
use psql_wire.Buffer.Stream.{Stream, read_byte, take_byte}
use psql_wire.Buffer.Writer.Returning.{Emits-Returns}
use psql_wire.Exec.{Result, stuck}
use psql_wire.Exec.Tame.{Returns, Tame-bind, Tame-check, Tame-if, Tame-lift, Tame-pure, Tame-then}
use psql_wire.Messages.{client_password}
use psql_wire.Wire.Auth.{
  auth_clear_text_password, auth_ok, check_password, clear_text_password, conclude,
  invalid_credentials, unexpected_password_message, write_auth_type,
}
use psql_wire.Wire.Auth.Decision.{write_auth_type-Emits}
use psql_wire.Wire.Context.{Context, client_parameter, param_username}
use psql_wire.Wire.Response.Sent.{error_code-Emits}
use psql_wire.Wire.Server.Returning.{TameConn, on_reader-Tame, on_writer-Tame}

write_auth_type-Returns : (status : ℕ) → Returns (write_auth_type status)
write_auth_type-Returns status = Emits-Returns _ (write_auth_type-Emits status)

conclude-Tame : (valid : Bool) → TameConn (conclude valid)
unfolding conclude
conclude-Tame valid =
    Tame-if valid (on_writer-Tame (write_auth_type-Returns auth_ok))
      (on_writer-Tame (Emits-Returns _ (error_code-Emits (some invalid_credentials))))

take_byte_lem :
    (p : Bytes) (s : Stream)
    → length p ≤ length s.pending
    → ((take_byte p s).0 ≢ stuck)
      × (length (take_byte p s).1.pending ≤ length s.pending)
      × ((take_byte p s).1.ending ≡ s.ending)
take_byte_lem [] s h = ((λ q. cc), omega arith, refl)
take_byte_lem (b ∷ p) s h = ((λ q. cc), omega (arith, h), refl)

read_byte-Tame : TameReader (on_buffer read_byte)
unfolding read_byte
read_byte-Tame = record {
  returns = λ r g. (at r).0;
  shrinks = λ r g. (at r).1;
  keeps =
      λ r g. record { positive = g.positive; bounded = g.bounded; network = rw (at r).2 g.network };
}
  where
    at :
        (r : Reader)
        → let q = take_byte r.buffer.pending r.buffer in
          (q.0 ≢ stuck)
          × (length q.1.pending ≤ length r.buffer.pending)
          × (q.1.ending ≡ r.buffer.ending)
    at r = take_byte_lem r.buffer.pending r.buffer (omega arith)

read_typed_msg-Tame : TameReader read_typed_msg
unfolding read_typed_msg
read_typed_msg-Tame =
    Tame-bind _ (λ b. Tame-bind _ (λ n. Tame-pure (b, n)) read_untyped_msg-Tame) read_byte-Tame

-- `ClearTextPassword` comes back if the validation does, and leaves a reader with a positive maximum
-- and a network error that is none of the reader's own where it has found one.
pub clear_text_password-Tame :
    {V : Type 0} (validate : Bytes → Bytes → Result Bool) (ctx : Context V)
    → ((username password : Bytes) → validate username password ≢ stuck)
    → TameConn (clear_text_password validate ctx)
unfolding clear_text_password check_password
clear_text_password-Tame validate ctx h =
    Tame-then (on_writer-Tame (write_auth_type-Returns auth_clear_text_password)) (
      Tame-bind _
        (λ p.
          Tame-then
            (Tame-check (if p.0 == client_password then none else some unexpected_password_message))
            (Tame-bind _
              (λ password. Tame-bind _ conclude-Tame (
                Tame-lift (validate (client_parameter ctx param_username) password) (h _ password)))
              (on_reader-Tame get_string-Tame)))
        (on_reader-Tame read_typed_msg-Tame))
