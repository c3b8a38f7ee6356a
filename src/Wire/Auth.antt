-- ===== src/Wire/Auth.antt =====
-- auth.go
pub mod Decision
pub mod Returning
use psql_wire.Base.{Bool, Bytes, codes, false, if◌then◌else◌, none, some, ℕ, ◌==◌}
use psql_wire.Buffer.Reader.{get_string, read_typed_msg}
use psql_wire.Buffer.Writer.{Writer, add_int32, end, start}
use psql_wire.Errors.{Error, coded, text}
use psql_wire.Errors.Codes.Transactions.{invalid_password}
use psql_wire.Exec.{Exec, Result, check, lift, ◌>>=◌, ◌>>◌}
use psql_wire.Messages.{client_password, server_auth}
use psql_wire.Wire.Context.{Context, client_parameter, param_username}
use psql_wire.Wire.Response.{error_code}
use psql_wire.Wire.Server.{Conn, Server, on_reader, on_writer}

abbrev pub auth_ok : ℕ
auth_ok = 0

abbrev pub auth_clear_text_password : ℕ
auth_clear_text_password = 3

-- `writeAuthType`
unfoldable pub write_auth_type : ℕ → Exec Writer (Unit {0})
write_auth_type status = do start server_auth; add_int32 status; end

abbrev pub unexpected_password_message : Error
unexpected_password_message = text (codes "unexpected password message")

abbrev pub invalid_credentials : Error
invalid_credentials = coded (text (codes "invalid username/password")) invalid_password

-- The rest of `ClearTextPassword` once the credentials are checked.
unfoldable pub conclude : Bool → Exec Conn (Unit {0})
conclude valid =
    if valid
    then on_writer (write_auth_type auth_ok)
    else on_writer (error_code (some invalid_credentials))

module _ {V : Type 0} where
  -- `ClearTextPassword` behind the request for a password
  unfoldable pub check_password : (Bytes → Bytes → Result Bool) → Context V → Exec Conn (Unit {0})
  unfolding conclude
  check_password validate ctx = do
    (t, n) ← on_reader read_typed_msg
    check (if t == client_password then none else some unexpected_password_message)
    password ← on_reader get_string
    valid ← lift (validate (client_parameter ctx param_username) password)
    conclude valid

  -- `ClearTextPassword`
  unfoldable pub clear_text_password :
      (Bytes → Bytes → Result Bool) → Context V → Exec Conn (Unit {0})
  unfolding check_password
  clear_text_password validate ctx = do
    on_writer (write_auth_type auth_clear_text_password)
    check_password validate ctx

  -- `handleAuth`
  unfoldable pub handle_auth : Server V → Context V → Exec Conn (Unit {0})
  handle_auth srv ctx = elim srv.auth [
    | none ↦ on_writer (write_auth_type auth_ok)
    | some strategy ↦ strategy ctx
  ]

  -- `IsSuperUser`
  unfoldable pub is_super_user : Context V → Bool
  is_super_user ctx = false

  -- `AuthenticatedUsername`
  unfoldable pub authenticated_username : Context V → Bytes
  authenticated_username ctx = client_parameter ctx param_username
