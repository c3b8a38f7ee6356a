-- ===== src/Wire/Handshake.antt =====
-- handshake.go and ssl.go. crypto/tls is not part of the repository: `tls` gives, for the bytes that
-- the client sends on the wire, what it sends inside the TLS session.
pub mod Refused
pub mod Pairs
use psql_wire.Base.{
  Bytes, Option, [], codes, drop, equal, if◌then◌else◌, length, none, some, suc, zero, ℕ, ℤ, ◌==◌,
  ◌∷◌,
}
use psql_wire.Buffer.Reader.{Reader, get_string, get_uint32, new_reader, read_untyped_msg}
use psql_wire.Buffer.Stream.{Stream, write}
use psql_wire.Buffer.Writer.{Writer, add_null_terminate, add_string, encode_boolean, end, start}
use psql_wire.Errors.{Error, text}
use psql_wire.Exec.{Exec, after, check, ok, pure, stuck, ◌>>=◌, ◌>>◌}
use psql_wire.Messages.{server_parameter_status, version_cancel, version_ssl_request}
use psql_wire.Wire.Auth.{authenticated_username, is_super_user}
use psql_wire.Wire.Cache.{made}
use psql_wire.Wire.Context.{
  Context, Parameters, param_client_encoding, param_is_superuser, param_server_encoding,
  param_server_version, param_session_authorization, set_client_parameters, set_parameter,
  set_server_parameters,
}
use psql_wire.Wire.Options.{version}
use psql_wire.Wire.Server.{Conn, Server, World, on_reader, on_writer, to_client}

abbrev pub ssl_supported : Bytes
ssl_supported = b'S' ∷ []

abbrev pub ssl_unsupported : Bytes
ssl_unsupported = b'N' ∷ []

-- `conn.Write` beside the writer's frame
abbrev pub write_raw : Bytes → Exec Conn (Unit {0})
write_raw bytes = on_writer (λ w. let (r, s) = write bytes w.sink in (r, record w { sink = s }))

-- `readVersion`
unfoldable pub read_version : Exec Reader ℕ
read_version = do read_untyped_msg; get_uint32

abbrev pub unexpected_cancel : Error
unexpected_cancel = text (codes "unexpected cancel version after upgrading the client connection")

-- `sslUnsupported`
unfoldable pub refuse_ssl : Exec Conn ℕ
unfolding read_version
refuse_ssl = do
  write_raw ssl_unsupported
  version ← on_reader read_version
  check (if version == version_cancel then some unexpected_cancel else none)
  pure version

-- `tls.Server(conn, ...)` and a new reader over it. What the old reader has fetched is lost.
unfoldable pub upgrade_reader : (Stream → Stream) → ℤ → Reader → Reader
upgrade_reader tls size r =
    new_reader (tls (record (r.buffer) { pending = drop r.buffer.held r.buffer.pending })) size

module _ {V : Type 0} (srv : Server V) (tls : Stream → Stream) where
  -- The part of `potentialConnUpgrade` behind the test on the certificates.
  unfoldable pub upgrade : Exec Conn ℕ
  unfolding upgrade_reader read_version
  upgrade = do
    write_raw ssl_supported
    λ c. (ok tt, record c { reader = upgrade_reader tls srv.buffered_msg_size c.reader })
    on_reader read_version

  -- `potentialConnUpgrade`
  unfoldable pub potential_conn_upgrade : ℕ → Exec Conn ℕ
  unfolding upgrade refuse_ssl
  potential_conn_upgrade version =
      if version == version_ssl_request
      then (if srv.certificates == 0 then refuse_ssl else upgrade)
      else pure version

  -- `Handshake`
  unfoldable pub handshake : Exec Conn ℕ
  unfolding potential_conn_upgrade read_version
  handshake = do
    λ c. (ok tt, record c { reader = new_reader c.reader.buffer srv.buffered_msg_size })
    version ← on_reader read_version
    if version == version_cancel then pure version else potential_conn_upgrade version

-- The loop of `readClientParameters`, on fuel: a round takes a byte of the message at least.
unfoldable pub read_client_loop : ℕ → Parameters → Exec Reader Parameters
read_client_loop zero meta r = (stuck, r)
read_client_loop (suc fuel) meta r = after (get_string r) λ key. elim key [
  | [] ↦ pure meta
  | b ∷ rest ↦ do value ← get_string; read_client_loop fuel (set_parameter (b ∷ rest) value meta)
]

-- `readClientParameters`
unfoldable pub read_client_parameters : {V : Type 0} → Context V → Exec Reader (Context V)
unfolding read_client_loop
read_client_parameters ctx r =
    after (read_client_loop (suc (length r.msg)) [] r)
      (λ meta. pure (set_client_parameters (some meta) ctx))

-- One ParameterStatus message.
unfoldable pub write_parameter : Bytes × Bytes → Exec Writer (Unit {0})
write_parameter (key, value) = do
  start server_parameter_status
  add_string key
  add_null_terminate
  add_string value
  add_null_terminate
  end

unfoldable pub write_each_parameter : Parameters → Exec Writer (Unit {0})
unfolding write_parameter
write_each_parameter [] = pure tt
write_each_parameter (p ∷ params) = do write_parameter p; write_each_parameter params

module _ {V : Type 0} where
  -- The map with the server's own parameters set.
  unfoldable pub server_parameters : Server V → Context V → Parameters → Parameters
  server_parameters srv ctx params =
      let params' =
        set_parameter param_client_encoding (codes "UTF8")
          (set_parameter param_server_encoding (codes "UTF8") params) in
      let versioned =
        if equal srv.version []
        then params'
        else set_parameter param_server_version srv.version params' in
      set_parameter param_session_authorization (authenticated_username ctx)
        (set_parameter param_is_superuser (encode_boolean (is_super_user ctx)) versioned)

  -- `writeParameters`. `srv.Parameters` is a map that this call changes: the server keeps what it
  -- has set there, for later connections too. A nil map is replaced by one of the call's own. `order`
  -- is the order in which `range` goes through the map.
  unfoldable pub write_parameters :
      (Parameters → Parameters) → Server V → Context V → Exec (World V) (Context V)
  unfolding server_parameters write_each_parameter
  write_parameters order srv ctx w =
      let params = server_parameters srv ctx (made w.parameters) in
      let kept : Option Parameters = elim w.parameters [ none ↦ none | some _ ↦ some params ] in
      after (to_client (write_each_parameter (order params)) (record w { parameters = kept }))
        (λ _. pure (set_server_parameters (some params) ctx))
