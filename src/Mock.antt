-- ===== src/Mock.antt =====
-- internal/mock: the client of the tests. `t.Fatal` ends a test, and is an error here; logging is left out.
pub mod Reads
pub mod Served
use psql_wire.Base.{
  Bytes, [], codes, decimal, if◌then◌else◌, length, none, pos, some, suc, zero, ℕ, ◌++◌, ◌+◌, ◌==◌,
  ◌∷◌,
}
use psql_wire.Buffer.Reader.{
  Reader, default_buffer_size, get_bytes, get_uint32, new_reader, read_typed_msg,
}
use psql_wire.Buffer.Stream.{Sink, Stream}
use psql_wire.Buffer.Words.{put_uint32}
use psql_wire.Buffer.Writer.{Writer, end, new_writer, start}
use psql_wire.Errors.{Error, text}
use psql_wire.Exec.{Exec, after, check, lift, panic, pure, stuck, ◌>>=◌, ◌>>◌}
use psql_wire.Messages.{
  client_close, server_auth, server_error_response, server_idle, server_parameter_status,
  server_ready, version_30,
}
use psql_wire.Wire.Handshake.{write_raw}
use psql_wire.Wire.Server.{Conn}

-- `NewWriter` and `NewReader`
abbrev pub mock_writer : Sink → Writer
mock_writer sink = new_writer sink

abbrev pub mock_reader : Stream → Reader
mock_reader s = new_reader s (pos default_buffer_size)

-- `Writer.Start` and `Reader.ReadTypedMsg`: those of the server, with message types that are bytes as
-- well.
abbrev pub mock_start : ℕ → Exec Writer (Unit {0})
mock_start t = start t

abbrev pub mock_read_typed_msg : Exec Reader (ℕ × ℕ)
mock_read_typed_msg = read_typed_msg

-- `NewClient`
unfoldable pub new_client : Stream → Sink → Conn
new_client s sink = record { reader = mock_reader s; writer = mock_writer sink }

abbrev pub mock_key : Bytes
mock_key = codes "client" ++ 0 ∷ []

abbrev pub mock_value : Bytes
mock_value = codes "mock" ++ 0 ∷ []

abbrev pub mock_end : Bytes
mock_end = [] ++ 0 ∷ []

abbrev pub mock_parameters : Bytes
mock_parameters = (mock_key ++ mock_value) ++ mock_end

abbrev pub mock_version : Bytes
mock_version = put_uint32 version_30

-- The header counts itself.
abbrev pub mock_header : Bytes
mock_header = put_uint32 (length mock_version + length mock_parameters + 4)

-- `Client.Handshake`
unfoldable pub client_handshake : Exec Conn (Unit {0})
unfolding put_uint32
client_handshake = write_raw (mock_header ++ (mock_version ++ mock_parameters))

abbrev pub unexpected_message_type : ℕ → ℕ → Error
unexpected_message_type typed expected = text (
    codes "unexpected message type "
    ++ (decimal typed ++ (codes ", expected " ++ decimal expected)))

-- `if typed != expected { t.Fatalf(...) }`
abbrev pub expect_type : ℕ → ℕ → Exec Reader (Unit {0})
expect_type expected typed =
    check (if typed == expected then none else some (unexpected_message_type typed expected))

-- `Client.Authenticate`
unfoldable pub client_authenticate : Exec Reader (Unit {0})
client_authenticate = do
  (typed, n) ← mock_read_typed_msg
  expect_type server_auth typed
  status ← get_uint32
  check (
      if status == 0
      then none
      else some (
          text
            (codes "unexpected auth status: " ++ (decimal status ++ codes ", expected auth ok"))))

-- The loop of `Client.ReadyForQuery`, on fuel: a round reads the type byte of a message.
unfoldable pub skip_parameters : ℕ → Exec Reader ℕ
skip_parameters zero r = (stuck, r)
skip_parameters (suc fuel) r =
    after (mock_read_typed_msg r)
      (λ m. if m.0 == server_parameter_status then skip_parameters fuel else pure m.0)

abbrev pub expect_idle : Bytes → Exec Reader (Unit {0})
expect_idle [] = lift panic
expect_idle (b ∷ _) = check (
    if b == server_idle
    then none
    else some (
        text (
          codes "unexpected ready for query status: ["
          ++ (decimal b ++ codes "], expected server idle"))))

-- `Client.ReadyForQuery`
unfoldable pub client_ready_for_query : Exec Reader (Unit {0})
unfolding skip_parameters
client_ready_for_query r =
    (do
      typed ← skip_parameters (suc (length r.buffer.pending))
      expect_type server_ready typed
      status ← get_bytes 1
      expect_idle status)
      r

abbrev pub unexpected_response_type : ℕ → Error
unexpected_response_type typed = text (
    codes "unexpected response message type "
    ++ (decimal typed ++ (codes ", expected " ++ decimal server_error_response)))

-- `Client.Error`
unfoldable pub client_error : Exec Reader (Unit {0})
client_error = do
  (typed, n) ← mock_read_typed_msg
  check (if typed == server_error_response then none else some (unexpected_response_type typed))

-- `Client.Close`
unfoldable pub client_close_message : Exec Writer (Unit {0})
client_close_message = do mock_start client_close; end
