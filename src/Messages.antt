-- ===== src/Messages.antt =====
-- internal/types: the type bytes of the messages, the server's status bytes and the versions.
-- A constant keeps the source's name.
use psql_wire.Base.{ℕ}

abbrev pub client_bind : ℕ
client_bind = b'B'

abbrev pub client_close : ℕ
client_close = b'C'

abbrev pub client_copy_data : ℕ
client_copy_data = b'd'

abbrev pub client_copy_done : ℕ
client_copy_done = b'c'

abbrev pub client_copy_fail : ℕ
client_copy_fail = b'f'

abbrev pub client_describe : ℕ
client_describe = b'D'

abbrev pub client_execute : ℕ
client_execute = b'E'

abbrev pub client_flush : ℕ
client_flush = b'H'

abbrev pub client_parse : ℕ
client_parse = b'P'

abbrev pub client_password : ℕ
client_password = b'p'

abbrev pub client_simple_query : ℕ
client_simple_query = b'Q'

abbrev pub client_sync : ℕ
client_sync = b'S'

abbrev pub client_terminate : ℕ
client_terminate = b'X'

abbrev pub server_auth : ℕ
server_auth = b'R'

abbrev pub server_bind_complete : ℕ
server_bind_complete = b'2'

abbrev pub server_command_complete : ℕ
server_command_complete = b'C'

abbrev pub server_data_row : ℕ
server_data_row = b'D'

abbrev pub server_empty_query : ℕ
server_empty_query = b'I'

abbrev pub server_error_response : ℕ
server_error_response = b'E'

abbrev pub server_parameter_description : ℕ
server_parameter_description = b't'

abbrev pub server_parameter_status : ℕ
server_parameter_status = b'S'

abbrev pub server_parse_complete : ℕ
server_parse_complete = b'1'

abbrev pub server_ready : ℕ
server_ready = b'Z'

abbrev pub server_row_description : ℕ
server_row_description = b'T'

abbrev pub server_close_complete : ℕ
server_close_complete = b'3'

abbrev pub server_copy_in_response : ℕ
server_copy_in_response = b'G'

abbrev pub server_notice_response : ℕ
server_notice_response = b'N'

abbrev pub server_no_data : ℕ
server_no_data = b'n'

abbrev pub server_portal_suspended : ℕ
server_portal_suspended = b's'

-- server.go
abbrev pub server_idle : ℕ
server_idle = b'I'

abbrev pub server_transaction_block : ℕ
server_transaction_block = b'T'

abbrev pub server_transaction_failed : ℕ
server_transaction_failed = b'E'

-- wire.go; the server compares with these two versions only.
abbrev pub version_30 : ℕ
version_30 = 196608

abbrev pub version_cancel : ℕ
version_cancel = 80877102

abbrev pub version_ssl_request : ℕ
version_ssl_request = 80877103

abbrev pub version_gssenc : ℕ
version_gssenc = 80877104
