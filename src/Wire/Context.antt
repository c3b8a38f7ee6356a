-- ===== src/Wire/Context.antt =====
-- conn.go: what a connection's context carries. `V` is the type of the values that a handler hands
-- over; `none` is the nil interface. github.com/jackc/pgtype is not part of the repository: a data
-- type of its connection info is what the server asks of it.
use psql_wire.Base.{Bytes, List, Option, [], codes, equal, if◌then◌else◌, none, some, ℕ, ◌∷◌}
use psql_wire.Errors.{Error}
use psql_wire.Exec.{Result}

-- `set` is `Value.Set(src)`. The encoders are called behind a `Set` that has not failed, and answer
-- for the value that was set; `panic` is a type assertion that fails.
pub record DataType (V : Type 0) : Type 0 where
  pub set : Option V → Option Error
  pub encode_text : Option V → Result Bytes
  pub encode_binary : Option V → Result Bytes

-- `DataTypeForOID`
pub record ConnInfo (V : Type 0) : Type 0 where
  pub data_type_for_oid : ℕ → Option (DataType V)

-- A Go map with string keys, as its entries in some order.
abbrev pub Parameters : Type 0
Parameters = List (Bytes × Bytes)

-- `meta[key]`; a missing key reads as the empty string.
unfoldable pub get_parameter : Parameters → Bytes → Bytes
get_parameter [] key = []
get_parameter ((k, v) ∷ m) key = if equal k key then v else get_parameter m key

-- `meta[key] = value`
unfoldable pub set_parameter : Bytes → Bytes → Parameters → Parameters
set_parameter key value [] = (key, value) ∷ []
set_parameter key value ((k, v) ∷ m) =
    if equal k key then (key, value) ∷ m else (k, v) ∷ set_parameter key value m

-- `cancelled` is `ctx.Err()`; the others are the values under the keys of conn.go.
pub record Context (V : Type 0) : Type 0 where
  pub cancelled : Option Error
  pub type_info : Option (ConnInfo V)
  pub client_metadata : Option Parameters
  pub server_metadata : Option Parameters

module _ {V : Type 0} where
  unfoldable pub set_type_info : ConnInfo V → Context V → Context V
  set_type_info info ctx = record ctx { type_info = some info }

  unfoldable pub set_client_parameters : Option Parameters → Context V → Context V
  set_client_parameters none ctx = ctx
  set_client_parameters (some m) ctx = record ctx { client_metadata = some m }

  unfoldable pub set_server_parameters : Option Parameters → Context V → Context V
  set_server_parameters none ctx = ctx
  set_server_parameters (some m) ctx = record ctx { server_metadata = some m }

  -- `ClientParameters(ctx)[key]`; a nil map has no keys.
  unfoldable pub client_parameter : Context V → Bytes → Bytes
  unfolding get_parameter
  client_parameter ctx key = elim ctx.client_metadata [ none ↦ [] | some m ↦ get_parameter m key ]

abbrev pub param_server_encoding : Bytes
param_server_encoding = codes "server_encoding"

abbrev pub param_client_encoding : Bytes
param_client_encoding = codes "client_encoding"

abbrev pub param_is_superuser : Bytes
param_is_superuser = codes "is_superuser"

abbrev pub param_session_authorization : Bytes
param_session_authorization = codes "session_authorization"

abbrev pub param_username : Bytes
param_username = codes "user"

abbrev pub param_server_version : Bytes
param_server_version = codes "server_version"
