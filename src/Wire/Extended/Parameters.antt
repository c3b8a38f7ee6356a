-- ===== src/Wire/Extended/Parameters.antt =====
-- `writeParameterDescriptions` and `readParameters` of command.go.
pub mod RoundTrip
use psql_wire.Base.{Bytes, List, [], codes, if◌then◌else◌, length, suc, zero, ℕ, ◌%◌, ◌==◌, ◌∷◌}
use psql_wire.Buffer.Reader.{Reader, get_bytes, get_uint16, get_uint32}
use psql_wire.Buffer.Writer.{Writer, add_int16, add_int32, end, start}
use psql_wire.Errors.{Error, text}
use psql_wire.Exec.{Exec, pure, raise, ◌>>=◌, ◌>>◌}
use psql_wire.Messages.{server_parameter_description}

unfoldable pub add_each_int32 : List ℕ → Exec Writer ℕ
add_each_int32 [] = pure 0
add_each_int32 (i ∷ is) = do add_int32 i; add_each_int32 is

-- `writeParameterDescriptions`
unfoldable pub write_parameter_descriptions : List ℕ → Exec Writer (Unit {0})
unfolding add_each_int32
write_parameter_descriptions [] = pure tt
write_parameter_descriptions (p ∷ parameters) = do
  start server_parameter_description
  add_int16 (length (p ∷ parameters) % 65536)
  add_each_int32 (p ∷ parameters)
  end

abbrev pub unsupported_binary_format : Error
unsupported_binary_format = text (
    codes
      "unsupported binary parameter format, only text formatted parameter types are currently supported")

-- The parameter format codes.
unfoldable pub read_formats : ℕ → Exec Reader (Unit {0})
read_formats zero = pure tt
read_formats (suc n) = do
  format ← get_uint16
  if format == 0 then read_formats n else raise unsupported_binary_format

-- The parameter values. `int(length)` of a uint32 is not negative: `int` has 64 bits.
unfoldable pub read_values : ℕ → Exec Reader (List Bytes)
read_values zero = pure []
read_values (suc n) = do
  size ← get_uint32
  value ← get_bytes size
  values ← read_values n
  pure (value ∷ values)

-- The result-column format codes, which are ignored.
unfoldable pub read_result_formats : ℕ → Exec Reader (Unit {0})
read_result_formats zero = pure tt
read_result_formats (suc n) = do get_uint16; read_result_formats n

-- `readParameters`
unfoldable pub read_parameters : Exec Reader (List Bytes)
unfolding read_formats read_values read_result_formats
read_parameters = do
  formats ← get_uint16
  read_formats formats
  count ← get_uint16
  parameters ← read_values count
  columns ← get_uint16
  read_result_formats columns
  pure parameters
