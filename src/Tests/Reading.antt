-- ===== src/Tests/Reading.antt =====
-- Messages and values that are read.
use psql_wire.Base.{
  Bytes, [], arith, codes, equal, if◌then◌else◌, refl, replicate, some, ◌++◌, ◌∷◌, ◌≡◌,
}
use psql_wire.Buffer.Failures.{new_insufficient_data}
use psql_wire.Buffer.Reader.{read_typed_msg}
use psql_wire.Buffer.Reader.Typed.{read_typed_msg-server_message}
use psql_wire.Buffer.Words.{put_uint16, put_uint32}
use psql_wire.Buffer.Writer.Framing.{server_message}
use psql_wire.Exec.{err, ok}
use psql_wire.Tests.Samples.{letters, letters-IsText, reader_at, reader_of, sample_context}
use psql_wire.Wire.Context.{Parameters, get_parameter, set_parameter}
use psql_wire.Wire.Extended.Parameters.{read_parameters}
use psql_wire.Wire.Extended.Parameters.RoundTrip.{
  IsEncodable, encode_parameters, encode_words, read_parameters-encode, read_parameters-null,
}
use psql_wire.Wire.Handshake.{read_client_parameters}
use psql_wire.Wire.Handshake.Pairs.{
  encode_pairs, get_parameter-set_parameter, read_client_parameters-encode_pairs, set_pairs,
}

read_typed_msg-server_message_example :
    read_typed_msg (reader_of (server_message 81 letters ++ letters))
    ≡ (ok (81, 6), record (reader_of letters) { msg = letters })
read_typed_msg-server_message_example =
    read_typed_msg-server_message 81 letters letters
      (reader_of (server_message 81 letters ++ letters)) (omega arith) (omega arith) refl

sample-IsEncodable : IsEncodable 1 (letters ∷ []) (1 ∷ [])
sample-IsEncodable = record {
  formats_fit = omega arith;
  values_fit = omega arith;
  lengths_fit = (omega arith, tt);
  columns_fit = omega arith;
  codes_fit = (omega arith, tt);
}

read_parameters-encode_example :
    read_parameters (reader_at (encode_parameters 1 (letters ∷ []) (1 ∷ []) ++ letters))
    ≡ (ok (letters ∷ []), reader_at letters)
read_parameters-encode_example =
    read_parameters-encode 1 (letters ∷ []) (1 ∷ []) letters
      (reader_at (encode_parameters 1 (letters ∷ []) (1 ∷ []) ++ letters)) sample-IsEncodable refl

abbrev null_message : Bytes
null_message =
    put_uint16 0
    ++ (encode_words (replicate 0 0) ++ (put_uint16 1 ++ (put_uint32 4294967295 ++ (0 ∷ 0 ∷ []))))

read_parameters-null_example :
    (read_parameters (reader_at null_message)).0 ≡ err (new_insufficient_data 2)
read_parameters-null_example =
    read_parameters-null 0 0 (0 ∷ 0 ∷ []) (reader_at null_message) (omega arith) (omega arith)
      (omega arith) refl

abbrev pairs : Parameters
pairs = (letters, letters) ∷ []

read_client_parameters-encode_pairs_example :
    read_client_parameters sample_context (reader_at (encode_pairs pairs ++ letters)) ≡ (
      ok (record sample_context { client_metadata = some (set_pairs pairs []) }),
      reader_at letters,
    )
read_client_parameters-encode_pairs_example =
    read_client_parameters-encode_pairs pairs letters sample_context
      (reader_at (encode_pairs pairs ++ letters))
      ((letters-IsText, unfold equal in refl, letters-IsText), tt) refl

get_parameter-set_parameter_example :
    get_parameter (set_parameter letters (codes "x") pairs) (codes "b")
    ≡ (if equal letters (codes "b") then codes "x" else get_parameter pairs (codes "b"))
get_parameter-set_parameter_example =
    get_parameter-set_parameter (codes "b") letters (codes "x") pairs
