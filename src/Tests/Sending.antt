-- ===== src/Tests/Sending.antt =====
-- Messages that are sent.
use psql_wire.Base.{Bytes, [], arith, equal, none, refl, some, ◌++◌, ◌∷◌, ◌≡◌}
use psql_wire.Buffer.Words.{put_uint32}
use psql_wire.Buffer.Writer.{Writer}
use psql_wire.Buffer.Writer.Emits.{Emits}
use psql_wire.Buffer.Writer.Framing.{Adds, server_message}
use psql_wire.Errors.{
  Error, Source, combine_codes, default_severity, detailed, flatten, get_code, get_detail, get_hint,
  get_severity, get_source, hinted, message, sourced, text, with_constraint_name,
}
use psql_wire.Errors.Chain.{
  first, flatten-layers, layers, or_else, own_code, own_constraint, own_detail, own_hint,
  own_severity, own_source,
}
use psql_wire.Errors.Codes.Internals.{uncategorized}
use psql_wire.Messages.{server_error_response}
use psql_wire.Tests.Samples.{letters, letters-IsText, plain}
use psql_wire.Wire.Response.{err_field_src_file, err_field_src_line, error_code}
use psql_wire.Wire.Response.Client.{
  IsSendable, error_code-decode_fields, error_code-decode_fields_source, text_fields,
}
use psql_wire.Wire.Response.Fields.{decode_fields}
use psql_wire.Wire.Response.Sent.{error_body, error_code-Emits, ready_message}
use psql_wire.Wire.Row.{Column, write_typed}
use psql_wire.Wire.Row.Described.{write_typed-unknown}

abbrev failure : Error
failure = hinted (detailed (text letters) letters) letters

error_code-Emits_example : Emits (error_code (some failure)) (
    server_message server_error_response (error_body (flatten (some failure))) ∷ ready_message ∷ [])
error_code-Emits_example = error_code-Emits (some failure)

flatten-layers_example : flatten (some failure) ≡ record {
  code = or_else uncategorized (first own_code (layers failure));
  text_message = message failure;
  detail = or_else [] (first own_detail (layers failure));
  hint = or_else [] (first own_hint (layers failure));
  severity = default_severity (or_else [] (first own_severity (layers failure)));
  constraint_name = or_else [] (first own_constraint (layers failure));
  source = first own_source (layers failure);
}
flatten-layers_example = flatten-layers failure

abbrev place : Source
place = record { file = letters; line = 12; function = letters }

abbrev traced : Error
traced = sourced failure place

failure-IsSendable : IsSendable (flatten (some failure))
unfolding flatten message get_code get_severity get_detail get_hint combine_codes default_severity
    equal
failure-IsSendable = record {
  severity = ground arith;
  code = ground arith;
  text_message = letters-IsText;
  hint = letters-IsText;
  detail = letters-IsText;
}

traced-IsSendable : IsSendable (flatten (some traced))
unfolding flatten message get_code get_severity get_detail get_hint combine_codes default_severity
    equal
traced-IsSendable = record {
  severity = ground arith;
  code = ground arith;
  text_message = letters-IsText;
  hint = letters-IsText;
  detail = letters-IsText;
}

no_source : (flatten (some failure)).source ≡ none
unfolding flatten get_source
no_source = refl

its_source : (flatten (some traced)).source ≡ some place
unfolding flatten get_source
its_source = refl

error_code-decode_fields_example :
    (body : Bytes) × Emits
      (error_code (some failure))
      (server_message server_error_response body ∷ ready_message ∷ [])
    × (decode_fields body ≡ some (text_fields (flatten (some failure))))
    × ((name : Bytes) (w : Writer)
        → error_code (with_constraint_name (some failure) name) w ≡ error_code (some failure) w)
error_code-decode_fields_example =
    error_code-decode_fields (some failure) failure-IsSendable no_source

error_code-decode_fields_source_example :
    (body : Bytes) × Emits
      (error_code (some traced))
      (server_message server_error_response body ∷ ready_message ∷ [])
    × (decode_fields body
        ≡ some (
            text_fields (flatten (some traced))
            ++ (err_field_src_file, letters) ∷ (err_field_src_line, []) ∷ []))
error_code-decode_fields_source_example =
    error_code-decode_fields_source (some traced) place traced-IsSendable its_source letters-IsText
      (omega arith)

abbrev wide : Column
wide = record {
  table = 0;
  name = letters;
  attr_no = 0;
  oid = 25;
  width = 65535;
  type_modifier = 0;
  format = 2;
}

write_typed-unknown_example : Adds (write_typed wide (some plain) (some 7)) (put_uint32 0)
write_typed-unknown_example =
    write_typed-unknown wide plain 7 (λ e. omega (arith, e)) (λ e. omega (arith, e)) refl
