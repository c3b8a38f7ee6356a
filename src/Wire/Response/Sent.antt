-- ===== src/Wire/Response/Sent.antt =====
-- What `readyForQuery` and `ErrorCode` send.
use psql_wire.Base.{
  Bytes, Option, [], ap, append-nil, append_assoc, equal, if◌then◌else◌, none, some, subst, sym, ℕ,
  ◌++◌, ◌∷◌,
}
use psql_wire.Buffer.Words.{put_uint32}
use psql_wire.Buffer.Writer.{add_byte, add_int32, add_null_terminate, add_string}
use psql_wire.Buffer.Writer.Emits.{Emits, Emits-then}
use psql_wire.Buffer.Writer.Framing.{
  Adds, Adds-add, Adds-then, Emits-message, Ends-end, Ends-then, server_message,
}
use psql_wire.Errors.{Description, Error, Source, flatten}
use psql_wire.Exec.{pure}
use psql_wire.Messages.{server_error_response, server_idle, server_ready}
use psql_wire.Wire.Response.{
  add_field, add_optional, add_source, err_field_detail, err_field_hint, err_field_msg_primary,
  err_field_severity, err_field_sqlstate, err_field_src_file, err_field_src_function,
  err_field_src_line, error_code, ready_for_query, write_error,
}
use psql_wire.Wire.Response.Fields.{encode_field}

abbrev pub ready_message : Bytes
ready_message = server_message server_ready (server_idle ∷ [])

pub ready_for_query-Emits : Emits (ready_for_query server_idle) (ready_message ∷ [])
unfolding ready_for_query add_byte
ready_for_query-Emits =
    Emits-message server_ready (server_idle ∷ [])
      (Ends-then (server_idle ∷ []) [] (Adds-add (server_idle ∷ [])) Ends-end)

abbrev pub optional_field : ℕ → Bytes → Bytes
optional_field field value = if equal value [] then [] else encode_field field value

-- The fields that the server adds for a source; the line is four bytes.
abbrev pub source_fields : Option Source → Bytes
source_fields none = []
source_fields (some s) =
    encode_field err_field_src_file s.file
    ++ (encode_field err_field_src_line (put_uint32 s.line)
        ++ encode_field err_field_src_function s.function)

-- The body that `ErrorCode` sends: every part of the description but the constraint name.
abbrev pub error_body : Description → Bytes
error_body d =
    encode_field err_field_severity d.severity
    ++ (encode_field err_field_sqlstate d.code
        ++ (encode_field err_field_msg_primary d.text_message
            ++ (optional_field err_field_hint d.hint
                ++ (optional_field err_field_detail d.detail
                    ++ (source_fields d.source ++ 0 ∷ [])))))

add_field-Adds :
    (field : ℕ) (value : Bytes) → Adds (add_field field value) (encode_field field value)
unfolding add_field add_byte add_string add_null_terminate
add_field-Adds field value =
    Adds-then (field ∷ []) (value ++ 0 ∷ []) (Adds-add (field ∷ []))
      (Adds-then value (0 ∷ []) (Adds-add value) (Adds-add (0 ∷ [])))

pub Adds-pure : {A : Type 0} (a : A) → Adds (pure a) []
Adds-pure a = record { at = λ w h. (a, rw append-nil) }

add_optional-Adds :
    (field : ℕ) (value : Bytes) → Adds (add_optional field value) (optional_field field value)
unfolding add_optional equal
add_optional-Adds field [] = Adds-pure 0
add_optional-Adds field (b ∷ value) = add_field-Adds field (b ∷ value)

add_source-Adds : (s : Option Source) → Adds (add_source s) (source_fields s)
unfolding add_source add_byte add_int32 add_null_terminate
add_source-Adds none = Adds-pure 0
add_source-Adds (some s) =
    Adds-then (encode_field err_field_src_file s.file) _ (add_field-Adds _ s.file) (
      subst (Adds _)
        (ap (◌∷◌ err_field_src_line) (sym (append_assoc (put_uint32 s.line) (0 ∷ []) _)))
        (Adds-then (err_field_src_line ∷ []) _ (Adds-add (err_field_src_line ∷ [])) (
          Adds-then (put_uint32 s.line) _ (Adds-add (put_uint32 s.line))
            (Adds-then (0 ∷ []) _ (Adds-add (0 ∷ [])) (add_field-Adds _ s.function)))))

write_error-Emits :
    (d : Description)
    → Emits (write_error d) (server_message server_error_response (error_body d) ∷ [])
unfolding write_error add_null_terminate
write_error-Emits d = Emits-message server_error_response (error_body d) (
    Ends-then _ _ (add_field-Adds _ d.severity) (
      Ends-then _ _ (add_field-Adds _ d.code) (
        Ends-then _ _ (add_field-Adds _ d.text_message) (
          Ends-then _ _ (add_optional-Adds _ d.hint) (
            Ends-then _ _ (add_optional-Adds _ d.detail) (
              Ends-then _ _ (add_source-Adds d.source)
                (Ends-then (0 ∷ []) [] (Adds-add (0 ∷ [])) Ends-end)))))))

-- On every error, nil included, `ErrorCode` sends an ErrorResponse with the severity, the code, the
-- message, the hint and the detail that are not empty, and the source of the flattened error, but not
-- its constraint name, and one ReadyForQuery behind it; a connection that breaks gets a front part of
-- the two.
pub error_code-Emits :
    (e : Option Error)
    → Emits
        (error_code e)
        (server_message server_error_response (error_body (flatten e)) ∷ ready_message ∷ [])
unfolding error_code
error_code-Emits e =
    Emits-then (server_message server_error_response (error_body (flatten e)) ∷ [])
      (ready_message ∷ []) (write_error-Emits (flatten e)) ready_for_query-Emits
