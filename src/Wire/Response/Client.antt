-- ===== src/Wire/Response/Client.antt =====
-- What a client reads in the ErrorResponse of `ErrorCode`.
use psql_wire.Base.{
  All, All-append, Bytes, List, Option, [], ap, append-nil, append_assoc, arith, equal,
  if◌then◌else◌, none, refl, some, suc, ℕ, ◌++◌, ◌<◌, ◌∙◌, ◌∷◌, ◌≡◌, ◌≢◌,
}
use psql_wire.Buffer.Reader.{split_nul}
use psql_wire.Buffer.Reader.Values.{IsText}
use psql_wire.Buffer.Words.{put_uint32}
use psql_wire.Buffer.Writer.{Writer}
use psql_wire.Buffer.Writer.Emits.{Emits}
use psql_wire.Buffer.Writer.Framing.{server_message}
use psql_wire.Errors.{Description, Error, Source, flatten, with_constraint_name}
use psql_wire.Messages.{server_error_response}
use psql_wire.Wire.Response.{
  err_field_detail, err_field_hint, err_field_msg_primary, err_field_severity, err_field_sqlstate,
  err_field_src_file, err_field_src_function, err_field_src_line, error_code,
}
use psql_wire.Wire.Response.Constraint.{error_code-with_constraint_name}
use psql_wire.Wire.Response.Fields.{
  Field, IsField, decode_fields, decode_fields-front, decode_loop, encode_field, encode_fields,
}
use psql_wire.Wire.Response.Sent.{
  error_body, error_code-Emits, optional_field, ready_message, source_fields,
}

abbrev optional : ℕ → Bytes → List Field
optional field value = if equal value [] then [] else (field, value) ∷ []

-- The fields of an error, without its source.
abbrev pub text_fields : Description → List Field
text_fields d =
    (err_field_severity, d.severity)
    ∷ (err_field_sqlstate, d.code)
    ∷ (err_field_msg_primary, d.text_message)
    ∷ (optional err_field_hint d.hint ++ optional err_field_detail d.detail)

-- No text of the error holds a NUL.
pub record IsSendable (d : Description) : Type 0 where
  pub severity : IsText d.severity
  pub code : IsText d.code
  pub text_message : IsText d.text_message
  pub hint : IsText d.hint
  pub detail : IsText d.detail

encode_fields-append :
    (xs ys : List Field) → encode_fields (xs ++ ys) ≡ encode_fields xs ++ encode_fields ys
encode_fields-append [] ys = refl
encode_fields-append ((field, value) ∷ xs) ys = simp (encode_fields-append xs ys, append_assoc)

encode_fields-optional :
    (field : ℕ) (value : Bytes) → encode_fields (optional field value) ≡ optional_field field value
unfolding equal
encode_fields-optional field [] = refl
encode_fields-optional field (b ∷ value) = append-nil (encode_field field (b ∷ value))

optional-IsField :
    (field : ℕ) (value : Bytes) → field ≢ 0 → IsText value → All IsField (optional field value)
unfolding equal
optional-IsField field [] f h = tt
optional-IsField field (b ∷ value) f h = ((f, h), tt)

error_body-encode_fields :
    (d : Description)
    → error_body d ≡ encode_fields (text_fields d) ++ (source_fields d.source ++ 0 ∷ [])
error_body-encode_fields d = simp (encode_fields-append, encode_fields-optional, append_assoc)

text_fields-IsField : (d : Description) → IsSendable d → All IsField (text_fields d)
text_fields-IsField d h = (
  (omega arith, h.severity),
  (
    (omega arith, h.code),
    (
      (omega arith, h.text_message),
      All-append IsField (optional err_field_hint d.hint) (optional err_field_detail d.detail)
          (optional-IsField _ d.hint (omega arith) h.hint)
          (optional-IsField _ d.detail (omega arith) h.detail),
    ),
  ),
)

decode_fields-error_body :
    (d : Description)
    → IsSendable d
    → d.source ≡ none
    → decode_fields (error_body d) ≡ some (text_fields d)
decode_fields-error_body d h e = rw (error_body-encode_fields d) (
    rw e (
      decode_fields-front (0 ∷ []) [] (λ k. unfold decode_loop in refl) (text_fields d)
        (text_fields-IsField d h) (omega arith)
      ∙ ap some (append-nil (text_fields d))))

-- The line field and what follows it.
abbrev line_and_rest : Source → Bytes
line_and_rest s =
    err_field_src_line
    ∷ (put_uint32 s.line ++ (0 ∷ (encode_field err_field_src_function s.function ++ 0 ∷ [])))

regroup :
    (d : Description) (s : Source)
    → encode_fields (text_fields d) ++ (source_fields (some s) ++ 0 ∷ [])
      ≡ encode_fields (text_fields d ++ (err_field_src_file, s.file) ∷ []) ++ line_and_rest s
regroup d s = simp (encode_fields-append, append_assoc, append-nil)

decode_loop-line_and_rest :
    (s : Source)
    → s.line < 65536
    → (k : ℕ) → decode_loop (suc (suc k)) (line_and_rest s) ≡ some ((err_field_src_line, []) ∷ [])
unfolding decode_loop split_nul put_uint32
decode_loop-line_and_rest s l k = ground arith

decode_fields-error_body_source :
    (d : Description) (s : Source)
    → IsSendable d
    → d.source ≡ some s
    → IsText s.file
    → s.line < 65536
    → decode_fields (error_body d)
      ≡ some (text_fields d ++ (err_field_src_file, s.file) ∷ (err_field_src_line, []) ∷ [])
decode_fields-error_body_source d s h e f l = rw (error_body-encode_fields d) (
    rw e (
      ap decode_fields (regroup d s)
      ∙ decode_fields-front (line_and_rest s) ((err_field_src_line, []) ∷ [])
          (decode_loop-line_and_rest s l) (text_fields d ++ (err_field_src_file, s.file) ∷ [])
          (All-append IsField (text_fields d) ((err_field_src_file, s.file) ∷ [])
            (text_fields-IsField d h) ((omega arith, f), tt))
          (omega arith)
      ∙ ap some (
          append_assoc (text_fields d) ((err_field_src_file, s.file) ∷ [])
            ((err_field_src_line, []) ∷ []))))

-- `ErrorCode` on an error, nil included, whose texts hold no NUL and that has no source sends an
-- ErrorResponse and a ReadyForQuery, and a client reads from the ErrorResponse exactly the severity,
-- the code, the message, and the hint and the detail that are not empty. The constraint name never
-- reaches the client: `ErrorCode` does the same on the error with any constraint name added to it.
pub error_code-decode_fields :
    (e : Option Error)
    → IsSendable (flatten e)
    → (flatten e).source ≡ none
    → (body : Bytes) × Emits
        (error_code e)
        (server_message server_error_response body ∷ ready_message ∷ [])
      × (decode_fields body ≡ some (text_fields (flatten e)))
      × ((name : Bytes) (w : Writer) → error_code (with_constraint_name e name) w ≡ error_code e w)
error_code-decode_fields e h none_given = (
  error_body (flatten e),
  error_code-Emits e,
  decode_fields-error_body (flatten e) h none_given,
  error_code-with_constraint_name e,
)

-- Where the error has a source with a line below 65536, the client reads an empty line field and
-- ends there: the line's first byte is the NUL of its text, the second ends the message. The line and
-- the function are lost.
pub error_code-decode_fields_source :
    (e : Option Error) (s : Source)
    → IsSendable (flatten e)
    → (flatten e).source ≡ some s
    → IsText s.file
    → s.line < 65536
    → (body : Bytes) × Emits
        (error_code e)
        (server_message server_error_response body ∷ ready_message ∷ [])
      × (decode_fields body
          ≡ some (
              text_fields (flatten e)
              ++ (err_field_src_file, s.file) ∷ (err_field_src_line, []) ∷ []))
error_code-decode_fields_source e s h given f l = (
  error_body (flatten e),
  error_code-Emits e,
  decode_fields-error_body_source (flatten e) s h given f l,
)
