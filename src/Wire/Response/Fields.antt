-- ===== src/Wire/Response/Fields.antt =====
-- The body of an ErrorResponse as the protocol defines it: fields of a type byte and a text that a
-- NUL ends, and a NUL behind the last; and the client that reads it.
-- https://www.postgresql.org/docs/current/protocol-error-fields.html
use psql_wire.Base.{
  All, Bytes, List, Option, [], append_assoc, arith, length, length-append, none, refl, some, suc,
  zero, ℕ, ◌*◌, ◌++◌, ◌+◌, ◌∷◌, ◌≡◌, ◌≢◌, ◌≤◌,
}
use psql_wire.Buffer.Reader.{split_nul}
use psql_wire.Buffer.Reader.Values.{IsText, split_nul-append}

abbrev pub Field : Type 0
Field = ℕ × Bytes

abbrev pub encode_field : ℕ → Bytes → Bytes
encode_field field value = field ∷ (value ++ 0 ∷ [])

abbrev pub encode_fields : List Field → Bytes
encode_fields [] = []
encode_fields ((field, value) ∷ fields) = encode_field field value ++ encode_fields fields

-- What a client reads: `none` where the body ends inside a field. What follows the NUL behind the
-- last field is not looked at. A round takes a byte at least.
unfoldable pub decode_loop : ℕ → Bytes → Option (List Field)
decode_loop zero body = none
decode_loop (suc fuel) [] = none
decode_loop (suc fuel) (zero ∷ rest) = some []
decode_loop (suc fuel) (suc b ∷ rest) = elim (split_nul rest) [
  | none ↦ none
  | some (value, rest') ↦ elim (decode_loop fuel rest') [
    | none ↦ none
    | some fields ↦ some ((suc b, value) ∷ fields)
  ]
]

unfoldable pub decode_fields : Bytes → Option (List Field)
unfolding decode_loop split_nul
decode_fields body = decode_loop (suc (length body)) body

abbrev pub IsField : Field → Type 0
IsField (field, value) = (field ≢ 0) × IsText value

length-encode_fields : (fields : List Field) → 2 * length fields ≤ length (encode_fields fields)
length-encode_fields [] = omega arith
length-encode_fields ((field, value) ∷ fields) = omega (
  arith,
  length-append {0} (value ++ 0 ∷ []) (encode_fields fields),
  length-append {0} value (0 ∷ []),
  length-encode_fields fields,
)

module _ (rest : Bytes) (more : List Field)
    (read : (k : ℕ) → decode_loop (suc (suc k)) rest ≡ some more) where
  decode_loop-encode_fields :
      (fields : List Field) (fuel : ℕ)
      → All IsField fields
      → length fields + 2 ≤ fuel
      → decode_loop fuel (encode_fields fields ++ rest) ≡ some (fields ++ more)
  unfolding decode_loop
  decode_loop-encode_fields [] zero h f = absurd (omega arith)
  decode_loop-encode_fields [] (suc zero) h f = absurd (omega arith)
  decode_loop-encode_fields [] (suc (suc fuel)) h f = read fuel
  decode_loop-encode_fields (p ∷ fields) zero h f = absurd (omega arith)
  decode_loop-encode_fields ((zero, value) ∷ fields) (suc fuel) h f = absurd (h.0.0 refl)
  decode_loop-encode_fields ((suc b, value) ∷ fields) (suc fuel) h f =
      rw (append_assoc (value ++ 0 ∷ []) (encode_fields fields) rest) (
        rw (append_assoc value (0 ∷ []) (encode_fields fields ++ rest)) (
          ground (
            arith,
            split_nul-append value (encode_fields fields ++ rest) h.0.1,
            decode_loop-encode_fields fields fuel h.1,
          )))

  -- A client reads the fields in front, and what it makes of the rest.
  pub decode_fields-front :
      (fields : List Field)
      → All IsField fields
      → 1 ≤ length rest
      → decode_fields (encode_fields fields ++ rest) ≡ some (fields ++ more)
  unfolding decode_fields
  decode_fields-front fields h l =
      decode_loop-encode_fields fields (suc (length (encode_fields fields ++ rest))) h
        (omega (arith, length-append {0} (encode_fields fields) rest, length-encode_fields fields))
