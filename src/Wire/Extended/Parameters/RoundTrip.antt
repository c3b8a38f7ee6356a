-- ===== src/Wire/Extended/Parameters/RoundTrip.antt =====
-- `readParameters` on what a client encodes.
use psql_wire.Base.{
  All, Bytes, List, [], ap, append_assoc, arith, length, lt→ltb, refl, replicate, suc, zero, ℕ,
  ◌++◌, ◌<◌, ◌∙◌, ◌∷◌, ◌≡◌,
}
use psql_wire.Buffer.Failures.{new_insufficient_data}
use psql_wire.Buffer.Reader.{Reader, get_bytes}
use psql_wire.Buffer.Reader.Values.{get_bytes-append, get_uint16-put_uint16, get_uint32-put_uint32}
use psql_wire.Buffer.Words.{put_uint16, put_uint32}
use psql_wire.Exec.{err, ok}
use psql_wire.Wire.Extended.Parameters.{
  read_formats, read_parameters, read_result_formats, read_values,
}

-- The values, each behind its length.
unfoldable pub encode_values : List Bytes → Bytes
encode_values [] = []
encode_values (v ∷ vs) = put_uint32 (length v) ++ (v ++ encode_values vs)

unfoldable pub encode_words : List ℕ → Bytes
encode_words [] = []
encode_words (n ∷ ns) = put_uint16 n ++ encode_words ns

-- Text format codes for some of the parameters, the values, and format codes for the result columns.
abbrev pub encode_parameters : ℕ → List Bytes → List ℕ → Bytes
encode_parameters formats values columns =
    put_uint16 formats
    ++ (encode_words (replicate formats 0)
        ++ (put_uint16 (length values)
            ++ (encode_values values ++ (put_uint16 (length columns) ++ encode_words columns))))

read_formats_lem :
    (n : ℕ) (rest : Bytes) (r : Reader)
    → r.msg ≡ encode_words (replicate n 0) ++ rest
    → read_formats n r ≡ (ok tt, record r { msg = rest })
unfolding read_formats encode_words
read_formats_lem zero rest r e = ap (λ (m : Bytes). (ok tt, record r { msg = m })) e
read_formats_lem (suc n) rest r e =
    rw
      (get_uint16-put_uint16 0 (encode_words (replicate n 0) ++ rest) r (omega arith)
        (e ∙ append_assoc (put_uint16 0) _ rest))
      (read_formats_lem n rest (record r { msg = encode_words (replicate n 0) ++ rest }) refl)

read_values_lem :
    (vs : List Bytes) (rest : Bytes) (r : Reader)
    → All (λ v. length v < 4294967296) vs
    → r.msg ≡ encode_values vs ++ rest
    → read_values (length vs) r ≡ (ok vs, record r { msg = rest })
unfolding read_values encode_values
read_values_lem [] rest r h e = ap (λ (m : Bytes). (ok [], record r { msg = m })) e
read_values_lem (v ∷ vs) rest r h e =
    rw
      (
        get_uint32-put_uint32 (length v) (v ++ (encode_values vs ++ rest)) r h.0 (
            e
            ∙ append_assoc (put_uint32 (length v)) _ rest
            ∙ ap (◌++◌ (put_uint32 (length v))) (append_assoc v (encode_values vs) rest)),
        get_bytes-append v (encode_values vs ++ rest)
            (record r { msg = v ++ (encode_values vs ++ rest) }) refl,
        read_values_lem vs rest (record r { msg = encode_values vs ++ rest }) h.1 refl,
      )
      refl

read_result_formats_lem :
    (ns : List ℕ) (rest : Bytes) (r : Reader)
    → All (λ n. n < 65536) ns
    → r.msg ≡ encode_words ns ++ rest
    → read_result_formats (length ns) r ≡ (ok tt, record r { msg = rest })
unfolding read_result_formats encode_words
read_result_formats_lem [] rest r h e = ap (λ (m : Bytes). (ok tt, record r { msg = m })) e
read_result_formats_lem (n ∷ ns) rest r h e =
    rw
      (get_uint16-put_uint16 n (encode_words ns ++ rest) r h.0
        (e ∙ append_assoc (put_uint16 n) _ rest))
      (read_result_formats_lem ns rest (record r { msg = encode_words ns ++ rest }) h.1 refl)

get_bytes_short :
    (n : ℕ) (r : Reader)
    → length r.msg < n
    → get_bytes n r ≡ (err (new_insufficient_data (length r.msg)), r)
unfolding get_bytes
get_bytes_short n r h = rw (lt→ltb (length r.msg) n h) refl

-- The counts, lengths and column format codes fit their words.
pub record IsEncodable (formats : ℕ) (values : List Bytes) (columns : List ℕ) : Type 0 where
  pub formats_fit : formats < 65536
  pub values_fit : length values < 65536
  pub lengths_fit : All (λ v. length v < 4294967296) values
  pub columns_fit : length columns < 65536
  pub codes_fit : All (λ n. n < 65536) columns

-- The values come back, and exactly the encoding is taken off the message, if the format codes of
-- the parameters are all text, and the counts, lengths and column format codes fit their words.
pub read_parameters-encode :
    (formats : ℕ) (values : List Bytes) (columns : List ℕ) (rest : Bytes) (r : Reader)
    → IsEncodable formats values columns
    → r.msg ≡ encode_parameters formats values columns ++ rest
    → read_parameters r ≡ (ok values, record r { msg = rest })
unfolding read_parameters
read_parameters-encode formats values columns rest r h e =
    let m4 = encode_words columns ++ rest in
    let m3 = put_uint16 (length columns) ++ m4 in
    let m2 = encode_values values ++ m3 in
    let m1 = put_uint16 (length values) ++ m2 in
    let m0 = encode_words (replicate formats 0) ++ m1 in
    rw
      (
        get_uint16-put_uint16 formats m0 r h.formats_fit (e ∙ simp append_assoc),
        read_formats_lem formats m1 (record r { msg = m0 }) refl,
        get_uint16-put_uint16 (length values) m2 (record r { msg = m1 }) h.values_fit refl,
        read_values_lem values m3 (record r { msg = m2 }) h.lengths_fit refl,
        get_uint16-put_uint16 (length columns) m4 (record r { msg = m3 }) h.columns_fit refl,
        read_result_formats_lem columns rest (record r { msg = m4 }) h.codes_fit refl,
      )
      refl

-- A NULL as the first parameter: where fewer than 2^32 - 1 bytes follow its length word -1, the
-- message is rejected for insufficient data.
pub read_parameters-null :
    (formats count : ℕ) (rest : Bytes) (r : Reader)
    → formats < 65536
    → suc count < 65536
    → length rest < 4294967295
    → r.msg
      ≡ put_uint16 formats
        ++ (encode_words (replicate formats 0)
            ++ (put_uint16 (suc count) ++ (put_uint32 4294967295 ++ rest)))
    → (read_parameters r).0 ≡ err (new_insufficient_data (length rest))
unfolding read_parameters read_values
read_parameters-null formats count rest r hf hc short e =
    let m2 = put_uint32 4294967295 ++ rest in
    let m1 = put_uint16 (suc count) ++ m2 in
    let m0 = encode_words (replicate formats 0) ++ m1 in
    rw
      (
        get_uint16-put_uint16 formats m0 r hf e,
        read_formats_lem formats m1 (record r { msg = m0 }) refl,
        get_uint16-put_uint16 (suc count) m2 (record r { msg = m1 }) hc refl,
        get_uint32-put_uint32 4294967295 rest (record r { msg = m2 }) (omega arith) refl,
        get_bytes_short 4294967295 (record r { msg = rest }) short,
      )
      refl
