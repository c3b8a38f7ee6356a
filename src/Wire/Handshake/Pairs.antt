-- ===== src/Wire/Handshake/Pairs.antt =====
-- The parameters of the two sides.
use psql_wire.Base.{
  All, Bool, Bool-cases, Bytes, [], ap, append_assoc, arith, equal, equal_iff, false, if◌then◌else◌,
  inl, inr, length, length-append, map, refl, some, suc, sym, true, zero, ℕ, ◌++◌, ◌<◌, ◌∙◌, ◌∷◌,
  ◌≡◌,
}
use psql_wire.Buffer.Reader.{Reader}
use psql_wire.Buffer.Reader.Values.{IsText, get_string-append}
use psql_wire.Buffer.Writer.{add_null_terminate, add_string}
use psql_wire.Buffer.Writer.Emits.{Emits, Emits-pure, Emits-then}
use psql_wire.Buffer.Writer.Framing.{Adds-add, Emits-message, Ends-end, Ends-then, server_message}
use psql_wire.Exec.{ok}
use psql_wire.Messages.{server_parameter_status}
use psql_wire.Wire.Context.{
  Context, Parameters, get_parameter, set_client_parameters, set_parameter,
}
use psql_wire.Wire.Handshake.{
  read_client_loop, read_client_parameters, write_each_parameter, write_parameter,
}

-- What a client sends: keys and values, and an empty key.
unfoldable pub encode_pairs : Parameters → Bytes
encode_pairs [] = 0 ∷ []
encode_pairs ((k, v) ∷ ps) = k ++ 0 ∷ (v ++ 0 ∷ encode_pairs ps)

-- The pairs, set one after the other.
unfoldable pub set_pairs : Parameters → Parameters → Parameters
set_pairs [] meta = meta
set_pairs ((k, v) ∷ ps) meta = set_pairs ps (set_parameter k v meta)

-- Keys and values that can be sent; the empty key would end the list.
abbrev pub ArePairs : Parameters → Type 0
ArePairs ps = All (λ p. IsText p.0 × (equal p.0 [] ≡ false) × IsText p.1) ps

encode_pairs_long : (ps : Parameters) → length ps < length (encode_pairs ps)
unfolding encode_pairs
encode_pairs_long [] = omega arith
encode_pairs_long ((k, v) ∷ ps) = omega (
  arith,
  encode_pairs_long ps,
  length-append {0} k (0 ∷ (v ++ 0 ∷ encode_pairs ps)),
  length-append {0} v (0 ∷ encode_pairs ps),
)

read_client_loop_lem :
    (fuel : ℕ) (ps : Parameters) (rest : Bytes) (meta : Parameters) (r : Reader)
    → ArePairs ps
    → length ps < fuel
    → r.msg ≡ encode_pairs ps ++ rest
    → read_client_loop fuel meta r ≡ (ok (set_pairs ps meta), record r { msg = rest })
unfolding read_client_loop encode_pairs set_pairs
read_client_loop_lem zero ps rest meta r h f e = absurd (omega arith)
read_client_loop_lem (suc fuel) [] rest meta r h f e = rw (get_string-append [] rest r tt e) refl
read_client_loop_lem (suc fuel) (([], v) ∷ ps) rest meta r h f e = absurd (unfold equal in cc)
read_client_loop_lem (suc fuel) ((b ∷ k, v) ∷ ps) rest meta r h f e =
    rw
      (
        get_string-append (b ∷ k) (v ++ 0 ∷ (encode_pairs ps ++ rest)) r h.0.0 (
            e
            ∙ append_assoc (b ∷ k) (0 ∷ (v ++ 0 ∷ encode_pairs ps)) rest
            ∙ ap (λ (m : Bytes). b ∷ (k ++ 0 ∷ m)) (append_assoc v (0 ∷ encode_pairs ps) rest)),
        get_string-append v (encode_pairs ps ++ rest)
            (record r { msg = v ++ 0 ∷ (encode_pairs ps ++ rest) }) h.0.2 refl,
      )
      (read_client_loop_lem fuel ps rest (set_parameter (b ∷ k) v meta)
        (record r { msg = encode_pairs ps ++ rest }) h.1 (omega arith) refl)

-- `readClientParameters` on what a client encodes, with keys that are not empty: each pair is set in
-- turn, so that the last value of a key counts, and exactly the encoding is taken off the message.
pub read_client_parameters-encode_pairs :
    {V : Type 0} (ps : Parameters) (rest : Bytes) (ctx : Context V) (r : Reader)
    → ArePairs ps
    → r.msg ≡ encode_pairs ps ++ rest
    → read_client_parameters ctx r
      ≡ (ok (record ctx { client_metadata = some (set_pairs ps []) }), record r { msg = rest })
unfolding read_client_parameters set_client_parameters
read_client_parameters-encode_pairs ps rest ctx r h e =
    rw
      (read_client_loop_lem (suc (length r.msg)) ps rest [] r h
        (rw e (omega (arith, encode_pairs_long ps, length-append {0} (encode_pairs ps) rest))) e)
      refl

-- What is looked up is what was set, and setting a parameter leaves the others alone.
pub get_parameter-set_parameter :
    (key name value : Bytes) (m : Parameters)
    → get_parameter (set_parameter name value m) key
      ≡ (if equal name key then value else get_parameter m key)
unfolding get_parameter set_parameter
get_parameter-set_parameter key name value [] = refl
get_parameter-set_parameter key name value ((k, v) ∷ m) = elim (Bool-cases (equal k name)) [
  | inl same ↦
      let e : k ≡ name = (equal_iff k name).0 same in rw (same, e) (overwritten (equal name key))
  | inr other ↦ rw other (elim (Bool-cases (equal k key)) [
    | inl found ↦
        let e : k ≡ key = (equal_iff k key).0 found in
        let apart : equal name key ≡ false = elim (Bool-cases (equal name key)) [
          | inl same ↦
              let joined : equal k name ≡ true =
                (equal_iff k name).1 (e ∙ sym ((equal_iff name key).0 same)) in
              absurd cc
          | inr differ ↦ differ
        ] in
        rw (found, apart) refl
    | inr missed ↦ rw (missed, get_parameter-set_parameter key name value m) refl
  ])
]
  where
    overwritten :
        (b : Bool)
        → (if b then value else get_parameter m key)
          ≡ (if b then value else (if b then v else get_parameter m key))
    overwritten true = refl
    overwritten false = refl

-- One ParameterStatus message.
abbrev pub parameter_status : Bytes × Bytes → Bytes
parameter_status (key, value) =
    server_message server_parameter_status (key ++ (0 ∷ (value ++ 0 ∷ [])))

write_parameter-Emits : (p : Bytes × Bytes) → Emits (write_parameter p) (parameter_status p ∷ [])
unfolding write_parameter add_string add_null_terminate
write_parameter-Emits (key, value) =
    Emits-message server_parameter_status (key ++ (0 ∷ (value ++ 0 ∷ []))) (
      Ends-then key (0 ∷ (value ++ 0 ∷ [])) (Adds-add key) (
        Ends-then (0 ∷ []) (value ++ 0 ∷ []) (Adds-add (0 ∷ [])) (
          Ends-then value (0 ∷ []) (Adds-add value)
            (Ends-then (0 ∷ []) [] (Adds-add (0 ∷ [])) Ends-end))))

-- Each parameter goes out as one ParameterStatus message, in the order of the list.
pub write_each_parameter-Emits :
    (ps : Parameters) → Emits (write_each_parameter ps) (map parameter_status ps)
unfolding write_each_parameter
write_each_parameter-Emits [] = Emits-pure
write_each_parameter-Emits (p ∷ ps) =
    Emits-then (parameter_status p ∷ []) (map parameter_status ps) (write_parameter-Emits p)
      (write_each_parameter-Emits ps)
