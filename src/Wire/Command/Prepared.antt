-- ===== src/Wire/Command/Prepared.antt =====
-- The handlers of prepared statements come back.
use psql_wire.Base.{
  Bytes, List, Option, Option-cases, [], arith, inl, inr, none, refl, some, suc, zero, ℕ, ◌==◌, ◌∷◌,
  ◌≡◌, ◌≢◌,
}
use psql_wire.Buffer.Reader.{get_string, get_uint32}
use psql_wire.Buffer.Reader.Ends.{
  TameReader, get_bytes-Tame, get_string-Tame, get_uint16-Tame, get_uint32-Tame,
}
use psql_wire.Buffer.Writer.{add_int16, add_int32}
use psql_wire.Buffer.Writer.Returning.{add-Returns, end-Returns, start-Returns}
use psql_wire.Exec.{Result, err, ok, panic, stuck, ◌>>=◌}
use psql_wire.Exec.Tame.{
  Returns, Tame-bind, Tame-choose, Tame-if, Tame-lift, Tame-pure, Tame-raise, Tame-then,
}
use psql_wire.Wire.Cache.{DefaultPortalCache, StatementFn, bind, execute, get, lookup, made, set}
use psql_wire.Wire.Command.Handlers.{
  TameWorld, call_statement-ne-stuck, error_code-Returns, from_client-Tame, report-ne-stuck,
  to_client-Tame,
}
use psql_wire.Wire.Context.{Context}
use psql_wire.Wire.DataWriter.{DataWriter, new_data_writer}
use psql_wire.Wire.DataWriter.Returning.{IsContext}
use psql_wire.Wire.Extended.{
  bind_portal, execute_portal, get_statement, handle_bind, handle_execute, handle_parse, is_nil,
  parse_message, set_statement, store_statement,
}
use psql_wire.Wire.Extended.Parameters.{
  add_each_int32, read_formats, read_parameters, read_result_formats, read_values,
  write_parameter_descriptions,
}
use psql_wire.Wire.Options.{parse}
use psql_wire.Wire.Query.{with_data_writer}
use psql_wire.Wire.Server.{ParseFn, Server, from_client}

read_formats-Tame : (n : ℕ) → TameReader (read_formats n)
unfolding read_formats
read_formats-Tame zero = Tame-pure tt
read_formats-Tame (suc n) =
    Tame-bind _ (λ format. Tame-if (format == 0) (read_formats-Tame n) (Tame-raise _))
      get_uint16-Tame

read_values-Tame : (n : ℕ) → TameReader (read_values n)
unfolding read_values
read_values-Tame zero = Tame-pure []
read_values-Tame (suc n) =
    Tame-bind _
      (λ size.
        Tame-bind _
          (λ value. Tame-bind _ (λ values. Tame-pure (value ∷ values)) (read_values-Tame n))
          (get_bytes-Tame size))
      get_uint32-Tame

read_result_formats-Tame : (n : ℕ) → TameReader (read_result_formats n)
unfolding read_result_formats
read_result_formats-Tame zero = Tame-pure tt
read_result_formats-Tame (suc n) = Tame-then get_uint16-Tame (read_result_formats-Tame n)

pub read_parameters-Tame : TameReader read_parameters
unfolding read_parameters
read_parameters-Tame =
    Tame-bind _
      (λ formats. Tame-then (read_formats-Tame formats) (
        Tame-bind _
          (λ count.
            Tame-bind _
              (λ parameters.
                Tame-bind _
                  (λ columns. Tame-then (read_result_formats-Tame columns) (Tame-pure parameters))
                  get_uint16-Tame)
              (read_values-Tame count))
          get_uint16-Tame))
      get_uint16-Tame

add_each_int32-Returns : (is : List ℕ) → Returns (add_each_int32 is)
unfolding add_each_int32 add_int32
add_each_int32-Returns [] = Tame-pure 0
add_each_int32-Returns (i ∷ is) = Tame-then (add-Returns _) (add_each_int32-Returns is)

write_parameter_descriptions-Returns :
    (parameters : List ℕ) → Returns (write_parameter_descriptions parameters)
unfolding write_parameter_descriptions add_int16
write_parameter_descriptions-Returns [] = Tame-pure tt
write_parameter_descriptions-Returns (p ∷ parameters) =
    Tame-then (start-Returns _)
      (Tame-then (add-Returns _) (Tame-then (add_each_int32-Returns (p ∷ parameters)) end-Returns))

module _ {V : Type 0} where
  set_statement-Tame :
      (name : Bytes) (fn : Option (StatementFn V)) → TameWorld (set_statement name fn)
  unfolding set_statement set
  set_statement-Tame name fn = record {
    returns = λ w g. ground arith;
    shrinks = λ w g. ground arith;
    keeps = λ w g. ground arith;
  }

  get_statement-Tame : (name : Bytes) → TameWorld (get_statement {V = V} name)
  unfolding get_statement get
  get_statement-Tame name = record {
    returns = λ w g. ground arith;
    shrinks = λ w g. ground arith;
    keeps = λ w g. ground arith;
  }

  bind_portal-Tame :
      (name : Bytes) (fn : Option (StatementFn V)) (parameters : List Bytes)
      → TameWorld (bind_portal name fn parameters)
  unfolding bind_portal bind
  bind_portal-Tame name fn parameters = record {
    returns = λ w g. ground arith;
    shrinks = λ w g. ground arith;
    keeps = λ w g. ground arith;
  }

  store_statement-Tame :
      (name : Bytes) (parsed : Result (Option (StatementFn V) × List ℕ))
      → parsed ≢ stuck
      → TameWorld (store_statement name parsed)
  unfolding store_statement
  store_statement-Tame name (ok (statement, descriptions)) h =
      Tame-then (to_client-Tame (write_parameter_descriptions-Returns descriptions)) (
        Tame-then (set_statement-Tame name statement)
          (Tame-then (to_client-Tame (start-Returns _)) (to_client-Tame end-Returns)))
  store_statement-Tame name (err e) h = to_client-Tame (error_code-Returns (some e))
  store_statement-Tame name panic h = Tame-lift panic (λ p. cc)
  store_statement-Tame name stuck h = absurd (h refl)

  pub handle_bind-Tame : TameWorld (handle_bind {V = V})
  unfolding handle_bind
  handle_bind-Tame =
      Tame-bind _
        (λ name.
          Tame-bind _
            (λ statement.
              Tame-bind _
                (λ parameters.
                  Tame-bind _
                    (λ fn.
                      Tame-then (bind_portal-Tame name fn parameters)
                        (Tame-then (to_client-Tame (start-Returns _)) (to_client-Tame end-Returns)))
                    (get_statement-Tame statement))
                (from_client-Tame read_parameters-Tame))
            (from_client-Tame get_string-Tame))
        (from_client-Tame get_string-Tame)

module _ {V : Type 0} (ctx : Context V) (total : IsContext ctx) where
  parse_message-Tame :
      (parse : ParseFn V)
      → ((query : Bytes) → parse ctx query ≢ stuck)
      → TameWorld (parse_message ctx parse)
  unfolding parse_message
  parse_message-Tame parse h =
      Tame-bind _
        (λ name.
          Tame-bind _
            (λ query.
              Tame-then (from_client-Tame get_uint16-Tame)
                (store_statement-Tame name (parse ctx query) (h query)))
            (from_client-Tame get_string-Tame))
        (from_client-Tame get_string-Tame)

  execute-ne-stuck :
      (cache : DefaultPortalCache V) (name : Bytes) (d : DataWriter)
      → (execute ctx cache name d).0 ≢ stuck
  unfolding execute
  execute-ne-stuck cache name d = elim (Option-cases (lookup name (made cache.portals))) [
    | inl e ↦ rw (e, execute) (λ p. cc)
    | inr (p, e) ↦ rw (e, execute) (call_statement-ne-stuck ctx total p.statement p.parameters d)
  ]

  execute_portal-Tame : (name : Bytes) → TameWorld (execute_portal ctx name)
  unfolding execute_portal with_data_writer
  execute_portal-Tame name = record {
    returns = λ w g. elim (Option-cases w.portals) [
      | inl e ↦ rw (e, execute_portal) (λ p. cc)
      | inr (cache, e) ↦
          rw (e, execute_portal)
            (report-ne-stuck (with_data_writer (execute ctx cache name) w.conn.writer)
              (execute-ne-stuck cache name (new_data_writer w.conn.writer)))
    ];
    shrinks = λ w g. ground arith;
    keeps = λ w g. ground arith;
  }

  execute_message-Tame : TameWorld (
      from_client get_string
      >>= (λ name. from_client get_uint32 >>= (λ limit. execute_portal ctx name)))
  execute_message-Tame =
      Tame-bind _ (λ name. Tame-then (from_client-Tame get_uint32-Tame) (execute_portal-Tame name))
        (from_client-Tame get_string-Tame)

  pub handle_execute-Tame : TameWorld (handle_execute ctx)
  unfolding handle_execute
  handle_execute-Tame =
      Tame-choose (λ w. is_nil w.statements) (to_client-Tame (error_code-Returns _))
        execute_message-Tame

  pub handle_parse-Tame :
      (srv : Server V)
      → ((p : ParseFn V) (query : Bytes) → srv.parse ≡ some p → p ctx query ≢ stuck)
      → (parser : Option (ParseFn V)) → srv.parse ≡ parser
      → TameWorld (handle_parse srv ctx)
  unfolding handle_parse
  handle_parse-Tame srv h none e = rw (e, handle_parse) (to_client-Tame (error_code-Returns _))
  handle_parse-Tame srv h (some parser) e =
      rw (e, handle_parse)
        (Tame-choose (λ w. is_nil w.statements) (to_client-Tame (error_code-Returns _))
          (parse_message-Tame parser (λ query. h parser query e)))
