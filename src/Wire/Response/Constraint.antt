-- ===== src/Wire/Response/Constraint.antt =====
-- The constraint name of an error, which `ErrorCode` does not write.
use psql_wire.Base.{Bytes, Option, ap, none, refl, some, ◌∙◌, ◌≡◌}
use psql_wire.Buffer.Writer.{Writer}
use psql_wire.Errors.{
  Description, Error, flatten, get_code, get_constraint_name, get_detail, get_hint, get_severity,
  get_source, message, with_constraint_name,
}
use psql_wire.Errors.Chain.{inner_code, or_empty_lem}
use psql_wire.Exec.{Result, after}
use psql_wire.Messages.{server_idle}
use psql_wire.Wire.Response.{error_code, ready_for_query, write_error}

-- A constraint name leaves the rest of the description as it was.
flatten-with_constraint_name :
    (e : Option Error) (name : Bytes)
    → (kept : Bytes) × (flatten (with_constraint_name e name)
        ≡ record (flatten e) { constraint_name = kept })
unfolding flatten with_constraint_name message get_code get_severity get_hint get_detail get_source
    get_constraint_name
flatten-with_constraint_name none name = ((flatten none).constraint_name, refl)
flatten-with_constraint_name (some e) name =
    (name, rw (inner_code (get_code e), or_empty_lem (get_severity e)) refl)

write_error-kept :
    (d : Description) (kept : Bytes) (w : Writer)
    → write_error (record d { constraint_name = kept }) w ≡ write_error d w
unfolding write_error
write_error-kept d kept w = refl

pub error_code-with_constraint_name :
    (e : Option Error) (name : Bytes) (w : Writer)
    → error_code (with_constraint_name e name) w ≡ error_code e w
unfolding error_code
error_code-with_constraint_name e name w =
    let (kept, same) = flatten-with_constraint_name e name in
    ap (λ (d : Description). after (write_error d w) (λ _. ready_for_query server_idle)) same
    ∙ ap (λ (p : Result (Unit {0}) × Writer). after p (λ _. ready_for_query server_idle))
        (write_error-kept (flatten e) kept w)
