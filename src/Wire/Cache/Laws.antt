-- ===== src/Wire/Cache/Laws.antt =====
-- The default caches as maps.
use psql_wire.Base.{
  Bytes, List, Option, arith, equal, equal_refl, if◌then◌else◌, none, refl, ◌∙◌, ◌≡◌,
}
use psql_wire.Exec.{ok}
use psql_wire.Wire.Cache.{
  DefaultPortalCache, DefaultStatementCache, StatementFn, bind, call_statement, execute, get,
  insert, lookup, made, set,
}
use psql_wire.Wire.Context.{Context}
use psql_wire.Wire.DataWriter.{DataWriter}

module _ {V : Type 0} where
  -- `Get` behind `Set`: the statement that was set under the name, and under every other name what
  -- `Get` answered before, on a cache that has a map or none.
  pub get-set :
      (n name : Bytes) (fn : Option (StatementFn V)) (cache : DefaultStatementCache V)
      → (get n (set name fn cache).1).0 ≡ (if equal name n then ok fn else (get n cache).0)
  unfolding get set lookup insert
  get-set n name fn cache = ground arith

  -- A name that was never set: nil, and no error.
  pub get-unknown :
      (n : Bytes) (cache : DefaultStatementCache V)
      → lookup n (made cache.statements) ≡ none
      → (get n cache).0 ≡ ok none
  unfolding get
  get-unknown n cache h = ground (arith, h)

  -- `Execute` behind `Bind`: the bound statement runs on the bound parameters, and every other
  -- portal runs as before.
  pub execute-bind :
      (ctx : Context V) (n name : Bytes) (fn : Option (StatementFn V)) (parameters : List Bytes)
      (cache : DefaultPortalCache V) (d : DataWriter)
      → execute ctx (bind name fn parameters cache).1 n d
        ≡ (if equal name n then call_statement ctx fn parameters d else execute ctx cache n d)
  unfolding execute bind lookup insert
  execute-bind ctx n name fn parameters cache d = ground arith

  pub execute-bind_same :
      (ctx : Context V) (name : Bytes) (fn : Option (StatementFn V)) (parameters : List Bytes)
      (cache : DefaultPortalCache V) (d : DataWriter)
      → execute ctx (bind name fn parameters cache).1 name d ≡ call_statement ctx fn parameters d
  execute-bind_same ctx name fn parameters cache d =
      execute-bind ctx name name fn parameters cache d ∙ rw (equal_refl name) refl
