-- ===== src/Wire/Cache.antt =====
-- cache.go: the default caches. Each operation runs under the cache's lock, so the operations of
-- several connections follow one another; a cache is shared by all connections of the server.
pub mod Laws
use psql_wire.Base.{Bytes, List, Option, [], equal, if◌then◌else◌, none, some, ◌∷◌}
use psql_wire.Exec.{Exec, ok, panic, pure}
use psql_wire.Wire.Context.{Context}
use psql_wire.Wire.DataWriter.{DataWriter, Script, run_script}

-- `PreparedStatementFn`; a value of the Go type may be nil.
abbrev pub StatementFn : Type 0 → Type 0
StatementFn V = Context V → List Bytes → Script V

-- A Go map from names, newest entry first.
module _ {ℓ} {A : Type ℓ} where
  unfoldable pub lookup : Bytes → List (Bytes × A) → Option A
  lookup name [] = none
  lookup name ((n, a) ∷ m) = if equal n name then some a else lookup name m

  unfoldable pub insert : Bytes → A → List (Bytes × A) → List (Bytes × A)
  insert name a m = (name, a) ∷ m

  -- `if m == nil { m = map[string]A{} }`
  abbrev pub made : Option (List (Bytes × A)) → List (Bytes × A)
  made none = []
  made (some m) = m

pub record DefaultStatementCache (V : Type 0) : Type 0 where
  pub statements : Option (List (Bytes × Option (StatementFn V)))

-- `portal`
pub record Portal (V : Type 0) : Type 0 where
  pub statement : Option (StatementFn V)
  pub parameters : List Bytes

pub record DefaultPortalCache (V : Type 0) : Type 0 where
  pub portals : Option (List (Bytes × Portal V))

module _ {V : Type 0} where
  -- `DefaultStatementCache.Set`
  unfoldable pub set : Bytes → Option (StatementFn V) → Exec (DefaultStatementCache V) (Unit {0})
  unfolding insert
  set name fn cache =
      (ok tt, record cache { statements = some (insert name fn (made cache.statements)) })

  -- `DefaultStatementCache.Get`; a missing name reads as nil, with no error.
  unfoldable pub get : Bytes → Exec (DefaultStatementCache V) (Option (StatementFn V))
  unfolding lookup
  get name cache = elim cache.statements [
    | none ↦ (ok none, cache)
    | some m ↦ elim (lookup name m) [ none ↦ (ok none, cache) | some fn ↦ (ok fn, cache) ]
  ]

  -- `DefaultPortalCache.Bind`
  unfoldable pub bind :
      Bytes → Option (StatementFn V) → List Bytes → Exec (DefaultPortalCache V) (Unit {0})
  unfolding insert
  bind name fn parameters cache = (
    ok tt,
    record cache {
      portals =
          some
            (insert name (record { statement = fn; parameters = parameters }) (made cache.portals));
    },
  )

  -- A call of a function value; nil panics.
  unfoldable pub call_statement :
      Context V → Option (StatementFn V) → List Bytes → Exec DataWriter (Unit {0})
  call_statement ctx none parameters = λ d. (panic, d)
  call_statement ctx (some fn) parameters = run_script ctx (fn ctx parameters)

  -- `DefaultPortalCache.Execute`; nothing happens for a name that is not bound.
  unfoldable pub execute : Context V → DefaultPortalCache V → Bytes → Exec DataWriter (Unit {0})
  unfolding lookup call_statement
  execute ctx cache name = elim (lookup name (made cache.portals)) [
    | none ↦ pure tt
    | some p ↦ call_statement ctx p.statement p.parameters
  ]
