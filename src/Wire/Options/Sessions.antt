-- ===== src/Wire/Options/Sessions.antt =====
-- `Session` of options.go, applied more than once.
use psql_wire.Base.{[], refl, some, ◌∷◌, ◌≡◌}
use psql_wire.Errors.Chain.{first}
use psql_wire.Exec.{ok}
use psql_wire.Wire.Options.{Setup, apply_options, session, then_session}
use psql_wire.Wire.Server.{SessionHandler}

module _ {V : Type 0} where
  -- `Session` twice: the second handler gets the context that the first one answers, and runs only
  -- where the first one succeeds, both behind the handler that was set; the parser and the statement
  -- cache are left alone.
  pub session-session :
      (first second parent : SessionHandler V) (s : Setup V)
      → s.server.session ≡ some parent
      → (q : Setup V) × (apply_options (session first ∷ session second ∷ []) s ≡ ok q)
        × (q.server.session ≡ some (then_session (then_session parent first) second))
        × (q.server.parse ≡ s.server.parse)
        × (q.statements ≡ s.statements)
  unfolding apply_options session
  session-session first second parent s h = rw h (_, refl, refl, refl, refl)
