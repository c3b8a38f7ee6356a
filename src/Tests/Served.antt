-- ===== src/Tests/Served.antt =====
-- A whole connection.
use psql_wire.Base.{Bytes, Option, [], none, refl, some, subst, ℕ, ◌++◌, ◌∷◌, ◌≡◌, ◌≢◌}
use psql_wire.Buffer.Failures.{unwrap_message_size_exceeded}
use psql_wire.Exec.{stuck}
use psql_wire.Tests.Samples.{
  conn_of, letters, plain-IsTypes, refuse_all, sample_context, sample_server,
  sample_server-IsServer, world_on,
}
use psql_wire.Wire.Auth.{clear_text_password}
use psql_wire.Wire.Auth.Returning.{clear_text_password-Tame}
use psql_wire.Wire.Context.{Context}
use psql_wire.Wire.DataWriter.Returning.{IsContext}
use psql_wire.Wire.Handshake.Refused.{startup_message}
use psql_wire.Wire.Serve.{serve}
use psql_wire.Wire.Serve.Ends.{IsConfigured, serve-ne-stuck}
use psql_wire.Wire.Serve.Leads.{Answers}
use psql_wire.Wire.Server.{AuthStrategy, Server, SessionHandler, World}
use psql_wire.Wire.Server.Returning.{TameConn}

abbrev startup_world : World ℕ
startup_world = world_on (conn_of (startup_message 196608 (0 ∷ []) ++ letters))

network_error : unwrap_message_size_exceeded startup_world.conn.reader.buffer.ending ≡ none
unfolding unwrap_message_size_exceeded
network_error = refl

abbrev guarded_server : Server ℕ
guarded_server = record sample_server { auth = some (clear_text_password refuse_all) }

guarded_server-IsConfigured : IsConfigured guarded_server (λ s. s)
guarded_server-IsConfigured = record {
  server = record { parse = sample_server-IsServer.parse };
  types = plain-IsTypes;
  auth = λ strategy ctx e.
      subst (strategy_of ctx) e (clear_text_password-Tame refuse_all ctx (λ u p q. cc));
  session_returns = λ handler ctx e. subst (returns_of ctx) e (λ q. cc);
  session_context = λ handler ctx e h. subst (answers_of ctx) e (λ k. k) h;
  tls_network = λ s h. h;
}
  where
    strategy_of : Context ℕ → Option (AuthStrategy ℕ) → Type 0
    strategy_of ctx none = Unit {0}
    strategy_of ctx (some strategy) = TameConn (strategy ctx)

    returns_of : Context ℕ → Option (SessionHandler ℕ) → Type 0
    returns_of ctx none = Unit {0}
    returns_of ctx (some handler) = handler ctx ≢ stuck

    answers_of : Context ℕ → Option (SessionHandler ℕ) → Type 0
    answers_of ctx none = Unit {0}
    answers_of ctx (some handler) = IsContext ctx → Answers IsContext (handler ctx)

serve-ne-stuck_example :
    (serve guarded_server (λ s. s) (λ m. m) sample_context startup_world).0 ≢ stuck
serve-ne-stuck_example =
    serve-ne-stuck guarded_server (λ s. s) (λ m. m) guarded_server-IsConfigured sample_context
      startup_world network_error

refuses : (username password : Bytes) → refuse_all username password ≢ stuck
refuses username password e = cc
