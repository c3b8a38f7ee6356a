-- ===== src/Wire/Command/Bounded.antt =====
-- The message that the command loop holds stays within the maximum size.
use psql_wire.Base.{Bool, false, length, suc, true, zero, ℕ, ◌≤◌}
use psql_wire.Exec.{Result, after, err, ok, panic, pure, stuck}
use psql_wire.Wire.Command.{consume_loop, consume_one}
use psql_wire.Wire.Command.Ends.{consume_one-Live}
use psql_wire.Wire.Command.Handlers.{IsServer, Live}
use psql_wire.Wire.Context.{Context}
use psql_wire.Wire.DataWriter.Returning.{IsContext}
use psql_wire.Wire.Server.{Server, World}

module _ {V : Type 0} (srv : Server V) (ctx : Context V) (server : IsServer srv)
    (total : IsContext ctx) where
  after_round-Live :
      (fuel : ℕ) (p : Result Bool × World V)
      → ((w : World V) → Live w → Live (consume_loop srv ctx fuel w).1)
      → Live p.1
      → Live (after p (λ more. elim more [ true ↦ consume_loop srv ctx fuel | false ↦ pure tt ])).1
  after_round-Live fuel (ok true, w) again g = again w g
  after_round-Live fuel (ok false, w) again g = g
  after_round-Live fuel (err e, w) again g = g
  after_round-Live fuel (panic, w) again g = g
  after_round-Live fuel (stuck, w) again g = g

  consume_loop-Live : (fuel : ℕ) (w : World V) → Live w → Live (consume_loop srv ctx fuel w).1
  unfolding consume_loop
  consume_loop-Live zero w g = g
  consume_loop-Live (suc fuel) w g =
      after_round-Live fuel (consume_one srv ctx w) (consume_loop-Live fuel)
        (consume_one-Live srv ctx server total w g)

  -- After any number of rounds of the command loop, whatever the client sends, the message in the
  -- reader's buffer is no longer than the reader's maximum message size, if it was not before, the
  -- maximum is positive, the network's error is none of the reader's, and the callbacks of the
  -- server and the encoders of the context come back.
  pub consume_loop-bounded :
      (rounds : ℕ) (w : World V)
      → Live w
      → let r = (consume_loop srv ctx rounds w).1.conn.reader in length r.msg ≤ r.max_message_size
  consume_loop-bounded rounds w g = (consume_loop-Live rounds w g).bounded
