-- ===== src/Wire/Command/Ends.antt =====
-- The command loop ends on every input.
use native.Mathlib.Nat.{le_trans}
use psql_wire.Base.{
  Bool, Bytes, Option, [], ap, arith, false, if◌then◌else◌, length, none, refl, some, subst, suc,
  sym, true, zero, ℕ, ℤ, ◌<◌, ◌∷◌, ◌≡◌, ◌≢◌, ◌≤◌,
}
use psql_wire.Buffer.Failures.{unwrap_message_size_exceeded}
use psql_wire.Buffer.Reader.{Reader, on_buffer, read_typed_msg, read_untyped_msg}
use psql_wire.Buffer.Reader.Ends.{IsLive, read_untyped_msg-Tame}
use psql_wire.Buffer.Reader.Typed.{read_typed_msg-cons}
use psql_wire.Buffer.Stream.{read_byte, take_byte}
use psql_wire.Errors.{Error, is_eof}
use psql_wire.Exec.{Result, after, err, ok, panic, pure, stuck, ◌>>=◌}
use psql_wire.Exec.Tame.{Tame-bind, Tame-pure}
use psql_wire.Wire.Command.{
  after_command, after_read, consume_commands, consume_loop, consume_one, handle_command,
  handle_message_size_exceeded, is_eof_exactly,
}
use psql_wire.Wire.Command.Dispatch.{
  handle_command-Tame, handle_message_size_exceeded-Tame, ready-Tame,
}
use psql_wire.Wire.Command.Handlers.{IsServer, Live, to_read}
use psql_wire.Wire.Context.{Context}
use psql_wire.Wire.DataWriter.Returning.{IsContext}
use psql_wire.Wire.Server.{Server, World}

module _ {V : Type 0} (srv : Server V) (ctx : Context V) (server : IsServer srv)
    (total : IsContext ctx) where
  -- What a round leaves, begun with at most `n` bytes to read.
  record Round (n : ℕ) (p : Result Bool × World V) : Type 0 where
    returns : p.0 ≢ stuck
    shrinks : to_read p.1 ≤ n
    keeps : Live p.1

  Round-if :
      (b : Bool) {n : ℕ} {p q : Result Bool × World V}
      → Round n p
      → Round n q
      → Round n (if b then p else q)
  Round-if true rp rq = rp
  Round-if false rp rq = rq

  after_command-Round :
      (n : ℕ) (p : Result (Unit {0}) × World V)
      → p.0 ≢ stuck
      → to_read p.1 ≤ n
      → Live p.1
      → Round n (after_command srv ctx p)
  unfolding after_command
  after_command-Round n (ok a, w) h b g = record { returns = λ e. cc; shrinks = b; keeps = g }
  after_command-Round n (err e, w) h b g =
      Round-if (is_eof e) (record { returns = λ e. cc; shrinks = b; keeps = g })
        (record { returns = λ e. cc; shrinks = b; keeps = g })
  after_command-Round n (panic, w) h b g = record { returns = λ e. cc; shrinks = b; keeps = g }
  after_command-Round n (stuck, w) h b g = absurd (h refl)

  exceeded-Round :
      (e : Error) (n : ℕ) (w : World V) (size : Option ℤ)
      → to_read w ≤ n
      → Live w
      → Round n (elim size [
        | none ↦ (err e, w)
        | some size ↦ after (handle_message_size_exceeded srv ctx e size w) (λ _. pure true)
      ])
  exceeded-Round e n w none b g = record { returns = λ e. cc; shrinks = b; keeps = g }
  exceeded-Round e n w (some size) b g =
      let t =
        Tame-bind (λ _. pure true) (λ _. Tame-pure true)
          (handle_message_size_exceeded-Tame srv ctx server total e size) in
      record { returns = t.returns w g; shrinks = le_trans (t.shrinks w g) b; keeps = t.keeps w g }

  after_read-Round :
      (n : ℕ) (p : Result (ℕ × ℕ) × World V)
      → p.0 ≢ stuck
      → to_read p.1 ≤ n
      → Live p.1
      → Round n (after_read srv ctx p)
  unfolding after_read
  after_read-Round n (ok (t, k), w) h b g =
      let c = handle_command-Tame srv ctx server total t in
      after_command-Round n (handle_command srv ctx t w) (c.returns w g)
        (le_trans (c.shrinks w g) b) (c.keeps w g)
  after_read-Round n (err e, w) h b g =
      Round-if (is_eof_exactly e) (record { returns = λ e. cc; shrinks = b; keeps = g })
        (exceeded-Round e n w (unwrap_message_size_exceeded e) b g)
  after_read-Round n (panic, w) h b g = record { returns = λ e. cc; shrinks = b; keeps = g }
  after_read-Round n (stuck, w) h b g = absurd (h refl)

  -- A round that goes on.
  abbrev GoesOn : Result Bool × World V → Type 0
  GoesOn p = p.0 ≡ ok true

  if-GoesOn :
      (b : Bool) (w w' : World V) (e : Error) → ¬ GoesOn (if b then (ok false, w) else (err e, w'))
  if-GoesOn true w w' e h = cc
  if-GoesOn false w w' e h = cc

  read_ended : (r : Reader) → r.buffer.pending ≡ [] → read_typed_msg r ≡ (err r.buffer.ending, r)
  unfolding read_typed_msg read_byte
  read_ended r e =
      ap
        (λ (p : Bytes).
          after (on_buffer (take_byte p) r) (λ b. read_untyped_msg >>= (λ n. pure (b, n))))
        e

  -- The input has ended: the round ends, and no round goes on.
  ended :
      (w : World V)
      → Live w
      → w.conn.reader.buffer.pending ≡ []
      → Round (to_read w) (consume_one srv ctx w) × ¬ GoesOn (consume_one srv ctx w)
  unfolding consume_one
  ended w g e =
      subst
        (λ (p : Result (ℕ × ℕ) × Reader).
          let q = after_read srv ctx (p.0, record w { conn = record (w.conn) { reader = p.1 } }) in
          Round (to_read w) q × ¬ GoesOn q)
        (sym (read_ended w.conn.reader e))
        (
          after_read-Round (to_read w) (err w.conn.reader.buffer.ending, w) (λ e. cc) (omega arith)
              g,
          no_more,
        )
    where
      no_more : ¬ GoesOn (after_read srv ctx (err w.conn.reader.buffer.ending, w))
      no_more =
          unfold after_read in
          rw g.network (if-GoesOn (is_eof_exactly w.conn.reader.buffer.ending) _ _ _)

  -- A message has begun: the round takes its type byte.
  begun :
      (w : World V) (t : ℕ) (rest : Bytes)
      → Live w
      → w.conn.reader.buffer.pending ≡ t ∷ rest
      → Round (length rest) (consume_one srv ctx w)
  unfolding consume_one
  begun w t rest g e =
      let r = w.conn.reader in
      let tm = Tame-bind (λ n. pure (t, n)) (λ n. Tame-pure (t, n)) read_untyped_msg-Tame in
      let r' : Reader = record r { buffer = record (r.buffer) { pending = rest } } in
      let g' : IsLive r' = record {
        positive = g.positive;
        bounded = g.bounded;
        network = g.network;
      } in
      subst
        (λ (p : Result (ℕ × ℕ) × Reader).
          Round (length rest)
            (after_read srv ctx (p.0, record w { conn = record (w.conn) { reader = p.1 } })))
        (sym (read_typed_msg-cons t rest r e))
        (after_read-Round (length rest) _ (tm.returns r' g') (tm.shrinks r' g') (tm.keeps r' g'))

  -- A round leaves a reader that the next one can rely on.
  pub consume_one-Live : (w : World V) → Live w → Live (consume_one srv ctx w).1
  consume_one-Live w g = pending w.conn.reader.buffer.pending refl
    where
      pending : (p : Bytes) → w.conn.reader.buffer.pending ≡ p → Live (consume_one srv ctx w).1
      pending [] e = (ended w g e).0.keeps
      pending (t ∷ rest) e = (begun w t rest g e).keeps

  after_round :
      (fuel : ℕ) (p : Result Bool × World V)
      → p.0 ≢ stuck
      → (GoesOn p → (consume_loop srv ctx fuel p.1).0 ≢ stuck)
      → (after p (λ more. elim more [ true ↦ consume_loop srv ctx fuel | false ↦ pure tt ])).0
        ≢ stuck
  after_round fuel (ok true, w) h go = go refl
  after_round fuel (ok false, w) h go = λ e. cc
  after_round fuel (err e, w) h go = λ e. cc
  after_round fuel (panic, w) h go = λ e. cc
  after_round fuel (stuck, w) h go = absurd (h refl)

  abbrev Enough : ℕ → Type 0
  Enough fuel = (w : World V) → Live w → to_read w < fuel → (consume_loop srv ctx fuel w).0 ≢ stuck

  loop_round :
      (fuel : ℕ) (w : World V) (p : Bytes)
      → Enough fuel
      → Live w
      → to_read w < suc fuel
      → w.conn.reader.buffer.pending ≡ p
      → (consume_loop srv ctx (suc fuel) w).0 ≢ stuck
  unfolding consume_loop
  loop_round fuel w [] again g h e =
      let (round, stops) = ended w g e in
      after_round fuel (consume_one srv ctx w) round.returns (λ more. absurd (stops more))
  loop_round fuel w (t ∷ rest) again g h e =
      let round = begun w t rest g e in
      after_round fuel (consume_one srv ctx w) round.returns
        (λ more. again _ round.keeps (omega (arith, round.shrinks, h, ap (length {0}) e)))

  loop-Enough : (fuel : ℕ) → Enough fuel
  loop-Enough zero w g h = absurd (omega (arith, h))
  loop-Enough (suc fuel) w g h =
      loop_round fuel w w.conn.reader.buffer.pending (loop-Enough fuel) g h refl

  opened :
      (p : Result (Unit {0}) × World V)
      → p.0 ≢ stuck
      → Live p.1
      → (after p (λ _ w. consume_loop srv ctx (suc (to_read w)) w)).0 ≢ stuck
  opened (ok a, w) h g = loop-Enough (suc (to_read w)) w g (omega arith)
  opened (err e, w) h g = λ e. cc
  opened (panic, w) h g = λ e. cc
  opened (stuck, w) h g = absurd (h refl)

  -- `consumeCommands` comes back on every input: one more round than there are bytes to read is
  -- enough fuel, if the network's error is none of the reader's, the maximum message size is
  -- positive, the message in the buffer is no longer than it, and the callbacks of the server and
  -- the encoders of the context come back.
  pub consume_commands-ne-stuck : (w : World V) → Live w → (consume_commands srv ctx w).0 ≢ stuck
  unfolding consume_commands
  consume_commands-ne-stuck w g =
      opened _ ((ready-Tame srv ctx server total).returns w g)
        ((ready-Tame srv ctx server total).keeps w g)
