-- ===== src/Buffer/Writer/Returning.antt =====
-- Writer code that comes back.
use psql_wire.Base.{Bool-cases, Bytes, List, arith, inl, inr, leb, leb→le, length, ℕ, ◌≢◌}
use psql_wire.Buffer.Stream.{Sink, write}
use psql_wire.Buffer.Writer.{Writer, add, end, start}
use psql_wire.Buffer.Writer.Emits.{Emits, transmit, transmit_all, transmit_broken}
use psql_wire.Exec.{Exec, stuck}
use psql_wire.Exec.Tame.{Returns, Returns-at}

pub start-Returns : (t : ℕ) → Returns (start t)
unfolding start
start-Returns t = Returns-at (λ w e. cc)

pub add-Returns : (bytes : Bytes) → Returns (add bytes)
unfolding add
add-Returns bytes = Returns-at (λ w. ground arith)

pub end-Returns : Returns end
unfolding end write
end-Returns = Returns-at (λ w. ground arith)

transmit-Returns : (ms : List Bytes) (s : Sink) → (transmit ms s).0 ≢ stuck
transmit-Returns ms s = elim (Bool-cases (leb (length ms) s.accepts)) [
  | inl fits ↦ rw (transmit_all ms s (leb→le _ _ fits)) (λ e. cc)
  | inr short ↦ rw (transmit_broken ms s (ground arith)) (λ e. cc)
]

pub Emits-Returns : {m : Exec Writer (Unit {0})} (ms : List Bytes) → Emits m ms → Returns m
Emits-Returns ms em = Returns-at (λ w. rw (em.result w) (transmit-Returns ms w.sink))

pub ruleset writer_rules = (start-Returns, add-Returns, end-Returns)
