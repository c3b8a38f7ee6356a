-- ===== src/Wire/Accept/Counted.antt =====
-- The wait group counts the goroutines.
use psql_wire.Base.{arith, false, inl, inr, refl, true, ℕ, ◌+◌, ◌≡◌, ◌≢◌, ◌≤◌, ◌⊎◌}
use psql_wire.Wire.Accept.{
  Panics, Process, Reach, Step, Watcher, absent, accept_fails, accepting, accepts, added_late, ask,
  asks, close_returns, closed_twice, comes_back, connection_done, connection_ends, fail_accept,
  finish_connection, fresh_process, holding, leave, leaving, no_steps, not_started, one_more,
  serves, signed_off, signs_off, spawn, spawns, start_serving, take_connection, unasked, waits,
  wake, wakes, watcher_done, watching,
}

abbrev pub watchers : Watcher → ℕ
watchers watching = 1
watchers leaving = 1
watchers _ = 0

-- In every state: the counter is right, and the watcher leaves no listener open.
pub record IsCounted (s : Process) : Type 0 where
  pub counted : s.group ≡ s.serving + watchers s.watcher
  pub unserved : s.loop ≡ not_started → s.watcher ≡ absent
  pub left : s.watcher ≡ leaving → s.listening ≡ false
  pub gone : s.watcher ≡ signed_off → s.listening ≡ false

pub fresh-IsCounted : IsCounted fresh_process
fresh-IsCounted = record { counted = refl; unserved = λ _. refl; left = λ e. cc; gone = λ e. cc }

-- The premise of a step, for the clause below, which cannot name it.
abbrev pub Guard : {s t : Process} → Step s t → Type 0
Guard (serves s e) = s.loop ≡ not_started
Guard (accepts s e open_) = (s.loop ≡ accepting) × (s.listening ≡ true)
Guard (accept_fails s x e) = s.loop ≡ accepting
Guard (spawns s e) = s.loop ≡ holding
Guard (connection_ends s some_) = 1 ≤ s.serving
Guard (wakes s e closed) = (s.watcher ≡ watching) × (s.closer_closed ≡ true)
Guard (signs_off s e) = s.watcher ≡ leaving
Guard (asks s e) = s.closer_closed ≡ false
Guard (comes_back s e zero_) = (s.shutdown ≡ waits) × (s.group ≡ 0)

pub guard : {s t : Process} (st : Step s t) → Guard st
guard (serves s e) = e
guard (accepts s e open_) = (e, open_)
guard (accept_fails s x e) = e
guard (spawns s e) = e
guard (connection_ends s some_) = some_
guard (wakes s e closed) = (e, closed)
guard (signs_off s e) = e
guard (asks s e) = e
guard (comes_back s e zero_) = (e, zero_)

pub Step-IsCounted : {s t : Process} → Step s t → IsCounted s → IsCounted t
unfolding start_serving take_connection fail_accept spawn finish_connection wake leave ask
    close_returns
Step-IsCounted (accepts s e open_) h = record {
  counted = h.counted;
  unserved = λ q. cc;
  left = h.left;
  gone = h.gone;
}
Step-IsCounted st h = record {
  counted = ground (arith, guard st, h.counted, h.unserved);
  unserved = λ q. ground (arith, guard st, h.unserved);
  left = λ q. ground (arith, guard st, h.left);
  gone = λ q. ground (arith, guard st, h.left, h.gone);
}

pub Reach-IsCounted : {s t : Process} → Reach s t → IsCounted s → IsCounted t
Reach-IsCounted no_steps h = h
Reach-IsCounted (one_more r st) h = Step-IsCounted st (Reach-IsCounted r h)

-- A connection is in the hand of `Serve` when the last goroutine of the wait group signs off, and `Close`
-- waits.
abbrev pub IsLate : Process → Type 0
IsLate s = (s.shutdown ≡ waits) × (s.loop ≡ holding) × (s.group ≡ 0)

Reach-IsLate : (t : Process) × Reach fresh_process t × IsLate t
unfolding start_serving take_connection ask wake leave
Reach-IsLate =
    let started = start_serving fresh_process in
    let taken = take_connection started in
    let told = ask taken in
    let woken = wake told in
    let r1 = one_more no_steps (serves fresh_process refl) in
    let r2 = one_more r1 (accepts started refl refl) in
    let r3 = one_more r2 (asks taken refl) in
    let r4 = one_more r3 (wakes told refl refl) in
    (leave woken, one_more r4 (signs_off woken refl), (refl, refl, omega arith))

-- In every state that a server reaches, the counter of the wait group is the number of goroutines that
-- have not signed off: those of the connections, and the watcher's from the call of `Serve` on. So no
-- `wg.Done()` meets a counter of zero, and what can panic is a second `Close`, or a `wg.Add(1)` at a
-- counter of zero, for a connection that `Accept` has handed out, while `Close` is still in `Wait`; and
-- a server can reach a state where that is so.
pub Reach-counts :
    {s : Process}
    → Reach fresh_process s
    → (s.group ≡ s.serving + watchers s.watcher)
      × (Panics s → ((s.shutdown ≢ unasked) × (s.closer_closed ≡ true)) ⊎ IsLate s)
      × ((t : Process) × Reach fresh_process t × IsLate t)
Reach-counts {s} r = let h = Reach-IsCounted r fresh-IsCounted in (h.counted, only h, Reach-IsLate)
  where
    only : IsCounted s → Panics s → ((s.shutdown ≢ unasked) × (s.closer_closed ≡ true)) ⊎ IsLate s
    only h (closed_twice asked closed) = inl (asked, closed)
    only h (connection_done some_ zero_) = absurd (omega (arith, h.counted))
    only h (watcher_done e zero_) = absurd (ground (arith, h.counted))
    only h (added_late e l zero_) = inr (e, l, zero_)
