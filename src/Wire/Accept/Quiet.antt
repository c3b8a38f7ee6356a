-- ===== src/Wire/Accept/Quiet.antt =====
-- How a server goes on when no client comes and nobody calls it.
use psql_wire.Base.{Bool, arith, false, suc, true, ℕ, ◌+◌, ◌≡◌, ◌≢◌}
use psql_wire.Wire.Accept.{
  Process, Reach, Shutdown, Step, Watcher, accept_fails, accepts, ask, asks, close_returns,
  comes_back, connection_ends, fail_accept, finish_connection, leave, leaving, no_steps, one_more,
  serves, signs_off, spawn, spawns, start_serving, take_connection, unasked, waits, wake, wakes,
  watching,
}

-- A connection ends, the watcher goes on, or `Close` comes back. No client is accepted, none is given a
-- goroutine, and neither `Serve` nor `Close` is called.
abbrev pub is_quiet : {s t : Process} → Step s t → Bool
is_quiet (connection_ends s some_) = true
is_quiet (wakes s e closed) = true
is_quiet (signs_off s e) = true
is_quiet (comes_back s e zero_) = true
is_quiet _ = false

-- `n` such steps.
pub data Quiet (s : Process) : ℕ → Process → Type 0 where
  stays : Quiet s 0 s
  goes_on :
      {n : ℕ} {t u : Process}
      → Quiet s n t
      → (st : Step t u) → is_quiet st ≡ true
      → Quiet s (suc n) u

pub Quiet-Reach : {s : Process} {n : ℕ} {t : Process} → Quiet s n t → Reach s t
Quiet-Reach stays = no_steps
Quiet-Reach (goes_on q st e) = one_more (Quiet-Reach q) st

abbrev pub watcher_steps : Watcher → ℕ
watcher_steps watching = 2
watcher_steps leaving = 1
watcher_steps _ = 0

abbrev pub close_steps : Shutdown → ℕ
close_steps waits = 1
close_steps _ = 0

-- How many quiet steps are left.
abbrev pub quiet_steps : Process → ℕ
quiet_steps s = s.serving + watcher_steps s.watcher + close_steps s.shutdown

Step-quiet_steps :
    {s t : Process} (st : Step s t) → is_quiet st ≡ true → suc (quiet_steps t) ≡ quiet_steps s
unfolding finish_connection wake leave close_returns
Step-quiet_steps (connection_ends s some_) q = omega arith
Step-quiet_steps (wakes s e closed) q = rw e (omega arith)
Step-quiet_steps (signs_off s e) q = rw e (omega arith)
Step-quiet_steps (comes_back s e zero_) q = rw e (omega arith)
Step-quiet_steps _ q = absurd cc

-- Each step is one fewer.
pub Quiet-quiet_steps :
    {s : Process} {n : ℕ} {t : Process} → Quiet s n t → n + quiet_steps t ≡ quiet_steps s
Quiet-quiet_steps stays = omega arith
Quiet-quiet_steps (goes_on q st e) = omega (arith, Quiet-quiet_steps q, Step-quiet_steps st e)

Step-asked : {s t : Process} (st : Step s t) → s.shutdown ≢ unasked → t.shutdown ≢ unasked
unfolding start_serving take_connection fail_accept spawn finish_connection wake leave ask
    close_returns
Step-asked (serves s e) h = h
Step-asked (accepts s e open_) h = h
Step-asked (accept_fails s x e) h = h
Step-asked (spawns s e) h = h
Step-asked (connection_ends s some_) h = h
Step-asked (wakes s e closed) h = h
Step-asked (signs_off s e) h = h
Step-asked (asks s e) h = λ q. cc
Step-asked (comes_back s e zero_) h = λ q. cc

pub Quiet-asked :
    {s : Process} {n : ℕ} {t : Process} → Quiet s n t → s.shutdown ≢ unasked → t.shutdown ≢ unasked
Quiet-asked stays h = h
Quiet-asked (goes_on q st e) h = Step-asked st (Quiet-asked q h)
