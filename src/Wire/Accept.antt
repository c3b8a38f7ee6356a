-- ===== src/Wire/Accept.antt =====
-- `ListenAndServe`, `Serve` and `Close` of wire.go: the goroutines of a server with one listener. What a
-- connection does is left open but for its end; it is `serve` of Serve.
pub mod Counted
pub mod Closing
pub mod Quiet
pub mod Ending
pub mod Listening
use psql_wire.Base.{Bool, false, true, ℕ, ◌+◌, ◌-◌, ◌≡◌, ◌≢◌, ◌≤◌}
use psql_wire.Errors.{Error}

-- The goroutine of `Serve`: before the call, in `Accept`, between `Accept` and `wg.Add(1)` with a
-- connection in its hand, or behind its return.
pub data Loop : Type 0 where
  not_started : Loop
  accepting : Loop
  holding : Loop
  returned : Error → Loop

-- The goroutine that waits for the channel `closer`: not started, at `<-srv.closer`, between
-- `listener.Close()` and `wg.Done()`, or done.
pub data Watcher : Type 0 where
  absent : Watcher
  watching : Watcher
  leaving : Watcher
  signed_off : Watcher

-- The call of `Close`: none, at `wg.Wait()`, or back.
pub data Shutdown : Type 0 where
  unasked : Shutdown
  waits : Shutdown
  shut : Shutdown

-- `serving` connections have a goroutine, and `group` is the counter of the wait group.
pub record Process : Type 0 where
  pub loop : Loop
  pub watcher : Watcher
  pub shutdown : Shutdown
  pub serving : ℕ
  pub group : ℕ
  pub listening : Bool
  pub closer_closed : Bool

abbrev pub fresh_process : Process
fresh_process = record {
  loop = not_started;
  watcher = absent;
  shutdown = unasked;
  serving = 0;
  group = 0;
  listening = true;
  closer_closed = false;
}

-- `wg.Add(1)`, and `go func() { ... }()` for the watcher
unfoldable pub start_serving : Process → Process
start_serving s = record s { loop = accepting; watcher = watching; group = s.group + 1 }

-- `conn, err := listener.Accept()` with no error
unfoldable pub take_connection : Process → Process
take_connection s = record s { loop = holding }

-- The same with an error: `return err`, and the deferred `listener.Close()`
unfoldable pub fail_accept : Error → Process → Process
fail_accept e s = record s { loop = returned e; listening = false }

-- `wg.Add(1)`, and `go func() { ... }()` for the connection
unfoldable pub spawn : Process → Process
spawn s = record s { loop = accepting; serving = s.serving + 1; group = s.group + 1 }

-- The deferred `wg.Done()` of a connection's goroutine; an error of `serve` is only logged.
unfoldable pub finish_connection : Process → Process
finish_connection s = record s { serving = s.serving - 1; group = s.group - 1 }

-- `<-srv.closer` and `listener.Close()`
unfoldable pub wake : Process → Process
wake s = record s { watcher = leaving; listening = false }

-- The deferred `wg.Done()` of the watcher
unfoldable pub leave : Process → Process
leave s = record s { watcher = signed_off; group = s.group - 1 }

-- `close(srv.closer)`
unfoldable pub ask : Process → Process
ask s = record s { shutdown = waits; closer_closed = true }

-- `srv.wg.Wait()` comes back, and `Close` returns nil.
unfoldable pub close_returns : Process → Process
close_returns s = record s { shutdown = shut }

-- One goroutine goes on. `Accept` fails on a closed listener, and may fail on an open one; a closed
-- channel is not waited for; `Wait` comes back where the counter is zero.
pub data Step : Process → Process → Type 0 where
  serves : (s : Process) → s.loop ≡ not_started → Step s (start_serving s)
  accepts : (s : Process) → s.loop ≡ accepting → s.listening ≡ true → Step s (take_connection s)
  accept_fails : (s : Process) (e : Error) → s.loop ≡ accepting → Step s (fail_accept e s)
  spawns : (s : Process) → s.loop ≡ holding → Step s (spawn s)
  connection_ends : (s : Process) → 1 ≤ s.serving → Step s (finish_connection s)
  wakes : (s : Process) → s.watcher ≡ watching → s.closer_closed ≡ true → Step s (wake s)
  signs_off : (s : Process) → s.watcher ≡ leaving → Step s (leave s)
  asks : (s : Process) → s.closer_closed ≡ false → Step s (ask s)
  comes_back : (s : Process) → s.shutdown ≡ waits → s.group ≡ 0 → Step s (close_returns s)

pub data Reach (s : Process) : Process → Type 0 where
  no_steps : Reach s s
  one_more : {t u : Process} → Reach s t → Step t u → Reach s u

-- Where the process can end in a panic: a second `close` of the channel, a `wg.Done()` that is due at a
-- counter of zero, or a `wg.Add(1)` that is due there while `Wait` is not back. The last one is a use
-- that the documentation of `sync.WaitGroup` forbids: where it meets a `Wait` that zero has released but
-- that has not returned, one of the two panics, and where it comes before or behind that, neither does. A
-- panic of a handler is that of `serve`.
pub data Panics (s : Process) : Type 0 where
  closed_twice : s.shutdown ≢ unasked → s.closer_closed ≡ true → Panics s
  connection_done : 1 ≤ s.serving → s.group ≡ 0 → Panics s
  watcher_done : s.watcher ≡ leaving → s.group ≡ 0 → Panics s
  added_late : s.shutdown ≡ waits → s.loop ≡ holding → s.group ≡ 0 → Panics s
