-- ===== src/Wire/Accept/Ending.antt =====
-- What a server can still do once its connections end.
use psql_wire.Base.{arith, false, refl, suc, true, zero, ℕ, ◌+◌, ◌∙◌, ◌≡◌, ◌≤◌}
use psql_wire.Wire.Accept.{
  Process, Reach, Shutdown, Step, Watcher, absent, accepting, accepts, ask, asks, close_returns,
  comes_back, connection_ends, finish_connection, leave, leaving, no_steps, one_more, shut,
  signed_off, signs_off, spawn, spawns, take_connection, unasked, waits, wake, wakes, watching,
}
use psql_wire.Wire.Accept.Closing.{IsOrderly, Reach-IsOrderly, served, served-IsOrderly}
use psql_wire.Wire.Accept.Quiet.{
  Quiet, Quiet-Reach, Quiet-asked, Quiet-quiet_steps, close_steps, goes_on, is_quiet, stays,
  watcher_steps,
}

Reach-trans : {s t u : Process} → Reach s t → Reach t u → Reach s u
Reach-trans r no_steps = r
Reach-trans r (one_more q st) = one_more (Reach-trans r q) st

-- A quiet step in front.
begins_with :
    {s t : Process} {n : ℕ} {u : Process} (st : Step s t)
    → is_quiet st ≡ true
    → Quiet t n u
    → Quiet s (suc n) u
begins_with st e stays = goes_on stays st e
begins_with st e (goes_on q st' e') = goes_on (begins_with st e q) st' e'

-- Every connection has ended, and nothing else has happened.
record Drained (s t : Process) : Type 0 where
  reach : Reach s t
  idle_now : t.serving ≡ 0
  loop : t.loop ≡ s.loop
  watcher : t.watcher ≡ s.watcher
  shutdown : t.shutdown ≡ s.shutdown
  listening : t.listening ≡ s.listening
  closer_closed : t.closer_closed ≡ s.closer_closed

drain : (n : ℕ) (s : Process) → s.serving ≡ n → (t : Process) × Drained s t
unfolding finish_connection
drain zero s e = (
  s,
  record {
    reach = no_steps;
    idle_now = e;
    loop = refl;
    watcher = refl;
    shutdown = refl;
    listening = refl;
    closer_closed = refl;
  },
)
drain (suc n) s e =
    let (t, d) = drain n (finish_connection s) (omega arith) in
    (
      t,
      record {
        reach = Reach-trans (one_more no_steps (connection_ends s (omega arith))) d.reach;
        idle_now = d.idle_now;
        loop = d.loop;
        watcher = d.watcher;
        shutdown = d.shutdown;
        listening = d.listening;
        closer_closed = d.closer_closed;
      },
    )

-- Quiet steps alone lead to the return of `Close`, with no connection left.
abbrev pub CanReturn : Process → Type 0
CanReturn s = (n : ℕ) × (t : Process) × Quiet s n t × (t.shutdown ≡ shut) × (t.serving ≡ 0)

before : {s t : Process} (st : Step s t) → is_quiet st ≡ true → CanReturn t → CanReturn s
before st e (n, u, q, back, none_) = (suc n, u, begins_with st e q, back, none_)

-- Nothing is left to wait for.
come_back : (s : Process) → s.shutdown ≡ waits → s.group ≡ 0 → s.serving ≡ 0 → CanReturn s
unfolding close_returns
come_back s e zero_ none_ =
    (1, close_returns s, goes_on stays (comes_back s e zero_) refl, refl, none_)

sign_off :
    (s : Process)
    → s.shutdown ≡ waits
    → s.watcher ≡ leaving
    → s.group ≡ 1
    → s.serving ≡ 0
    → CanReturn s
unfolding leave
sign_off s e w one none_ = before (signs_off s w) refl (come_back (leave s) e (omega arith) none_)

wake_up :
    (s : Process)
    → s.shutdown ≡ waits
    → s.watcher ≡ watching
    → s.closer_closed ≡ true
    → s.group ≡ 1
    → s.serving ≡ 0
    → CanReturn s
unfolding wake
wake_up s e w closed one none_ = before (wakes s w closed) refl (sign_off (wake s) e refl one none_)

without_connections : (s : Process) → IsOrderly s → s.shutdown ≡ waits → s.serving ≡ 0 → CanReturn s
without_connections s h e none_ = by_watcher s.watcher refl
  where
    by_watcher : (w : Watcher) → s.watcher ≡ w → CanReturn s
    by_watcher absent q = absurd (h.started q)
    by_watcher watching q =
        wake_up s e q (h.asked (λ p. cc)) (ground (arith, h.counted.counted)) none_
    by_watcher leaving q = sign_off s e q (ground (arith, h.counted.counted)) none_
    by_watcher signed_off q = come_back s e (ground (arith, h.counted.counted)) none_

-- The connections end first.
waits-CanReturn :
    (n : ℕ) (s : Process) → Reach served s → s.shutdown ≡ waits → s.serving ≡ n → CanReturn s
unfolding finish_connection
waits-CanReturn zero s r e none_ =
    without_connections s (Reach-IsOrderly r served-IsOrderly) e none_
waits-CanReturn (suc n) s r e k =
    let st = connection_ends s (omega arith) in
    before st refl (waits-CanReturn n (finish_connection s) (one_more r st) e (omega arith))

-- Once `Close` waits, on a server that was serving, and from then on no client is accepted or given a
-- goroutine and nobody calls the server: connections can end and the watcher go on in any order, but for
-- no more steps than there are connections and three more; and however they have gone on, they can go on
-- in this way until `Close` is back.
pub Reach-returns :
    {n : ℕ} {s t : Process}
    → Reach served s
    → s.shutdown ≡ waits
    → Quiet s n t
    → (n ≤ s.serving + 3) × ((m : ℕ) × (u : Process) × Quiet t m u × (u.shutdown ≡ shut))
Reach-returns {n} {s} {t} r e q = (few, by_shutdown t.shutdown refl)
  where
    steps_bounds : (w : Watcher) (c : Shutdown) → watcher_steps w + close_steps c ≤ 3
    steps_bounds w c = ground arith

    few : n ≤ s.serving + 3
    few = omega (arith, Quiet-quiet_steps q, steps_bounds s.watcher s.shutdown)

    by_shutdown :
        (c : Shutdown)
        → t.shutdown ≡ c
        → (m : ℕ) × (u : Process) × Quiet t m u × (u.shutdown ≡ shut)
    by_shutdown unasked p = absurd (Quiet-asked q (λ p'. cc) p)
    by_shutdown waits p =
        let (m, u, more, back, none_) =
          waits-CanReturn t.serving t (Reach-trans r (Quiet-Reach q)) p refl in
        (m, u, more, back)
    by_shutdown shut p = (0, t, stays, p)

late :
    (s : Process)
    → s.loop ≡ accepting
    → s.listening ≡ true
    → s.closer_closed ≡ false
    → s.watcher ≡ watching
    → s.serving ≡ 0
    → s.group ≡ 1
    → (t : Process) × Reach s t × (t.shutdown ≡ shut) × (t.serving ≡ 1)
unfolding take_connection ask wake leave close_returns spawn
late s l open_ uncalled w none_ one =
    let taken = take_connection s in
    let asked_for = ask taken in
    let woken = wake asked_for in
    let left = leave woken in
    let back = close_returns left in
    let r1 = one_more no_steps (accepts s l open_) in
    let r2 = one_more r1 (asks taken uncalled) in
    let r3 = one_more r2 (wakes asked_for w refl) in
    let r4 = one_more r3 (signs_off woken refl) in
    let r5 = one_more r4 (comes_back left refl (omega arith)) in
    (spawn back, one_more r5 (spawns back refl), refl, omega arith)

-- While the server waits in `Accept` and has not been told to close, it can come to serve a client behind
-- the return of `Close`: `Accept` hands out a connection, `Close` finds the wait group at zero and comes
-- back, and only then `wg.Add(1)` is called for the connection.
pub Reach-serves_late :
    {s : Process}
    → Reach served s
    → s.loop ≡ accepting
    → s.listening ≡ true
    → s.closer_closed ≡ false
    → (t : Process) × Reach s t × (t.shutdown ≡ shut) × (t.serving ≡ 1)
Reach-serves_late {s} r l open_ uncalled =
    let (t, d) = drain s.serving s refl in
    let h = Reach-IsOrderly (Reach-trans r d.reach) served-IsOrderly in
    let (u, q, back, one) =
      late t (d.loop ∙ l) (d.listening ∙ open_) (d.closer_closed ∙ uncalled)
        (still t h (d.listening ∙ open_)) d.idle_now
        (ground (arith, h.counted.counted, still t h (d.listening ∙ open_))) in
    (u, Reach-trans d.reach q, back, one)
  where
    still : (t : Process) → IsOrderly t → t.listening ≡ true → t.watcher ≡ watching
    still t h open' = ground (arith, h.started, h.counted.left, h.counted.gone)
