-- ===== src/Tests/Processes.antt =====
-- A server that is served from and closed.
use psql_wire.Base.{false, refl, true, ℕ, ◌+◌, ◌≡◌, ◌≢◌, ◌≤◌, ◌⊎◌}
use psql_wire.Wire.Accept.{
  Panics, Process, Reach, ask, asks, close_returns, comes_back, fresh_process, leave, no_steps,
  one_more, serves, shut, signs_off, start_serving, unasked, wake, wakes,
}
use psql_wire.Wire.Accept.Closing.{Reach-closed, in_hand, served}
use psql_wire.Wire.Accept.Counted.{IsLate, Reach-counts, watchers}
use psql_wire.Wire.Accept.Ending.{Reach-returns, Reach-serves_late}
use psql_wire.Wire.Accept.Quiet.{Quiet, goes_on, stays}

abbrev just_served : Process
just_served = start_serving fresh_process

Reach-counts_example :
    (just_served.group ≡ just_served.serving + watchers just_served.watcher)
    × (Panics just_served
        → ((just_served.shutdown ≢ unasked) × (just_served.closer_closed ≡ true))
          ⊎ IsLate just_served)
    × ((t : Process) × Reach fresh_process t × IsLate t)
Reach-counts_example = Reach-counts (one_more no_steps (serves fresh_process refl))

abbrev waiting : Process
waiting = ask just_served

to_waiting : Reach served waiting
unfolding start_serving
to_waiting = one_more no_steps (asks just_served refl)

abbrev all_left : Process
all_left = close_returns (leave (wake waiting))

to_closed : Reach served all_left
unfolding start_serving ask wake leave close_returns
to_closed =
    one_more
      (one_more (one_more to_waiting (wakes waiting refl refl)) (signs_off (wake waiting) refl))
      (comes_back (leave (wake waiting)) refl refl)

Reach-closed_example : (all_left.listening ≡ false) × (all_left.serving + in_hand all_left.loop ≤ 1)
Reach-closed_example = Reach-closed to_closed (unfold close_returns in refl)

one_on : Quiet waiting 1 (wake waiting)
unfolding start_serving ask
one_on = goes_on stays (wakes waiting refl refl) refl

Reach-returns_example :
    (1 ≤ waiting.serving + 3)
    × ((m : ℕ) × (u : Process) × Quiet (wake waiting) m u × (u.shutdown ≡ shut))
Reach-returns_example = Reach-returns to_waiting (unfold ask in refl) one_on

Reach-serves_late_example :
    (t : Process) × Reach just_served t × (t.shutdown ≡ shut) × (t.serving ≡ 1)
Reach-serves_late_example =
    Reach-serves_late no_steps (unfold start_serving in refl) (unfold start_serving in refl)
      (unfold start_serving in refl)
