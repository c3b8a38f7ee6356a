-- ===== src/Wire/Accept/Closing.antt =====
-- `Close` beside the accept loop.
use psql_wire.Base.{arith, false, refl, true, ℕ, ◌+◌, ◌≡◌, ◌≢◌, ◌≤◌}
use psql_wire.Wire.Accept.{
  Loop, Process, Reach, Step, absent, accepts, ask, close_returns, fail_accept, finish_connection,
  fresh_process, holding, leave, no_steps, one_more, serves, shut, signed_off, spawn, start_serving,
  take_connection, unasked, wake,
}
use psql_wire.Wire.Accept.Counted.{IsCounted, Step-IsCounted, fresh-IsCounted, guard}

abbrev pub served : Process
served = start_serving fresh_process

-- A connection between `Accept` and `wg.Add(1)`.
abbrev pub in_hand : Loop → ℕ
in_hand holding = 1
in_hand _ = 0

pub record IsOrderly (s : Process) : Type 0 where
  pub counted : IsCounted s
  pub started : s.watcher ≢ absent
  pub asked : s.shutdown ≢ unasked → s.closer_closed ≡ true
  pub quiet : s.shutdown ≡ shut → (s.watcher ≡ signed_off) × (s.serving + in_hand s.loop ≤ 1)

pub served-IsOrderly : IsOrderly served
unfolding start_serving
served-IsOrderly = record {
  counted = Step-IsCounted (serves fresh_process refl) fresh-IsCounted;
  started = λ e. cc;
  asked = λ q. absurd (q refl);
  quiet = λ e. cc;
}

Step-IsOrderly : {s t : Process} → Step s t → IsOrderly s → IsOrderly t
unfolding start_serving take_connection fail_accept spawn finish_connection wake leave ask
    close_returns
Step-IsOrderly (accepts s e open_) h = record {
  counted = Step-IsCounted (accepts s e open_) h.counted;
  started = h.started;
  asked = h.asked;
  quiet = λ q. ground (arith, h.quiet, h.counted.gone);
}
Step-IsOrderly st h = record {
  counted = Step-IsCounted st h.counted;
  started = λ q. ground (arith, guard st, h.started);
  asked = λ q. ground (arith, guard st, h.asked);
  quiet = λ q. ground (arith, guard st, h.quiet, h.started, h.counted.counted, h.counted.unserved);
}

pub Reach-IsOrderly : {s t : Process} → Reach s t → IsOrderly s → IsOrderly t
Reach-IsOrderly no_steps h = h
Reach-IsOrderly (one_more r st) h = Step-IsOrderly st (Reach-IsOrderly r h)

-- Once `Close` has come back, on a server that was serving, the listener is closed, and at most one
-- connection is served or about to be served: one that `Accept` had handed out before.
pub Reach-closed :
    {s : Process}
    → Reach served s
    → s.shutdown ≡ shut
    → (s.listening ≡ false) × (s.serving + in_hand s.loop ≤ 1)
Reach-closed r e =
    let h = Reach-IsOrderly r served-IsOrderly in
    let (over, few) = h.quiet e in (h.counted.gone over, few)
