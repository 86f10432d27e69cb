-- ===== src/TimerQueue/History.antt =====
-- The timer queue among threads. Another thread allocates a timer, or asks for a cancellation, and
-- leaves the rest as a functor for the loop's thread (`EventLoop::runInLoop`); the loop's thread
-- calls at once, runs the functors in order, and runs `handleRead`.
pub mod Sound
pub mod Race
pub mod Lifetime
pub mod Returns
use hvnetpp.Prelude.{
  ℕ, ◌+◌, ◌≤◌, ◌<◌, ◌≡◌, ◌≢◌, refl, ◌∙◌, sym, ap, subst, ◌⊎◌, inl, inr, Bool, true, false, List, [],
  ◌∷◌, ◌++◌, Option, none, some, ok, err, bad_alloc, dangling, Result, ◌==◌, ◌&&◌, ◌||◌, not,
  if◌then◌else◌, arith, Bool-cases, ◌>>=◌, ℤ,
}
use hvnetpp.PairSet.{Key, contains}
use hvnetpp.Timer
use hvnetpp.Timer.{Timer, TimerId}
use hvnetpp.Timer.Restart.{sequence-new}
use hvnetpp.TimerQueue.{
  TimerQueue, update, deref, Action, new_timer, act, add_timer_in_loop, cancel_in_loop, handle_read,
}
use hvnetpp.TimerQueue.Owned.{IsOwned, IsOwned-cong, mark}
use hvnetpp.TimerQueue.Change.{created, created-IsOwned}
use hvnetpp.TimerQueue.Ops.{IsArmed, add_timer_in_loop_lem}
use hvnetpp.TimerQueue.Cancel.{cancel_in_loop_lem}
use hvnetpp.TimerQueue.Reset.{detached_timer}
use hvnetpp.TimerQueue.Fire.{Keeps, Succeeds, AllocIsFresh, act-Succeeds, free-not_detached}
use hvnetpp.TimerQueue.Handle.{Handles, handle_read-Handles}

-- `addTimerInLoop(timer)` or `cancelInLoop(id)`, bound for the loop's thread.
pub data Functor : Type 0 where
  adds : ℕ → Functor
  cancels : TimerId → Functor

pub record World : Type 0 where
  pub queue : TimerQueue
  pub pending : List Functor

pub data Event : Type 0 where
  -- On another thread: `addTimer`, up to where its functor is queued (Returns has the rest, its read
  -- of `timer->sequence()`), and `cancel`.
  add_from : ℕ → ℕ → ℤ → Event
  cancel_from : TimerId → Event
  -- A call on the loop's thread, the first pending functor, and `handleRead` at an instant.
  call : Action → Event
  drain : Event
  fire : ℕ → Event

abbrev pub start : World
start = record {
  queue = record {
    timers = [];
    active_timers = [];
    calling_expired_timers = false;
    canceling_timers = [];
    heap = λ p. none;
    num_created = 0;
    armed = none;
  };
  pending = [];
}

unfoldable pub run_functor : Functor → TimerQueue → Result TimerQueue
run_functor (adds p) q = add_timer_in_loop p q
run_functor (cancels id) q = cancel_in_loop id q

unfoldable pub drain_one : List Functor → TimerQueue → Result World
unfolding run_functor
drain_one [] q = ok (record { queue = q; pending = [] })
drain_one (f ∷ fs) q = do q' ← run_functor f q; ok (record { queue = q'; pending = fs })

module _ (alloc : (ℕ → Option Timer) → Option ℕ) (body : ℕ → TimerQueue → List Action) where
  unfoldable pub step : Event → World → Result World
  unfolding drain_one
  step (add_from cb when interval) w = do
    (p, q) ← new_timer alloc cb when interval w.queue
    ok (record { queue = q; pending = w.pending ++ (adds p ∷ []) })
  step (cancel_from id) w = ok (record w { pending = w.pending ++ (cancels id ∷ []) })
  step (call a) w = do q ← act alloc body a w.queue; ok (record w { queue = q })
  step drain w = drain_one w.pending w.queue
  step (fire now) w = do q ← handle_read alloc body now w.queue; ok (record w { queue = q })

  unfoldable pub run : List Event → World → Result World
  run [] w = ok w
  run (e ∷ es) w = do w' ← step e w; run es w'
