-- ===== src/TimerQueue/Tests.antt =====
-- The timer queue's theorems at concrete queues, and a run.
use hvnetpp.Prelude.{
  ℕ, ◌≡◌, refl, ap, ◌⊎◌, Bool, true, false, List, [], ◌∷◌, Option, none, some, ok, err, bad_alloc,
  dangling, arith, pos, ◌==◌, if◌then◌else◌,
}
use hvnetpp.PairSet.{contains, insert, erase, before, from}
use hvnetpp.Timer
use hvnetpp.Timer.{Timer, TimerId}
use hvnetpp.TimerQueue.{
  TimerQueue, Action, add, cancel, update, deref, handle_read, get_expired, reset,
  add_timer_in_loop, cancel_in_loop, insert_timer, erase_active, reset_all, reset_one, new_timer,
  act, act_all, run_all, destroy,
}
use hvnetpp.TimerQueue.Owned.{IsOwned, mark}
use hvnetpp.TimerQueue.Change.{created, created-IsOwned}
use hvnetpp.TimerQueue.Ops.{added}
use hvnetpp.TimerQueue.Cancel.{Cancels, cancel_in_loop_lem}
use hvnetpp.TimerQueue.Requests.{run_at, run_after, run_every, IsDue, requests_lem}
use hvnetpp.TimerQueue.Fire.{AllocIsFresh, new_added}
use hvnetpp.TimerQueue.Calls.Outcome.{Outcome, handle_read-Outcome}
use hvnetpp.TimerQueue.History.{
  World, add_from, cancel_from, drain, fire, start, step, run, drain_one, run_functor,
}
use hvnetpp.TimerQueue.History.Sound.{is_pending, start-IsSound}
use hvnetpp.TimerQueue.History.Lifetime.{run-destroy}
use hvnetpp.TimerQueue.History.Returns.{event, returns, none_returning, Passes, run_moves-Passes}
use hvnetpp.TimerQueue.History.Race.{add_timer_race}

abbrev idle : TimerQueue
idle = start.queue

abbrev nothing_held : ℕ → Bool
nothing_held p = false

idle-IsOwned : IsOwned nothing_held idle
idle-IsOwned = start-IsSound.owned

-- Callback 1 every 10 microseconds from 5000 ns on; callback 2 once, at 6000 ns.
abbrev ticking : Timer
ticking = record { callback = 1; expiration = 5000; interval = pos 10; repeat = true; sequence = 1 }

abbrev once : Timer
once = record { callback = 2; expiration = 6000; interval = pos 0; repeat = false; sequence = 1 }

-- `ticking` is allocated at address 16 and waits to be added.
abbrev waiting : TimerQueue
waiting = created 16 ticking idle

waiting-IsOwned : IsOwned (mark nothing_held 16 true) waiting
waiting-IsOwned =
    created-IsOwned nothing_held idle 16 ticking idle-IsOwned refl (omega arith) (omega arith)

-- `ticking` is in both sets.
abbrev running : TimerQueue
running = added 16 ticking waiting

running-IsOwned : IsOwned nothing_held running
running-IsOwned =
    (new_added nothing_held ticking idle 16 idle-IsOwned refl (omega arith) refl).owned

cancel_in_loop_lem_example :
    (q' : TimerQueue) × (cancel_in_loop (record { timer = 16; sequence = 1 }) running ≡ ok q')
    × Cancels nothing_held (record { timer = 16; sequence = 1 }) running q'
cancel_in_loop_lem_example =
    cancel_in_loop_lem nothing_held running (record { timer = 16; sequence = 1 }) running-IsOwned

-- An allocator of two addresses.
abbrev two_places : (ℕ → Option Timer) → Option ℕ
two_places heap = elim (heap 16) [
  | none ↦ some 16
  | some _ ↦ elim (heap 32) [ none ↦ some 32 | some _ ↦ none ]
]

two_places-AllocIsFresh : AllocIsFresh two_places
two_places-AllocIsFresh heap p e = ground (arith, ap heap)

-- Callback 1 adds a timer, any other cancels the first one.
abbrev busy : ℕ → TimerQueue → List Action
busy cb q =
    if cb == 1 then add 2 7000 (pos 0) ∷ [] else cancel (record { timer = 16; sequence = 1 }) ∷ []

handle_read-Outcome_example :
    ((q' : TimerQueue) × (handle_read two_places busy 27000 running ≡ ok q')
      × Outcome two_places busy nothing_held 27000 running q')
    ⊎ (handle_read two_places busy 27000 running ≡ err bad_alloc)
handle_read-Outcome_example =
    handle_read-Outcome two_places busy two_places-AllocIsFresh nothing_held 27000 running
      running-IsOwned

-- Another thread's `addTimer` returns before its timer runs, and cancels it later.
run_moves-Passes_example :
    Passes two_places busy
      (event (add_from 1 5000 (pos 10))
        ∷ event drain
        ∷ returns 16
        ∷ event (fire 27000)
        ∷ event (cancel_from (record { timer = 16; sequence = 1 }))
        ∷ event drain
        ∷ [])
      none_returning
run_moves-Passes_example =
    run_moves-Passes two_places busy two_places-AllocIsFresh
      (event (add_from 1 5000 (pos 10))
        ∷ event drain
        ∷ returns 16
        ∷ event (fire 27000)
        ∷ event (cancel_from (record { timer = 16; sequence = 1 }))
        ∷ event drain
        ∷ [])
      none_returning start-IsSound

-- A second timer is never added: its functor still waits.
run-destroy_example :
    ((w : World) × (run two_places busy
          (add_from 1 5000 (pos 10) ∷ drain ∷ add_from 2 6000 (pos 0) ∷ [])
          start
        ≡ ok w)
      × (q : TimerQueue) × (destroy w.queue ≡ ok q)
      × ((p : ℕ) → q.heap p ≡ (if is_pending w.pending p then w.queue.heap p else none)))
    ⊎ (run two_places busy (add_from 1 5000 (pos 10) ∷ drain ∷ add_from 2 6000 (pos 0) ∷ []) start
        ≡ err bad_alloc)
run-destroy_example =
    run-destroy two_places busy two_places-AllocIsFresh
      (add_from 1 5000 (pos 10) ∷ drain ∷ add_from 2 6000 (pos 0) ∷ [])

-- After a one-shot timer was added by another thread and ran; its callback asked to cancel it.
abbrev after_race : World
after_race = record {
  queue = record {
    timers = [];
    active_timers = [];
    calling_expired_timers = false;
    canceling_timers = (16, 1) ∷ [];
    heap = update (update (λ p. none) 16 (some (Timer.new 2 5000 (pos 0) 0))) 16 none;
    num_created = 1;
    armed = some 5000;
  };
  pending = [];
}

race : run two_places busy (add_from 2 5000 (pos 0) ∷ drain ∷ fire 6000 ∷ []) start ≡ ok after_race
unfolding run step drain_one run_functor new_timer add_timer_in_loop insert_timer Timer.new
    handle_read get_expired before from erase_active run_all act_all act cancel_in_loop reset
    reset_all reset_one insert erase contains
race = refl

add_timer_race_example : deref 16 after_race.queue ≡ err dangling
add_timer_race_example =
    add_timer_race two_places busy two_places-AllocIsFresh start after_race 2 5000 6000 16 (pos 0)
      start-IsSound refl refl refl (omega arith) race

-- Beside the timer that ticks: at an instant, after 3 and every 3 microseconds.
requests_lem_example :
    IsDue two_places busy two_places-AllocIsFresh 9000 (run_at 9000 2) running
    × IsDue two_places busy two_places-AllocIsFresh 10000 (run_after 7000 (pos 3) 2) running
    × IsDue two_places busy two_places-AllocIsFresh 10000 (run_every 7000 (pos 3) 2) running
requests_lem_example =
    requests_lem two_places busy two_places-AllocIsFresh nothing_held running 2 9000 7000 (pos 3)
      running-IsOwned
