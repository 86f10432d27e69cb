-- ===== src/TimerQueue.antt =====
-- src/TimerQueue.cpp and include/hvnetpp/TimerQueue.h, as the loop's thread runs them. The queue
-- stands with the `Timer` objects that are allocated (`heap`, by address), the counter
-- `s_numCreated_`, and the instant that `timerfd_` was last armed with. A read through the address
-- of a deleted timer is `err dangling`.
pub mod Owned
pub mod Change
pub mod Ops
pub mod Cancel
pub mod Expire
pub mod Requests
pub mod Reset
pub mod Fire
pub mod Handle
pub mod Calls
pub mod Destroy
pub mod History
mod Tests
use hvnetpp.Prelude.{
  ℕ, ◌+◌, ◌-◌, ◌^◌, Bool, true, false, List, [], ◌∷◌, Option, none, some, Result, ok, err, assert,
  only_if, aborted, dangling, bad_alloc, ◌>>=◌, ◌>>◌, ltb, ◌==◌, ◌&&◌, not, if◌then◌else◌, length,
  ℤ,
}
use hvnetpp.PairSet.{Key, contains, insert, erase, before, from}
use hvnetpp.Timer
use hvnetpp.Timer.{Timer, TimerId, restart}

-- An entry of `timers_` is (expiration, address), one of `activeTimers_` (address, sequence).
pub record TimerQueue : Type 0 where
  pub timers : List Key
  pub active_timers : List Key
  pub calling_expired_timers : Bool
  pub canceling_timers : List Key
  pub heap : ℕ → Option Timer
  pub num_created : ℕ
  pub armed : Option ℕ

abbrev pub update : (ℕ → Option Timer) → ℕ → Option Timer → ℕ → Option Timer
update heap p o a = if p == a then o else heap a

-- The timer behind a pointer.
abbrev pub deref : ℕ → TimerQueue → Result Timer
deref p q = elim (q.heap p) [ none ↦ err dangling | some t ↦ ok t ]

-- `delete` of a timer.
abbrev pub free : ℕ → TimerQueue → TimerQueue
free p q = record q { heap = update q.heap p none }

-- `timerfd_settime` with the instant `when`.
pub reset_timerfd : ℕ → TimerQueue → TimerQueue
reset_timerfd when q = record q { armed = some when }

pub disarm_timerfd : TimerQueue → TimerQueue
disarm_timerfd q = record q { armed = none }

abbrev is_earliest : ℕ → List Key → Bool
is_earliest when [] = true
is_earliest when (e ∷ es) = ltb when e.0

-- `insert`: the flag says whether the first expiration changed.
pub insert_timer : ℕ → TimerQueue → Result (Bool × TimerQueue)
insert_timer p q = do
  assert (length q.timers == length q.active_timers)
  t ← deref p q
  let earliest_changed = is_earliest t.expiration q.timers
  assert (not (contains (t.expiration, p) q.timers))
  assert (not (contains (p, t.sequence) q.active_timers))
  let q' : TimerQueue = record q {
    timers = insert (t.expiration, p) q.timers;
    active_timers = insert (p, t.sequence) q.active_timers;
  }
  assert (length q'.timers == length q'.active_timers)
  ok (earliest_changed, q')

pub add_timer_in_loop : ℕ → TimerQueue → Result TimerQueue
unfolding reset_timerfd
add_timer_in_loop p q = do
  (earliest_changed, q') ← insert_timer p q
  t ← deref p q'
  ok (if earliest_changed then reset_timerfd t.expiration q' else q')

abbrev starts_with : ℕ → List Key → Bool
starts_with p [] = false
starts_with p (e ∷ es) = e.1 == p

-- Arm the descriptor for the first timer, or disarm it.
pub rearm : List Key → TimerQueue → Result TimerQueue
unfolding reset_timerfd disarm_timerfd
rearm [] q = ok (disarm_timerfd q)
rearm (e ∷ es) q = do t ← deref e.1 q; ok (reset_timerfd t.expiration q)

-- The branch of `cancelInLoop` for a timer that is active.
pub cancel_active : TimerId → TimerQueue → Result TimerQueue
cancel_active id q = do
  let earliest_changed = starts_with id.timer q.timers
  t ← deref id.timer q
  assert (contains (t.expiration, id.timer) q.timers)
  let q' : TimerQueue = record q {
    timers = erase (t.expiration, id.timer) q.timers;
    active_timers = erase (id.timer, id.sequence) q.active_timers;
    heap = update q.heap id.timer none;
  }
  only_if earliest_changed (rearm q'.timers) q'

pub cancel_in_loop : TimerId → TimerQueue → Result TimerQueue
cancel_in_loop id q = do
  assert (length q.timers == length q.active_timers)
  if contains (id.timer, id.sequence) q.active_timers
      then cancel_active id q
      else ok (
          if q.calling_expired_timers
          then record q { canceling_timers = insert (id.timer, id.sequence) q.canceling_timers }
          else q)

-- `reinterpret_cast<Timer*>(UINTPTR_MAX)`
abbrev pub uintptr_max : ℕ
uintptr_max = 2 ^ 64 - 1

-- The loop of `getExpired` that takes the expired timers out of `activeTimers_`.
pub erase_active : List Key → TimerQueue → Result TimerQueue
erase_active [] q = ok q
erase_active (e ∷ es) q = do
  t ← deref e.1 q
  assert (contains (e.1, t.sequence) q.active_timers)
  erase_active es (record q { active_timers = erase (e.1, t.sequence) q.active_timers })

pub get_expired : ℕ → TimerQueue → Result (List Key × TimerQueue)
get_expired now q = do
  let expired = before (now, uintptr_max) q.timers
  q' ← erase_active expired (record q { timers = from (now, uintptr_max) q.timers })
  ok (expired, q')

-- A timer that repeats, put back with its next expiration.
pub restart_one : ℕ → ℕ → Timer → TimerQueue → Result TimerQueue
restart_one now p t q = do
  (_, q') ← insert_timer p (record q { heap = update q.heap p (some (restart now t)) })
  ok q'

-- One round of the loop of `reset`.
pub reset_one : ℕ → Key → TimerQueue → Result TimerQueue
unfolding restart_one
reset_one now e q = do
  t ← deref e.1 q
  if t.repeat && not (contains (e.1, t.sequence) q.canceling_timers)
      then restart_one now e.1 t q
      else ok (free e.1 q)

pub reset_all : ℕ → List Key → TimerQueue → Result TimerQueue
reset_all now [] q = ok q
reset_all now (e ∷ es) q = do q' ← reset_one now e q; reset_all now es q'

-- The first expiration, or `Timestamp()`, the clock's epoch.
abbrev next_expire : List Key → TimerQueue → Result ℕ
next_expire [] q = ok 0
next_expire (e ∷ es) q = do t ← deref e.1 q; ok t.expiration

pub reset : List Key → ℕ → TimerQueue → Result TimerQueue
unfolding reset_timerfd
reset expired now q = do
  q' ← reset_all now expired q
  when ← next_expire q'.timers q'
  ok (if not (when == 0) then reset_timerfd when q' else q')

-- What a callback asks of the queue.
pub data Action : Type 0 where
  add : ℕ → ℕ → ℤ → Action
  cancel : TimerId → Action

-- `new Timer(cb, when, interval)`, where `alloc` is `operator new` for a timer (`none`:
-- `std::bad_alloc`).
pub new_timer : ((ℕ → Option Timer) → Option ℕ) → ℕ → ℕ → ℤ → TimerQueue → Result (ℕ × TimerQueue)
new_timer alloc cb when interval q = elim (alloc q.heap) [
  | none ↦ err bad_alloc
  | some p ↦ ok (
    p,
    record q {
      heap = update q.heap p (some (Timer.new cb when interval q.num_created));
      num_created = q.num_created + 1;
    },
  )
]

-- The program around the queue: `alloc`, and what a callback does (`body`), which may depend on the
-- queue.
module _ (alloc : (ℕ → Option Timer) → Option ℕ) (body : ℕ → TimerQueue → List Action) where
  -- `addTimer` and `cancel` on the loop's thread, where `runInLoop` calls at once.
  pub act : Action → TimerQueue → Result TimerQueue
  act (add cb when interval) q = do
    (p, q') ← new_timer alloc cb when interval q
    add_timer_in_loop p q'
  act (cancel id) q = cancel_in_loop id q

  pub act_all : List Action → TimerQueue → Result TimerQueue
  act_all [] q = ok q
  act_all (a ∷ as') q = do q' ← act a q; act_all as' q'

  -- The loop of `handleRead` that runs the expired timers.
  pub run_all : List Key → TimerQueue → Result TimerQueue
  run_all [] q = ok q
  run_all (e ∷ es) q = do t ← deref e.1 q; q' ← act_all (body t.callback q) q; run_all es q'

  pub handle_read : ℕ → TimerQueue → Result TimerQueue
  handle_read now q = do
    (expired, q₁) ← get_expired now q
    q₂ ← run_all expired (record q₁ { calling_expired_timers = true; canceling_timers = [] })
    reset expired now (record q₂ { calling_expired_timers = false })

-- The constructor; `made` says whether `timerfd_create` succeeds, and `heap` and `n` are the timers
-- that there are and the counter of those that were created.
pub create : Bool → (ℕ → Option Timer) → ℕ → Result TimerQueue
create made heap n =
    if made
    then ok (record {
      timers = [];
      active_timers = [];
      calling_expired_timers = false;
      canceling_timers = [];
      heap = heap;
      num_created = n;
      armed = none;
    })
    else err aborted

-- `delete timer.second` for each entry.
unfoldable pub delete_all : List Key → TimerQueue → Result TimerQueue
delete_all [] q = ok q
delete_all (e ∷ es) q = do t ← deref e.1 q; delete_all es (free e.1 q)

-- The destructor; its channel is taken out of the poller.
unfoldable pub destroy : TimerQueue → Result TimerQueue
unfolding delete_all
destroy q = delete_all q.timers q
