-- ===== src/Timer.antt =====
-- include/hvnetpp/Timer.h, src/Timer.cpp, include/hvnetpp/TimerId.h, and `howMuchTimeFromNow` of
-- src/TimerQueue.cpp. A `Timestamp` is the number of nanoseconds since the monotonic clock's epoch,
-- a `TimeDelta` an integer of microseconds. A callback is known by a number.
pub mod Restart
mod Tests
use hvnetpp.Prelude.{
  ℕ, ◌+◌, ◌-◌, ◌*◌, ◌/◌, ◌%◌, Bool, if◌then◌else◌, ltb, leb, not, ◌==◌, ℤ, is_positive, pos_part,
}

pub record Timer : Type 0 where
  pub callback : ℕ
  pub expiration : ℕ
  pub interval : ℤ
  pub repeat : Bool
  pub sequence : ℕ

-- The constructor. `created` is `s_numCreated_` before it.
unfoldable pub new : ℕ → ℕ → ℤ → ℕ → Timer
new callback when interval created = record {
  callback = callback;
  expiration = when;
  interval = interval;
  repeat = is_positive interval;
  sequence = created + 1;
}

-- A time of `n` microseconds, in nanoseconds.
abbrev pub micros : ℕ → ℕ
micros n = n * 1000

-- `expiration_ += interval_`, and then by as many intervals as are overdue.
pub advance : ℕ → ℕ → ℕ → ℕ
advance expiration count now =
    let next = expiration + micros count in
    let overdue = (now - next) / 1000 in
    let skipped = overdue / count + 1 in
    if leb next now then next + micros (count * skipped) else next

pub restart : ℕ → Timer → Timer
restart now t =
    if t.repeat
    then (if is_positive t.interval
        then record t { expiration = advance t.expiration (pos_part t.interval) now }
        else record t { expiration = now })
    else record t { expiration = 0 }

-- The pointer is a number, 0 for the null pointer.
pub record TimerId : Type 0 where
  pub timer : ℕ
  pub sequence : ℕ

pub valid : TimerId → Bool
valid id = not (id.timer == 0)

pub record Timespec : Type 0 where
  pub tv_sec : ℕ
  pub tv_nsec : ℕ

abbrev clamp : ℕ → ℕ
clamp n = if ltb n 100 then 100 else n

-- `duration_cast` rounds towards zero; what is negative is raised to 100 as well.
pub how_much_time_from_now : ℕ → ℕ → Timespec
how_much_time_from_now when now =
    let microseconds = clamp ((when - now) / 1000) in
    record { tv_sec = microseconds / 1000000; tv_nsec = microseconds % 1000000 * 1000 }
