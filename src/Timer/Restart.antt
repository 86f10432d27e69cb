-- ===== src/Timer/Restart.antt =====
-- When a timer expires next, and the delay that the timer descriptor is armed with.
use native.Mathlib.Nat.{div-add-mod, mod-lt}
use hvnetpp.Prelude.{
  ℕ, ◌+◌, ◌-◌, ◌*◌, ◌/◌, ◌≤◌, ◌<◌, ◌≡◌, refl, ◌⊎◌, inl, inr, Bool-cases, true, ℤ, is_positive, pos,
  arith, leb, if◌then◌else◌,
}
use hvnetpp.Timer.{Timer, micros, advance, restart, how_much_time_from_now, Timespec, new}

-- The first multiple of a period of `n` microseconds beyond `d`.
next_multiple :
    (d n : ℕ)
    → 0 < n
    → (d < micros (n * (d / 1000 / n + 1))) × (micros (n * (d / 1000 / n + 1)) ≤ d + micros n)
next_multiple d n h = grind (arith, div-add-mod (d / 1000) n, mod-lt (d / 1000) h)

-- How many intervals `restart` adds.
ticks : ℕ → ℕ → ℕ → ℕ
ticks expiration count now =
    let next = expiration + micros count in
    if leb next now then (now - next) / 1000 / count + 2 else 1

advance-ticks : (e n now : ℕ) → advance e n now ≡ e + micros (n * ticks e n now)
unfolding advance ticks
advance-ticks e n now = elim (Bool-cases (leb (e + micros n) now)) [
  | inl overdue ↦ rw overdue (omega arith)
  | inr ahead ↦ rw ahead (omega arith)
]

ticks_pos : (e n now : ℕ) → 0 < ticks e n now
unfolding ticks
ticks_pos e n now = ground arith

-- What `next` is for a timer that expired at `e` and has a period of `n` microseconds.
pub record IsNext (e n now next : ℕ) : Type 0 where
  pub later : now < next
  pub in_phase : (k : ℕ) × (0 < k) × (next ≡ e + micros (n * k))
  pub soonest : (next ≡ e + micros n) ⊎ (next ≤ now + micros n)

advance-IsNext : (e n now : ℕ) → 0 < n → IsNext e n now (advance e n now)
advance-IsNext e n now h = record {
  later = after e n now h;
  in_phase = (ticks e n now, ticks_pos e n now, advance-ticks e n now);
  soonest = bounded e n now h;
}
  where
    after : (e n now : ℕ) → 0 < n → now < advance e n now
    after e n now h = unfold advance in ground (arith, next_multiple (now - (e + micros n)) n h)

    bounded :
        (e n now : ℕ)
        → 0 < n
        → (advance e n now ≡ e + micros n) ⊎ (advance e n now ≤ now + micros n)
    bounded e n now h = unfold advance in ground (arith, next_multiple (now - (e + micros n)) n h)

-- `restart` of a repeating timer with a positive interval sets its expiration later than `now`, a
-- whole number of intervals after the old one: one interval where that lies after `now`, else no
-- further than one interval past `now`. Nothing else of the timer changes.
pub restart-IsNext :
    (now : ℕ) (t : Timer) (n : ℕ)
    → t.repeat ≡ true
    → t.interval ≡ pos n
    → 0 < n
    → (next : ℕ) × (restart now t ≡ record t { expiration = next }) × IsNext t.expiration n now next
unfolding restart
restart-IsNext now t n r i h =
    (advance t.expiration n now, ground arith, advance-IsNext t.expiration n now h)

abbrev pub nanos : Timespec → ℕ
nanos ts = ts.tv_sec * 1_000_000_000 + ts.tv_nsec

-- The delay that `howMuchTimeFromNow` gives has less than a second in its nanoseconds, is 100
-- microseconds at least (so that it never disarms the descriptor), ends less than a microsecond
-- before `when`, and, where it is not those 100 microseconds, not after `when`.
pub how_much_time_from_now_bounds :
    (when now : ℕ)
    → let ts = how_much_time_from_now when now in
      (ts.tv_nsec < 1_000_000_000)
      × (100_000 ≤ nanos ts)
      × (when < now + nanos ts + 1000)
      × ((nanos ts ≡ 100_000) ⊎ (now + nanos ts ≤ when))
unfolding how_much_time_from_now
how_much_time_from_now_bounds when now = ground arith

-- `restart` keeps the sequence number, and with it the timer's id.
pub sequence-restart : (now : ℕ) (t : Timer) → (restart now t).sequence ≡ t.sequence
unfolding restart
sequence-restart now t = ground arith

pub sequence-new :
    (cb when : ℕ) (interval : ℤ) (created : ℕ)
    → (new cb when interval created).sequence ≡ created + 1
unfolding new
sequence-new cb when interval created = refl

pub repeat-new :
    (cb when : ℕ) (interval : ℤ) (created : ℕ)
    → (new cb when interval created).repeat ≡ is_positive interval
unfolding new
repeat-new cb when interval created = refl

pub expiration-new :
    (cb when : ℕ) (interval : ℤ) (created : ℕ) → (new cb when interval created).expiration ≡ when
unfolding new
expiration-new cb when interval created = refl
