-- ===== src/Timer/Tests.antt =====
-- The timer's theorems at concrete instants, and runs.
use hvnetpp.Prelude.{ℕ, ◌≡◌, refl, false, true, pos, arith}
use hvnetpp.Timer.{Timer, restart, how_much_time_from_now, advance, valid}
use hvnetpp.Timer.Restart.{IsNext, restart-IsNext}

-- Every 10 microseconds, due at 5000 ns.
abbrev every_ten : Timer
every_ten = record {
  callback = 1;
  expiration = 5000;
  interval = pos 10;
  repeat = true;
  sequence = 3;
}

-- At 27000 ns the ticks at 15000 and 25000 are skipped.
restart_skips : restart 27000 every_ten ≡ record every_ten { expiration = 35000 }
unfolding restart advance
restart_skips = refl

null_id : valid (record { timer = 0; sequence = 0 }) ≡ false
unfolding valid
null_id = refl

restart-IsNext_example :
    (next : ℕ) × (restart 27000 every_ten ≡ record every_ten { expiration = next })
    × IsNext 5000 10 27000 next
restart-IsNext_example = restart-IsNext 27000 every_ten 10 refl refl (omega arith)

delay_rounds : how_much_time_from_now 1_500_123_999 0 ≡ record { tv_sec = 1; tv_nsec = 500_123_000 }
unfolding how_much_time_from_now
delay_rounds = refl
