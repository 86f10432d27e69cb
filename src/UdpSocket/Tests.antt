-- ===== src/UdpSocket/Tests.antt =====
-- A socket that is bound and receives.
use hvnetpp.Prelude.{ℕ, Bool, ◌==◌, ◌≡◌, arith, refl, true, false, [], ◌∷◌, some}
use hvnetpp.UdpSocket.Callers.{Shared, Reached, idle, may_start, stored}
use hvnetpp.UdpSocket.Crossed.{through, crossed_lem}
use hvnetpp.UdpSocket.{receiving, bound, new, bind, run_pending}
use hvnetpp.UdpSocket.Anywhere.{run_pending-Keeps}
use hvnetpp.UdpSocket.States.{IsSound, Keeps, perform, call_bind_and_start}

new-IsSound : IsSound new
unfolding new
new-IsSound = record { open_iff = refl; channel_iff = refl; reading_iff = refl }

-- A failed `bind` of a new descriptor closes it.
failed_bind : (bind true (some 5) false 2 new).1.closed_fds ≡ 5 ∷ []
unfolding bind new
failed_bind = refl

-- Another thread binds the socket and starts to receive; the functor of the channel runs later.
run_pending-Keeps_example :
    Keeps (5 ∷ []) new (run_pending (perform false (call_bind_and_start (some 5) true 2) new))
unfolding new
run_pending-Keeps_example =
    run_pending-Keeps false (call_bind_and_start (some 5) true 2) new new-IsSound refl

-- Thread 1 has started to receive.
abbrev one_caller : ℕ → Bool
one_caller t = t == 1

abbrev has_started : Shared
has_started = record {
  state = receiving;
  reading = false;
  pending = true ∷ [];
  at = through 1 may_start (stored true) (λ x. idle);
}

crossed_lem_example :
    (s : Shared) × Reached (λ x. true) s
    × ((x : ℕ) → s.at x ≡ idle)
    × (s.pending ≡ [])
    × (s.state ≡ bound)
    × (s.reading ≡ true)
crossed_lem_example = crossed_lem (λ x. true) 1 refl refl (ground arith)
