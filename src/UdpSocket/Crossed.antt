-- ===== src/UdpSocket/Crossed.antt =====
-- A call of `startReceive` on another thread, and after it one of `stopReceive` on the loop's.
use hvnetpp.Prelude.{
  ℕ, ◌≡◌, ◌≢◌, refl, subst, inl, inr, Bool, true, false, [], ◌∷◌, ◌++◌, ◌==◌, Bool-cases, arith,
}
use hvnetpp.UdpSocket.{bound, receiving, is_receiving}
use hvnetpp.UdpSocket.Callers.{
  Point, idle, may_start, may_stop, stored, Shared, put, hand_over, starts, stores_receiving, stops,
  stores_bound, hands, runs, Reached, here, next, put_here,
}

abbrev pub through : ℕ → Point → Point → (ℕ → Point) → ℕ → Point
through t p q m = put t idle (put t q (put t p m))

pub through-idle :
    (t : ℕ) (p q : Point) (m : ℕ → Point)
    → ((x : ℕ) → m x ≡ idle)
    → (x : ℕ) → through t p q m x ≡ idle
through-idle t p q m h x = elim (Bool-cases (t == x)) [ inl e ↦ rw (e) refl | inr e ↦ rw (e) (h x) ]

pub started :
    {users : ℕ → Bool} {s : Shared} (t : ℕ)
    → Reached users s
    → users t ≡ true
    → t ≢ 0
    → ((x : ℕ) → s.at x ≡ idle)
    → is_receiving s.state ≡ false
    → Reached users (record s {
      state = receiving;
      pending = s.pending ++ (true ∷ []);
      at = through t may_start (stored true) s.at;
    })
unfolding hand_over
started {users} {s} t r u n q f =
    let a = next r (starts s t u q f) in
    let b = next a (stores_receiving _ t u (put_here t may_start s.at)) in
    let c = next b (hands _ t true u (put_here t (stored true) (put t may_start s.at))) in
    let e : (t == 0) ≡ false = ground arith in
    subst
      (λ now. Reached users (
        hand_over now true
          (record s { state = receiving; at = through t may_start (stored true) s.at })))
      e c

stopped_at_once :
    {users : ℕ → Bool} (s : Shared)
    → Reached users (record s { state = receiving })
    → users 0 ≡ true
    → ((x : ℕ) → s.at x ≡ idle)
    → Reached users (record s {
      state = bound;
      reading = false;
      at = through 0 (may_stop true) (stored false) s.at;
    })
unfolding hand_over
stopped_at_once {users} s r u q =
    let a = next r (stops _ 0 u q) in
    let b = next a (stores_bound _ 0 true u (put_here 0 (may_stop true) s.at)) in
    next b (hands _ 0 false u (put_here 0 (stored false) (put 0 (may_stop true) s.at)))

-- Calls that do not overlap, but are made on the loop's thread as well as on another: the socket may
-- come to be bound, not receiving, with no call under way and no functor queued, and its channel
-- waits for input.
pub crossed_lem :
    (users : ℕ → Bool) (t : ℕ)
    → users 0 ≡ true
    → users t ≡ true
    → t ≢ 0
    → (s : Shared) × Reached users s
      × ((x : ℕ) → s.at x ≡ idle)
      × (s.pending ≡ [])
      × (s.state ≡ bound)
      × (s.reading ≡ true)
crossed_lem users t v u n =
    let a = started t here u n (λ x. refl) refl in
    let q = through-idle t may_start (stored true) (λ x. idle) (λ x. refl) in
    let s : Shared = record {
      state = receiving;
      reading = false;
      pending = true ∷ [];
      at = through t may_start (stored true) (λ x. idle);
    } in
    let b = stopped_at_once s a v q in
    let r = through-idle 0 (may_stop true) (stored false) s.at q in
    (_, next b (runs _ true [] (r 0) refl), r, refl, refl, refl)
