-- ===== src/UdpSocket/Callers.antt =====
-- `UdpSocket::startReceive` and `UdpSocket::stopReceive`, src/UdpSocket.cpp, of a socket that is
-- bound, called on several threads: the tests of a call, its store of the atomic state, and the
-- handing of its functor to the loop are steps. Thread 0 is the loop's, where `runInLoop` runs a
-- functor at once; from the others it is queued, in the order in which it is handed over.
use hvnetpp.Prelude.{
  ℕ, ◌≡◌, ◌≢◌, refl, Bool, true, false, List, [], ◌∷◌, ◌++◌, ◌==◌, if◌then◌else◌, arith,
}
use hvnetpp.UdpSocket.{State, bound, receiving, is_receiving}

-- Where a thread is: in no call; past the tests of `startReceive`; past the test of `stopReceive`,
-- with its result; or past the store, to hand over `enableReading` (true) or `disableReading`.
pub data Point : Type 0 where
  idle : Point
  may_start : Point
  may_stop : Bool → Point
  stored : Bool → Point

-- `reading` says whether the channel waits for input, `pending` are the functors that are queued.
pub record Shared : Type 0 where
  pub state : State
  pub reading : Bool
  pub pending : List Bool
  pub at : ℕ → Point

abbrev pub begin : Shared
begin = record { state = bound; reading = false; pending = []; at = λ t. idle }

abbrev pub put : ℕ → Point → (ℕ → Point) → ℕ → Point
put t p m x = if t == x then p else m x

-- `runInLoop` of the functor.
unfoldable pub hand_over : Bool → Bool → Shared → Shared
hand_over true b s = record s { reading = b }
hand_over false b s = record s { pending = s.pending ++ (b ∷ []) }

-- The calls of the threads `users`, where a call only begins when no other is under way.
pub data Step (users : ℕ → Bool) : Shared → Shared → Type 0 where
  starts :
      (s : Shared) (t : ℕ)
      → users t ≡ true
      → ((x : ℕ) → s.at x ≡ idle)
      → is_receiving s.state ≡ false
      → Step users s (record s { at = put t may_start s.at })
  stores_receiving :
      (s : Shared) (t : ℕ)
      → users t ≡ true
      → s.at t ≡ may_start
      → Step users s (record s { state = receiving; at = put t (stored true) s.at })
  stops :
      (s : Shared) (t : ℕ)
      → users t ≡ true
      → ((x : ℕ) → s.at x ≡ idle)
      → Step users s (record s { at = put t (may_stop (is_receiving s.state)) s.at })
  stores_bound :
      (s : Shared) (t : ℕ) (b : Bool)
      → users t ≡ true
      → s.at t ≡ may_stop b
      → Step users s
          (record s { state = if b then bound else s.state; at = put t (stored false) s.at })
  hands :
      (s : Shared) (t : ℕ) (b : Bool)
      → users t ≡ true
      → s.at t ≡ stored b
      → Step users s (hand_over (t == 0) b (record s { at = put t idle s.at }))
  -- The loop's thread, outside of the calls.
  runs :
      (s : Shared) (b : Bool) (rest : List Bool)
      → s.at 0 ≡ idle
      → s.pending ≡ b ∷ rest
      → Step users s (record s { reading = b; pending = rest })

pub data Reached (users : ℕ → Bool) : Shared → Type 0 where
  here : Reached users begin
  next : {s s' : Shared} → Reached users s → Step users s s' → Reached users s'

-- Whether the channel waits for input once the functors have run.
abbrev pub after : Bool → List Bool → Bool
after r [] = r
after r (b ∷ bs) = after b bs

-- What holds where the one thread that may be in a call is at the point.
abbrev Valid : Point → State → Bool → Type 0
Valid idle state r = r ≡ is_receiving state
Valid may_start state r = is_receiving state ≡ false
Valid (may_stop b) state r = b ≡ is_receiving state
Valid (stored b) state r = b ≡ is_receiving state

-- No thread but `who` is in a call.
record Sound (users : ℕ → Bool) (s : Shared) : Type 0 where
  who : ℕ
  others : (x : ℕ) → who ≢ x → s.at x ≡ idle
  valid : Valid (s.at who) s.state (after s.reading s.pending)
  none_left : users 0 ≡ true → s.pending ≡ []

pub put_here : (t : ℕ) (p : Point) (m : ℕ → Point) → put t p m t ≡ p
put_here t p m = let e : (t == t) ≡ true = ground arith in rw (e) refl

abbrev is_idle : Point → Bool
is_idle idle = true
is_idle _ = false
