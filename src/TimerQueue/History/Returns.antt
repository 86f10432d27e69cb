-- ===== src/TimerQueue/History/Returns.antt =====
-- The calls of `addTimer` on other threads to their end: after its functor is queued, each one still
-- reads `timer->sequence()` for the `TimerId` that it returns (src/TimerQueue.cpp:80), at any time.
use hvnetpp.Prelude.{
  ℕ, ◌≡◌, refl, ap, ◌⊎◌, inl, inr, Bool, true, false, List, [], ◌∷◌, ◌++◌, Option, none, some, ok,
  err, bad_alloc, dangling, Result, ◌==◌, ◌||◌, if◌then◌else◌, arith, ◌>>=◌,
}
use hvnetpp.Timer.{Timer, TimerId}
use hvnetpp.TimerQueue.{TimerQueue, Action, deref}
use hvnetpp.TimerQueue.Fire.{AllocIsFresh}
use hvnetpp.TimerQueue.History.{World, Event, add_from, cancel_from, call, drain, fire, start, step}
use hvnetpp.TimerQueue.History.Sound.{IsSound, Continues, step-Continues}

-- The queue with its functors; the timers of the calls of `addTimer` that have not returned; and the
-- ids that were returned.
pub record Clients : Type 0 where
  pub world : World
  pub returning : List ℕ
  pub ids : List TimerId

-- An event of the history, or the end of a call of `addTimer`, with the timer that it has made.
pub data Move : Type 0 where
  event : Event → Move
  returns : ℕ → Move

abbrev pub none_returning : Clients
none_returning = record { world = start; returning = []; ids = [] }

unfoldable pub is_returning : List ℕ → ℕ → Bool
is_returning [] p = false
is_returning (a ∷ ps) p = a == p || is_returning ps p

-- One call of those that hold `p` is over.
unfoldable pub returned : ℕ → List ℕ → List ℕ
returned p [] = []
returned p (a ∷ ps) = if a == p then ps else a ∷ returned p ps

unfoldable pub given : ℕ → Timer → Clients → Clients
unfolding returned
given p t s = record s {
  returning = returned p s.returning;
  ids = s.ids ++ (record { timer = p; sequence = t.sequence } ∷ []);
}

module _ (alloc : (ℕ → Option Timer) → Option ℕ) (body : ℕ → TimerQueue → List Action) where
  -- The calls that have queued their functors.
  abbrev pub began : Event → World → List ℕ → List ℕ
  began (add_from cb when interval) w ps = elim (alloc w.queue.heap) [ none ↦ ps | some p ↦ p ∷ ps ]
  began (cancel_from id) w ps = ps
  began (call a) w ps = ps
  began drain w ps = ps
  began (fire now) w ps = ps

  -- `return TimerId(timer, timer->sequence())`
  unfoldable pub return_id : ℕ → Clients → Result Clients
  unfolding given
  return_id p s = do t ← deref p s.world.queue; ok (given p t s)

  unfoldable pub move : Move → Clients → Result Clients
  unfolding step return_id is_returning
  move (event e) s = do
    w ← step alloc body e s.world
    ok (record s { world = w; returning = began e s.world s.returning })
  move (returns p) s = if is_returning s.returning p then return_id p s else ok s

  unfoldable pub run_moves : List Move → Clients → Result Clients
  run_moves [] s = ok s
  run_moves (m ∷ ms) s = do s' ← move m s; run_moves ms s'

  -- The history stops where a call of `addTimer` reads a timer that is deleted by then.
  pub record Dangles (ms : List Move) (s : Clients) : Type 0 where
    pub before : List Move
    pub timer : ℕ
    pub after : List Move
    pub clients : Clients
    pub split : ms ≡ before ++ (returns timer ∷ after)
    pub reached : run_moves before s ≡ ok clients
    pub sound : IsSound clients.world
    pub held : is_returning clients.returning timer ≡ true
    pub deleted : clients.world.queue.heap timer ≡ none
    pub stops : run_moves ms s ≡ err dangling

  abbrev pub Passes : List Move → Clients → Type 0
  Passes ms s =
      ((s' : Clients) × (run_moves ms s ≡ ok s') × IsSound s'.world)
      ⊎ ((run_moves ms s ≡ err bad_alloc) ⊎ Dangles ms s)

  -- What a move that succeeds hands on.
  after_move :
      (m : Move) (ms : List Move) (s s' : Clients)
      → move m s ≡ ok s'
      → Passes ms s'
      → Passes (m ∷ ms) s
  unfolding run_moves
  after_move m ms s s' e (inl (s'', r, i)) = inl (s'', rw e r, i)
  after_move m ms s s' e (inr (inl r)) = inr (inl (rw e r))
  after_move m ms s s' e (inr (inr d)) = inr (
      inr (record {
        before = m ∷ d.before;
        timer = d.timer;
        after = d.after;
        clients = d.clients;
        split = ap (λ ms. m ∷ ms) d.split;
        reached = rw e d.reached;
        sound = d.sound;
        held = d.held;
        deleted = d.deleted;
        stops = rw e d.stops;
      }))

module _ (alloc : (ℕ → Option Timer) → Option ℕ) (body : ℕ → TimerQueue → List Action)
    (is_fresh : AllocIsFresh alloc) where
  -- A move from a sound world.
  abbrev Moves : Move → Clients → Type 0
  Moves m s =
      ((s' : Clients) × (move alloc body m s ≡ ok s') × IsSound s'.world)
      ⊎ ((move alloc body m s ≡ err bad_alloc)
          ⊎ ((p : ℕ) × (m ≡ returns p)
              × (is_returning s.returning p ≡ true)
              × (s.world.queue.heap p ≡ none)
              × (move alloc body m s ≡ err dangling)))

  move-Moves : (m : Move) (s : Clients) → IsSound s.world → Moves m s
  unfolding move return_id given
  move-Moves (event e) s i = go (step-Continues alloc body is_fresh e s.world i)
    where
      go : Continues (step alloc body e s.world) → Moves (event e) s
      go (inl (w, r, j)) =
          inl (
            record s { world = w; returning = began alloc body e s.world s.returning },
            rw r refl,
            j,
          )
      go (inr r) = inr (inl (rw r refl))
  move-Moves (returns p) s i = go (is_returning s.returning p) refl (s.world.queue.heap p) refl
    where
      go :
          (b : Bool)
          → is_returning s.returning p ≡ b
          → (o : Option Timer) → s.world.queue.heap p ≡ o
          → Moves (returns p) s
      go false h o l = inl (s, rw h refl, i)
      go true h none l = inr (inr (p, refl, h, l, ground (arith, h, l)))
      go true h (some t) l = inl (given p t s, ground (arith, h, l), i)

  -- Any history of the timer queue from a sound world, and so from the start, in which each call of
  -- `addTimer` on another thread reads `timer->sequence()` at any time after its functor is queued,
  -- goes through to a sound world (no assertion fails, no timer is leaked or in the sets twice, the
  -- descriptor is armed for the first timer), unless memory runs out, or unless it stops at such a
  -- read: the timer of a call that has not returned is deleted by then. No other read of a deleted
  -- timer occurs.
  pub run_moves-Passes : (ms : List Move) (s : Clients) → IsSound s.world → Passes alloc body ms s
  unfolding run_moves
  run_moves-Passes [] s i = inl (s, refl, i)
  run_moves-Passes (m ∷ ms) s i = go (move-Moves m s i) (λ s'. run_moves-Passes ms s')
    where
      go :
          Moves m s
          → ((s' : Clients) → IsSound s'.world → Passes alloc body ms s')
          → Passes alloc body (m ∷ ms) s
      go (inl (s', r, j)) f = after_move alloc body m ms s s' r (f s' j)
      go (inr (inl r)) f = inr (inl (rw r refl))
      go (inr (inr (p, e, h, l, r))) f = inr (
          inr (record {
            before = [];
            timer = p;
            after = ms;
            clients = s;
            split = ap (λ m. m ∷ ms) e;
            reached = refl;
            sound = i;
            held = h;
            deleted = l;
            stops = rw r refl;
          }))
