-- ===== src/TimerQueue/History/Race.antt =====
-- `TimerQueue::addTimer` on another thread than the loop's: what it reads after it has queued the
-- functor, `TimerId(timer, timer->sequence())`.
use hvnetpp.Prelude.{
  ℕ, ◌≤◌, ◌≡◌, refl, ◌∙◌, subst, ◌⊎◌, inl, inr, true, false, List, [], ◌∷◌, Option, none, some, ok,
  err, bad_alloc, dangling, Result, arith, ◌>>=◌, ℤ, is_positive,
}
use hvnetpp.PairSet.{contains}
use hvnetpp.PairSet.Laws.{contains-insert}
use hvnetpp.Timer
use hvnetpp.Timer.{Timer, TimerId}
use hvnetpp.Timer.Restart.{repeat-new, expiration-new}
use hvnetpp.TimerQueue.{TimerQueue, update, deref, Action, new_timer, handle_read}
use hvnetpp.TimerQueue.Change.{created}
use hvnetpp.TimerQueue.Ops.{added, add_timer_in_loop-eq}
use hvnetpp.TimerQueue.Fire.{AllocIsFresh}
use hvnetpp.TimerQueue.Handle.{Fired, Handles, handle_read-Handles}
use hvnetpp.TimerQueue.History.{adds, World, Event, add_from, drain, fire, drain_one, step, run}
use hvnetpp.TimerQueue.History.Sound.{IsSound, is_pending, Continues, step-Continues}

module _ (alloc : (ℕ → Option Timer) → Option ℕ) (body : ℕ → TimerQueue → List Action)
    (is_fresh : AllocIsFresh alloc) where
  gone : (now : ℕ) (t : Timer) (o : Option Timer) → t.repeat ≡ false → Fired now t o → o ≡ none
  gone now t o h (inl (k, e)) = e
  gone now t o h (inr (k, e)) = cc (h, k)

  -- Firing deletes a one-shot timer that is due.
  fire_deletes :
      (w w' : World) (now p : ℕ) (t : Timer)
      → IsSound w
      → w.queue.heap p ≡ some t
      → contains (t.expiration, p) w.queue.timers ≡ true
      → t.repeat ≡ false
      → t.expiration ≤ now
      → step alloc body (fire now) w ≡ ok w'
      → w'.queue.heap p ≡ none
  unfolding step
  fire_deletes w w' now p t s l c h k r =
      go (handle_read-Handles alloc body is_fresh (is_pending w.pending) now w.queue s.owned)
    where
      go :
          ((q' : TimerQueue) × (handle_read alloc body now w.queue ≡ ok q')
              × Handles (is_pending w.pending) now w.queue q')
            ⊎ (handle_read alloc body now w.queue ≡ err bad_alloc)
          → w'.queue.heap p ≡ none
      go (inr e) = ground (arith, e, r)
      go (inl (q', e, x)) =
          let g : q'.heap p ≡ none = gone now t (q'.heap p) h (x.fired (t.expiration, p) t c k l) in
          ground (arith, e, r, g)

  step-IsSound : (e : Event) (w w' : World) → IsSound w → step alloc body e w ≡ ok w' → IsSound w'
  step-IsSound e w w' s r = go (step-Continues alloc body is_fresh e w s)
    where
      go : Continues (step alloc body e w) → IsSound w'
      go (inr f) = cc (r, f)
      go (inl (w'', f, s')) = let g : w'' ≡ w' = cc (r, f) in subst IsSound g s'

  abbrev queued : Timer → ℕ → World → World
  queued t p w = record { queue = created p t w.queue; pending = adds p ∷ [] }

  abbrev drained : Timer → ℕ → World → World
  drained t p w = record { queue = added p t (created p t w.queue); pending = [] }

  add_from-queued :
      (w : World) (cb when p : ℕ) (v : ℤ)
      → w.pending ≡ []
      → alloc w.queue.heap ≡ some p
      → step alloc body (add_from cb when v) w
        ≡ ok (queued (Timer.new cb when v w.queue.num_created) p w)
  unfolding step new_timer
  add_from-queued w cb when p v n e = ground (arith, n, e)

  drain-drained :
      (w : World) (t : Timer) (p : ℕ)
      → IsSound (queued t p w)
      → step alloc body drain (queued t p w) ≡ ok (drained t p w)
  unfolding step drain_one
  drain-drained w t p s =
      let here : update w.queue.heap p (some t) p ≡ some t = ground arith in
      rw
        (add_timer_in_loop-eq (is_pending (adds p ∷ [])) (created p t w.queue) p t s.owned here
          (ground arith))
        refl

  -- A read through the timer's address after the loop has run it: where another thread's `addTimer`
  -- of a one-shot timer has queued its functor, and the loop's thread then runs that functor and, at
  -- an instant that is not before the timer's expiration, `handleRead`, the timer is deleted, so
  -- that the read of `timer->sequence()` for the result of `addTimer` is a read of a deleted object.
  pub add_timer_race :
      (w w' : World) (cb when now p : ℕ) (v : ℤ)
      → IsSound w
      → w.pending ≡ []
      → alloc w.queue.heap ≡ some p
      → is_positive v ≡ false
      → when ≤ now
      → run alloc body (add_from cb when v ∷ drain ∷ fire now ∷ []) w ≡ ok w'
      → deref p w'.queue ≡ err dangling
  unfolding run
  add_timer_race w w' cb when now p v s n e h k r =
      let t = Timer.new cb when v w.queue.num_created in
      let q = add_from-queued w cb when p v n e in
      let s₁ = step-IsSound (add_from cb when v) w (queued t p w) s q in
      let d = drain-drained w t p s₁ in
      let s₂ = step-IsSound drain (queued t p w) (drained t p w) s₁ d in
      let here : update w.queue.heap p (some t) p ≡ some t = ground arith in
      let f : step alloc body (fire now) (drained t p w) ≡ ok w' = ok-right _ w' (rw (q, d) at r) in
      let g : w'.queue.heap p ≡ none =
        fire_deletes (drained t p w) w' now p t s₂ here
          (ground (arith, contains-insert (t.expiration, p) (t.expiration, p) w.queue.timers))
          (repeat-new cb when v w.queue.num_created ∙ h)
          (omega (arith, expiration-new cb when v w.queue.num_created)) f in
      ground (arith, g)
    where
      ok-right : (r : Result World) (w : World) → (r >>= λ x. ok x) ≡ ok w → r ≡ ok w
      ok-right (ok x) w h = h
      ok-right (err e) w h = h
