-- ===== src/TimerQueue/History/Lifetime.antt =====
-- The timer queue from its constructor through a history of calls to its destructor.
use hvnetpp.Prelude.{ℕ, ◌≡◌, ◌⊎◌, inl, inr, List, Option, none, ok, err, bad_alloc, if◌then◌else◌}
use hvnetpp.Timer.{Timer}
use hvnetpp.TimerQueue.{TimerQueue, Action, destroy}
use hvnetpp.TimerQueue.Destroy.{destroy_lem}
use hvnetpp.TimerQueue.Fire.{AllocIsFresh}
use hvnetpp.TimerQueue.History.{World, Event, start, run}
use hvnetpp.TimerQueue.History.Sound.{is_pending, start-IsSound, run-Continues}

module _ (alloc : (ℕ → Option Timer) → Option ℕ) (body : ℕ → TimerQueue → List Action)
    (is_fresh : AllocIsFresh alloc) where
  -- Whatever threads ask of a new timer queue, unless memory runs out: its destructor then deletes
  -- every timer that is allocated, once, but those that a functor holds which has not run.
  pub run-destroy :
      (es : List Event)
      → ((w : World) × (run alloc body es start ≡ ok w)
          × (q : TimerQueue) × (destroy w.queue ≡ ok q)
          × ((p : ℕ) → q.heap p ≡ (if is_pending w.pending p then w.queue.heap p else none)))
        ⊎ (run alloc body es start ≡ err bad_alloc)
  run-destroy es = elim (run-Continues alloc body is_fresh es start start-IsSound) [
    | inl (w, r, s) ↦
        let (q, e, f) = destroy_lem (is_pending w.pending) w.queue s.owned in inl (w, r, q, e, f)
    | inr r ↦ inr r
  ]
