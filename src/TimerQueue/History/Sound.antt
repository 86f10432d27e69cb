-- ===== src/TimerQueue/History/Sound.antt =====
-- Every history of the timer queue among threads is free of faults, but for what `addTimer` on
-- another thread reads after it has queued its functor, which Returns adds.
use native.Mathlib.Decide.{ℕ_discrete}
use hvnetpp.Prelude.{
  ℕ, ◌≡◌, refl, ◌∙◌, ap, ◌⊎◌, inl, inr, Bool, true, false, List, [], ◌∷◌, ◌++◌, Option, none, some,
  ok, err, bad_alloc, Result, ◌==◌, ◌||◌, arith, ◌>>=◌, ℤ,
}
use hvnetpp.PairSet.{contains}
use hvnetpp.Timer
use hvnetpp.Timer.{Timer, TimerId}
use hvnetpp.Timer.Restart.{sequence-new}
use hvnetpp.TimerQueue.{TimerQueue, Action, new_timer, handle_read}
use hvnetpp.TimerQueue.Owned.{IsOwned, IsOwned-cong, mark}
use hvnetpp.TimerQueue.Change.{created, created-IsOwned}
use hvnetpp.TimerQueue.Ops.{IsArmed, add_timer_in_loop_lem}
use hvnetpp.TimerQueue.Cancel.{cancel_in_loop_lem}
use hvnetpp.TimerQueue.Reset.{detached_timer}
use hvnetpp.TimerQueue.Fire.{Succeeds, AllocIsFresh, act-Succeeds, free-not_detached}
use hvnetpp.TimerQueue.Handle.{Handles, handle_read-Handles}
use hvnetpp.TimerQueue.History.{
  Functor, adds, cancels, World, Event, add_from, cancel_from, call, drain, fire, start, drain_one,
  step, run,
}

-- The timer at `p` waits to be added.
abbrev pub is_pending : List Functor → ℕ → Bool
is_pending [] p = false
is_pending (adds a ∷ fs) p = a == p || is_pending fs p
is_pending (cancels id ∷ fs) p = is_pending fs p

abbrev pub AreDistinct : List Functor → Type 0
AreDistinct [] = Unit {0}
AreDistinct (adds a ∷ fs) = (is_pending fs a ≡ false) × AreDistinct fs
AreDistinct (cancels id ∷ fs) = AreDistinct fs

-- The invariant, with the pending timers detached.
pub record IsSound (w : World) : Type 0 where
  pub owned : IsOwned (is_pending w.pending) w.queue
  pub distinct : AreDistinct w.pending
  pub armed : IsArmed w.queue.timers w.queue.armed

pub start-IsSound : IsSound start
start-IsSound = record {
  owned = record {
    sizes = refl;
    timers_sorted = tt;
    active_sorted = tt;
    slot = λ p. (λ w. unfold contains in refl, λ s. unfold contains in refl, refl);
  };
  distinct = tt;
  armed = tt;
}

is_pending-append :
    (fs : List Functor) (p a : ℕ)
    → is_pending (fs ++ (adds p ∷ [])) a ≡ mark (is_pending fs) p true a
is_pending-append [] p a = ground arith
is_pending-append (adds b ∷ fs) p a = ground (arith, is_pending-append fs p a)
is_pending-append (cancels id ∷ fs) p a = is_pending-append fs p a

is_pending-append_cancels :
    (fs : List Functor) (id : TimerId) (a : ℕ)
    → is_pending (fs ++ (cancels id ∷ [])) a ≡ is_pending fs a
is_pending-append_cancels [] id a = refl
is_pending-append_cancels (adds b ∷ fs) id a = ground (arith, is_pending-append_cancels fs id a)
is_pending-append_cancels (cancels i ∷ fs) id a = is_pending-append_cancels fs id a

append-AreDistinct :
    (fs : List Functor) (p : ℕ)
    → is_pending fs p ≡ false
    → AreDistinct fs
    → AreDistinct (fs ++ (adds p ∷ []))
append-AreDistinct [] p h d = (refl, tt)
append-AreDistinct (adds b ∷ fs) p h d =
    (ground (arith, d.0, is_pending-append fs p b), append-AreDistinct fs p (ground arith) d.1)
append-AreDistinct (cancels id ∷ fs) p h d = append-AreDistinct fs p h d

append_cancels-AreDistinct :
    (fs : List Functor) (id : TimerId) → AreDistinct fs → AreDistinct (fs ++ (cancels id ∷ []))
append_cancels-AreDistinct [] id d = tt
append_cancels-AreDistinct (adds b ∷ fs) id d =
    (is_pending-append_cancels fs id b ∙ d.0, append_cancels-AreDistinct fs id d.1)
append_cancels-AreDistinct (cancels i ∷ fs) id d = append_cancels-AreDistinct fs id d

-- The step succeeds in a sound world, or memory ran out.
abbrev pub Continues : Result World → Type 0
Continues r = ((w : World) × (r ≡ ok w) × IsSound w) ⊎ (r ≡ err bad_alloc)

drain_one-Continues :
    (fs : List Functor) (q : TimerQueue)
    → IsSound (record { queue = q; pending = fs })
    → Continues (drain_one fs q)
unfolding drain_one
drain_one-Continues [] q s = inl (record { queue = q; pending = [] }, refl, s)
drain_one-Continues (adds p ∷ fs) q s =
    let D = is_pending (adds p ∷ fs) in
    let held : D p ≡ true = ground arith in
    let (t, l) = detached_timer D q p s.owned held in
    let (q', r, o, m, a) = add_timer_in_loop_lem D q p t s.owned l held in
    inl (
      record { queue = q'; pending = fs },
      rw r refl,
      record {
        owned = IsOwned-cong (mark D p false) (is_pending fs) q' (λ a. same a) o;
        distinct = s.distinct.1;
        armed = a s.armed;
      },
    )
  where
    same : (a : ℕ) → is_pending fs a ≡ mark (is_pending (adds p ∷ fs)) p false a
    same a = elim (ℕ_discrete p a) [
      | yes m ↦ ground (arith, s.distinct.0, ap (is_pending fs) m)
      | no ne ↦ ground arith
    ]
drain_one-Continues (cancels id ∷ fs) q s =
    let (q', r, c) = cancel_in_loop_lem (is_pending fs) q id s.owned in
    inl (
      record { queue = q'; pending = fs },
      rw r refl,
      record { owned = c.owned; distinct = s.distinct; armed = c.armed s.armed },
    )

module _ (alloc : (ℕ → Option Timer) → Option ℕ) (body : ℕ → TimerQueue → List Action)
    (is_fresh : AllocIsFresh alloc) where
  of_Succeeds :
      (w : World) (r : Result TimerQueue)
      → IsSound w
      → Succeeds (is_pending w.pending) w.queue r
      → Continues (r >>= λ q. ok (record w { queue = q }))
  of_Succeeds w r s (inr e) = inr (rw e refl)
  of_Succeeds w r s (inl (q', e, k)) = inl (
    record w { queue = q' },
    rw e refl,
    record { owned = k.owned; distinct = s.distinct; armed = k.armed s.armed },
  )

  add_from-Continues :
      (cb when : ℕ) (v : ℤ) (w : World)
      → IsSound w
      → Continues (step alloc body (add_from cb when v) w)
  unfolding step new_timer
  add_from-Continues cb when v w s = go (alloc w.queue.heap) refl
    where
      go :
          (o : Option ℕ)
          → alloc w.queue.heap ≡ o
          → Continues (step alloc body (add_from cb when v) w)
      go none e = inr (rw (e, step, new_timer) refl)
      go (some p) e =
          let (h, k) = is_fresh w.queue.heap p e in
          let t = Timer.new cb when v w.queue.num_created in
          let out = free-not_detached (is_pending w.pending) w.queue p s.owned h in
          inl (
            record { queue = created p t w.queue; pending = w.pending ++ (adds p ∷ []) },
            rw (e, step, new_timer) refl,
            record {
              owned =
                  IsOwned-cong (mark (is_pending w.pending) p true) _ _
                    (is_pending-append w.pending p)
                    (created-IsOwned (is_pending w.pending) w.queue p t s.owned h k
                      (omega (arith, sequence-new cb when v w.queue.num_created)));
              distinct = append-AreDistinct w.pending p out s.distinct;
              armed = s.armed;
            },
          )

  -- Every event keeps the world sound, or memory runs out.
  pub step-Continues : (e : Event) (w : World) → IsSound w → Continues (step alloc body e w)
  unfolding step
  step-Continues (add_from cb when v) w s = add_from-Continues cb when v w s
  step-Continues (cancel_from id) w s = inl (
    record w { pending = w.pending ++ (cancels id ∷ []) },
    refl,
    record {
      owned =
          IsOwned-cong (is_pending w.pending) _ w.queue (is_pending-append_cancels w.pending id)
            s.owned;
      distinct = append_cancels-AreDistinct w.pending id s.distinct;
      armed = s.armed;
    },
  )
  step-Continues (call a) w s =
      of_Succeeds w _ s (act-Succeeds alloc body is_fresh (is_pending w.pending) a w.queue s.owned)
  step-Continues drain w s = drain_one-Continues w.pending w.queue s
  step-Continues (fire now) w s =
      go (handle_read-Handles alloc body is_fresh (is_pending w.pending) now w.queue s.owned)
    where
      go :
          ((q' : TimerQueue) × (handle_read alloc body now w.queue ≡ ok q')
              × Handles (is_pending w.pending) now w.queue q')
            ⊎ (handle_read alloc body now w.queue ≡ err bad_alloc)
          → Continues (step alloc body (fire now) w)
      go (inr e) = inr (rw (e, step) refl)
      go (inl (q', e, k)) = inl (
        record w { queue = q' },
        rw (e, step) refl,
        record { owned = k.owned; distinct = s.distinct; armed = k.armed },
      )

  -- Any history of calls from any threads, of functors run by the loop and of expirations, without
  -- what `addTimer` on another thread reads after it has queued its functor, goes through from a
  -- sound world, and so from the start, unless memory runs out: no assertion of the timer queue
  -- fails, no deleted timer is read, none is leaked or in the sets twice, and the descriptor is armed
  -- for the first timer.
  pub run-Continues : (es : List Event) (w : World) → IsSound w → Continues (run alloc body es w)
  unfolding run
  run-Continues [] w s = inl (w, refl, s)
  run-Continues (e ∷ es) w s = go (step-Continues e w s) (λ w' s'. run-Continues es w' s')
    where
      go :
          Continues (step alloc body e w)
          → ((w' : World) → IsSound w' → Continues (run alloc body es w'))
          → Continues (run alloc body (e ∷ es) w)
      go (inl (w', r, s')) f = rw r (f w' s')
      go (inr r) f = inr (rw r refl)
