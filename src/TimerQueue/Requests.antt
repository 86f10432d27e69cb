-- ===== src/TimerQueue/Requests.antt =====
-- `EventLoop::runAt`, `runAfter` and `runEvery`, src/EventLoop.cpp, on the loop's thread: what they
-- ask of the timer queue, at the instant `now` of the clock. A sum before the clock's epoch is taken
-- as the epoch, which is past as well.
use hvnetpp.Prelude.{
  ℕ, suc, ◌+◌, ◌-◌, ◌≡◌, refl, ◌∙◌, ◌⊎◌, inl, inr, Bool, true, List, Option, none, some, ok, err,
  bad_alloc, leb, arith, ℤ, pos, negsuc,
}
use hvnetpp.PairSet.{Key, contains}
use hvnetpp.PairSet.Laws.{contains-insert}
use hvnetpp.Timer
use hvnetpp.Timer.{Timer, micros}
use hvnetpp.Timer.Restart.{sequence-new}
use hvnetpp.TimerQueue.{TimerQueue, Action, add, act, new_timer, get_expired, update}
use hvnetpp.TimerQueue.Owned.{IsOwned, mark}
use hvnetpp.TimerQueue.Change.{created, created-IsOwned}
use hvnetpp.TimerQueue.Ops.{added, add_timer_in_loop-eq}
use hvnetpp.TimerQueue.Expire.{get_expired_lem}
use hvnetpp.TimerQueue.Fire.{AllocIsFresh, new_added}

abbrev pub after : ℕ → ℤ → ℕ
after now (pos n) = now + micros n
after now (negsuc n) = now - micros (suc n)

unfoldable pub run_at : ℕ → ℕ → Action
run_at time cb = add cb time (pos 0)

unfoldable pub run_after : ℕ → ℤ → ℕ → Action
unfolding run_at
run_after now delay cb = run_at (after now delay) cb

unfoldable pub run_every : ℕ → ℤ → ℕ → Action
run_every now interval cb = add cb (after now interval) interval

module _ (alloc : (ℕ → Option Timer) → Option ℕ) (body : ℕ → TimerQueue → List Action)
    (is_fresh : AllocIsFresh alloc) where
  -- The timer is allocated at a free address, and `getExpired` returns it from `when` on.
  abbrev pub IsDue : ℕ → Action → TimerQueue → Type 0
  IsDue when a q =
      ((q' : TimerQueue) × (p : ℕ) × (act alloc body a q ≡ ok q')
        × (q.heap p ≡ none)
        × ((t : ℕ)
            → (expired : List Key) × (q'' : TimerQueue) × (get_expired t q' ≡ ok (expired, q''))
              × (contains (when, p) expired ≡ leb when t)))
      ⊎ (act alloc body a q ≡ err bad_alloc)

  add-IsDue :
      (d : ℕ → Bool) (q : TimerQueue) (cb when : ℕ) (v : ℤ)
      → IsOwned d q
      → IsDue when (add cb when v) q
  unfolding act new_timer Timer.new
  add-IsDue d q cb when v i = go (alloc q.heap) refl
    where
      go : (o : Option ℕ) → alloc q.heap ≡ o → IsDue when (add cb when v) q
      go none e = inr (rw (e, act, new_timer))
      go (some p) e =
          let (h, k) = is_fresh q.heap p e in
          let t = Timer.new cb when v q.num_created in
          let s = sequence-new cb when v q.num_created in
          let here : update q.heap p (some t) p ≡ some t = ground arith in
          let j = created-IsOwned d q p t i h k (omega (arith, s)) in
          let q' = added p t (created p t q) in
          inl (
            q',
            p,
            rw (e, act, new_timer)
                (add_timer_in_loop-eq (mark d p true) (created p t q) p t j here (ground arith)),
            h,
            λ now.
                let (expired, q'', r, x) =
                  get_expired_lem d q' now (new_added d t q p i h k s).owned in
                (
                  expired,
                  q'',
                  r,
                  x.due (when, p) ∙ ground (arith, contains-insert (when, p) (when, p) q.timers),
                ),
          )

  -- On a queue with the invariant, unless memory runs out: a timer of `runAt` is at a free address,
  -- and `getExpired` at `t` returns it exactly if `t` is not before the time asked for; for `runAfter`
  -- and `runEvery` this time lies by the delay, or the interval, after the call.
  pub requests_lem :
      (d : ℕ → Bool) (q : TimerQueue) (cb time now : ℕ) (v : ℤ)
      → IsOwned d q
      → IsDue time (run_at time cb) q
        × IsDue (after now v) (run_after now v cb) q
        × IsDue (after now v) (run_every now v cb) q
  unfolding run_at run_after run_every
  requests_lem d q cb time now v i = (
    add-IsDue d q cb time (pos 0) i,
    add-IsDue d q cb (after now v) (pos 0) i,
    add-IsDue d q cb (after now v) v i,
  )
