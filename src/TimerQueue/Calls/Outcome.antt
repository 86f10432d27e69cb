-- ===== src/TimerQueue/Calls/Outcome.antt =====
-- The outcome of `handleRead`, timer by timer.
use hvnetpp.Prelude.{
  ℕ, ◌≡◌, refl, ◌∙◌, ap, ◌⊎◌, inl, inr, Bool, true, false, List, [], Option, none, some, ok, err,
  bad_alloc, ◌&&◌, not, leb, if◌then◌else◌, arith,
}
use hvnetpp.PairSet.{Key, contains}
use hvnetpp.PairSet.Order.{IsSorted}
use hvnetpp.Timer.{Timer, restart}
use hvnetpp.TimerQueue.{TimerQueue, Action, run_all, handle_read, get_expired}
use hvnetpp.TimerQueue.Owned.{IsOwned}
use hvnetpp.TimerQueue.Ops.{IsArmed, other-IsOwned}
use hvnetpp.TimerQueue.Expire.{holds, with_held, Expires, get_expired_lem}
use hvnetpp.TimerQueue.Reset.{Resets, reset_lem}
use hvnetpp.TimerQueue.Fire.{Keeps, Succeeds, AllocIsFresh, run_all-Succeeds, with_held-AreHeld}
use hvnetpp.TimerQueue.Handle.{contains-holds, AreFresh-not_held}
use hvnetpp.TimerQueue.Calls.{is_cancelled, Noted, Ran, run_all-Ran}

-- Where `handleRead` is about to run the callbacks of the entries `expired`: these are out of
-- `timers_`, no timer is deleted yet, and nothing is noted as cancelled.
pub record Starts (now : ℕ) (expired : List Key) (q q₁ : TimerQueue) : Type 0 where
  pub ordered : IsSorted expired
  pub due : (e : Key) → contains e expired ≡ (contains e q.timers && leb e.0 now)
  pub left : (e : Key) → contains e q₁.timers ≡ (contains e q.timers && not (leb e.0 now))
  pub heap : q₁.heap ≡ q.heap
  pub calling : q₁.calling_expired_timers ≡ true
  pub canceling : q₁.canceling_timers ≡ []

-- What `handleRead` leaves, where the callbacks ran from `q₁` to `q₂` and made the calls `as'`.
pub record Ends (d : ℕ → Bool) (now : ℕ) (expired : List Key) (as' : List Action)
    (q q₂ q' : TimerQueue) : Type 0 where
  pub owned : IsOwned d q'
  pub armed : IsArmed q'.timers q'.armed
  pub kept : (p : ℕ) → d p ≡ true → q'.heap p ≡ q.heap p
  pub calling : q'.calling_expired_timers ≡ false
  pub fired :
      (e : Key) (t : Timer)
      → contains e q.timers ≡ true
      → leb e.0 now ≡ true
      → q.heap e.1 ≡ some t
      → q'.heap e.1
        ≡ (if t.repeat && not (is_cancelled as' e.1 t.sequence) then some (restart now t) else none)
  pub others : (p : ℕ) → holds p expired ≡ false → q'.heap p ≡ q₂.heap p

module _ (alloc : (ℕ → Option Timer) → Option ℕ) (body : ℕ → TimerQueue → List Action) where
  pub record Outcome (d : ℕ → Bool) (now : ℕ) (q q' : TimerQueue) : Type 0 where
    pub expired : List Key
    pub calls : List Action
    pub before : TimerQueue
    pub after : TimerQueue
    pub starts : Starts now expired q before
    pub ran : Ran alloc body expired before after calls
    pub ends : Ends d now expired calls q after q'

module _ (alloc : (ℕ → Option Timer) → Option ℕ) (body : ℕ → TimerQueue → List Action)
    (is_fresh : AllocIsFresh alloc) where
  -- `handleRead(now)` on a queue with the invariant either fails with `std::bad_alloc` or ends, and
  -- then: it ran the callbacks of exactly the timers that expire at `now` or before, in the order of
  -- expiration, each one on the queue as the one before left it; of these timers, one that repeats
  -- and that no call of the callbacks cancelled is restarted, and each other one is deleted; every
  -- other timer is as the callbacks left it; timers held elsewhere are untouched; the invariant
  -- holds, and the descriptor is armed for the first timer.
  pub handle_read-Outcome :
      (d : ℕ → Bool) (now : ℕ) (q : TimerQueue)
      → IsOwned d q
      → ((q' : TimerQueue) × (handle_read alloc body now q ≡ ok q') × Outcome alloc body d now q q')
        ⊎ (handle_read alloc body now q ≡ err bad_alloc)
  unfolding handle_read contains
  handle_read-Outcome d now q i =
      let (expired, q₁, r₁, x) = get_expired_lem d q now i in
      ran expired q₁ r₁ x (other-IsOwned (with_held expired d) q₁ _ _ _ x.owned) (
        run_all-Succeeds alloc body is_fresh (with_held expired d) expired (calling q₁)
          (other-IsOwned (with_held expired d) q₁ _ _ _ x.owned) (with_held-AreHeld expired d))
    where
      calling : TimerQueue → TimerQueue
      calling q₁ = record q₁ { calling_expired_timers = true; canceling_timers = [] }

      called : TimerQueue → TimerQueue
      called q₂ = record q₂ { calling_expired_timers = false }

      ends :
          (expired : List Key) (as' : List Action) (q₁ q₂ q₃ : TimerQueue)
          → Expires d now expired q q₁
          → Keeps (with_held expired d) (calling q₁) q₂
          → Noted (with_held expired d) as' (calling q₁) q₂
          → Resets d now expired (called q₂) q₃
          → IsArmed q₃.timers q₃.armed
          → Ends d now expired as' q q₂ q₃
      ends expired as' q₁ q₂ q₃ x k n s a = record {
        owned = s.owned;
        armed = a;
        kept = λ p h.
            s.heap p
            ∙ (rw (AreFresh-not_held d p expired x.fresh h)
                (k.kept p (ground arith) ∙ ap (λ g. g p) x.heap));
        calling = s.calling;
        fired = λ e t c l m.
            let due : contains e expired ≡ true = ground (arith, x.due e) in
            let held = contains-holds e expired due in
            let detached : with_held expired d e.1 ≡ true = ground arith in
            let same : q₂.heap e.1 ≡ some t = k.kept e.1 detached ∙ ap (λ g. g e.1) x.heap ∙ m in
            let noted = n.noted e.1 t.sequence detached in
            s.heap e.1 ∙ (rw (held, same) (ground (arith, noted)));
        others = λ p h. s.heap p ∙ (rw h refl);
      }

      ran :
          (expired : List Key) (q₁ : TimerQueue)
          → get_expired now q ≡ ok (expired, q₁)
          → Expires d now expired q q₁
          → IsOwned (with_held expired d) (calling q₁)
          → Succeeds (with_held expired d) (calling q₁) (run_all alloc body expired (calling q₁))
          → ((q' : TimerQueue) × (handle_read alloc body now q ≡ ok q')
              × Outcome alloc body d now q q')
            ⊎ (handle_read alloc body now q ≡ err bad_alloc)
      ran expired q₁ r₁ x o (inr e) = inr (rw (r₁, handle_read, e) refl)
      ran expired q₁ r₁ x o (inl (q₂, r₂, k)) =
          let (q₃, r₃, s, a) =
            reset_lem now expired d (called q₂)
              (other-IsOwned (with_held expired d) q₂ _ _ _ k.owned) x.fresh in
          let (as', l, n) =
            run_all-Ran alloc body is_fresh (with_held expired d) expired (calling q₁) q₂ o
              (with_held-AreHeld expired d) refl r₂ in
          inl (
            q₃,
            rw (r₁, handle_read, r₂) r₃,
            record {
              expired = expired;
              calls = as';
              before = calling q₁;
              after = q₂;
              starts = record {
                ordered = x.ordered;
                due = x.due;
                left = x.kept;
                heap = x.heap;
                calling = refl;
                canceling = refl;
              };
              ran = l;
              ends = ends expired as' q₁ q₂ q₃ x k n s a;
            },
          )
