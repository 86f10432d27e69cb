-- ===== src/TimerQueue/Handle.antt =====
-- `handleRead` as a whole.
use hvnetpp.Prelude.{
  ℕ, ◌≤◌, ◌≡◌, refl, ◌∙◌, ap, ◌⊎◌, inl, inr, Bool, true, false, List, [], ◌∷◌, Option, none, some,
  ok, err, bad_alloc, arith,
}
use hvnetpp.PairSet.{Key, contains}
use hvnetpp.Timer.{Timer, restart}
use hvnetpp.TimerQueue.{TimerQueue, Action, run_all, handle_read, get_expired}
use hvnetpp.TimerQueue.Owned.{IsOwned}
use hvnetpp.TimerQueue.Ops.{IsArmed, other-IsOwned}
use hvnetpp.TimerQueue.Expire.{holds, with_held, AreFresh, Expires, get_expired_lem}
use hvnetpp.TimerQueue.Reset.{renewed, Resets, reset_lem}
use hvnetpp.TimerQueue.Fire.{Keeps, Succeeds, AllocIsFresh, run_all-Succeeds, with_held-AreHeld}

-- What `handleRead` makes of a timer that was due.
abbrev pub Fired : ℕ → Timer → Option Timer → Type 0
Fired now t o =
    ((t.repeat ≡ false) × (o ≡ none))
    ⊎ ((t.repeat ≡ true) × ((o ≡ none) ⊎ (o ≡ some (restart now t))))

pub record Handles (d : ℕ → Bool) (now : ℕ) (q q' : TimerQueue) : Type 0 where
  pub owned : IsOwned d q'
  pub armed : IsArmed q'.timers q'.armed
  pub kept : (p : ℕ) → d p ≡ true → q'.heap p ≡ q.heap p
  pub fired :
      (e : Key) (t : Timer)
      → contains e q.timers ≡ true
      → e.0 ≤ now
      → q.heap e.1 ≡ some t
      → Fired now t (q'.heap e.1)

pub contains-holds : (e : Key) (es : List Key) → contains e es ≡ true → holds e.1 es ≡ true
unfolding contains
contains-holds e [] h = cc
contains-holds e (x ∷ es) h = ground (arith, contains-holds e es)

pub AreFresh-not_held :
    (d : ℕ → Bool) (p : ℕ) (es : List Key) → AreFresh d es → d p ≡ true → holds p es ≡ false
AreFresh-not_held d p [] f h = refl
AreFresh-not_held d p (e ∷ es) f h = ground (arith, ap d, AreFresh-not_held d p es f.2 h)

renewed-Fired : (now p : ℕ) (ks : List Key) (t : Timer) → Fired now t (renewed now p ks (some t))
renewed-Fired now p ks t = ground arith

module _ (alloc : (ℕ → Option Timer) → Option ℕ) (body : ℕ → TimerQueue → List Action)
    (is_fresh : AllocIsFresh alloc) where
  -- `handleRead(now)` on a queue with the invariant succeeds, unless a callback runs out of memory:
  -- no assertion fails and no deleted timer is read, whatever the callbacks add and cancel. The
  -- invariant holds again, the descriptor is armed for the first timer, and the timers held
  -- elsewhere are untouched. Of the timers that were due, one that does not repeat is deleted, and
  -- one that repeats is deleted or restarted.
  pub handle_read-Handles :
      (d : ℕ → Bool) (now : ℕ) (q : TimerQueue)
      → IsOwned d q
      → ((q' : TimerQueue) × (handle_read alloc body now q ≡ ok q') × Handles d now q q')
        ⊎ (handle_read alloc body now q ≡ err bad_alloc)
  unfolding handle_read
  handle_read-Handles d now q i =
      let (expired, q₁, r₁, x) = get_expired_lem d q now i in
      ran expired q₁ r₁ x (
        run_all-Succeeds alloc body is_fresh (with_held expired d) expired (calling q₁)
          (other-IsOwned (with_held expired d) q₁ _ _ _ x.owned) (with_held-AreHeld expired d))
    where
      calling : TimerQueue → TimerQueue
      calling q₁ = record q₁ { calling_expired_timers = true; canceling_timers = [] }

      called : TimerQueue → TimerQueue
      called q₂ = record q₂ { calling_expired_timers = false }

      done :
          (expired : List Key) (q₁ q₂ q₃ : TimerQueue)
          → Expires d now expired q q₁
          → Keeps (with_held expired d) (calling q₁) q₂
          → Resets d now expired (called q₂) q₃
          → IsArmed q₃.timers q₃.armed
          → Handles d now q q₃
      done expired q₁ q₂ q₃ x k s a = record {
        owned = s.owned;
        armed = a;
        kept = λ p h.
            s.heap p
            ∙ (rw (AreFresh-not_held d p expired x.fresh h)
                (k.kept p (ground arith) ∙ ap (λ g. g p) x.heap));
        fired = λ e t c l m.
            let due : contains e expired ≡ true = ground (arith, x.due e) in
            let held = contains-holds e expired due in
            let same : q₂.heap e.1 ≡ some t =
              k.kept e.1 (ground arith) ∙ ap (λ g. g e.1) x.heap ∙ m in
            let final : q₃.heap e.1 ≡ renewed now e.1 q₂.canceling_timers (some t) =
              s.heap e.1 ∙ (rw (held, same) refl) in
            rw final (renewed-Fired now e.1 q₂.canceling_timers t);
      }

      ran :
          (expired : List Key) (q₁ : TimerQueue)
          → get_expired now q ≡ ok (expired, q₁)
          → Expires d now expired q q₁
          → Succeeds (with_held expired d) (calling q₁) (run_all alloc body expired (calling q₁))
          → ((q' : TimerQueue) × (handle_read alloc body now q ≡ ok q') × Handles d now q q')
            ⊎ (handle_read alloc body now q ≡ err bad_alloc)
      ran expired q₁ r₁ x (inr e) = inr (rw (r₁, handle_read, e) refl)
      ran expired q₁ r₁ x (inl (q₂, r₂, k)) =
          let (q₃, r₃, s, a) =
            reset_lem now expired d (called q₂)
              (other-IsOwned (with_held expired d) q₂ _ _ _ k.owned) x.fresh in
          inl (q₃, rw (r₁, handle_read, r₂) r₃, done expired q₁ q₂ q₃ x k s a)
