-- ===== src/TimerQueue/Fire.antt =====
-- The callbacks that `handleRead` runs. `operator new` returns an
-- address below the largest at which no timer is allocated, or fails.
use native.Mathlib.Decide.{ℕ_discrete}
use hvnetpp.Prelude.{
  ℕ, ◌+◌, ◌<◌, ◌≡◌, refl, ◌∙◌, ap, subst, ◌⊎◌, inl, inr, Bool, true, false, List, [], ◌∷◌, Option,
  none, some, ok, err, bad_alloc, Result, arith, ◌>>=◌,
}
use hvnetpp.PairSet.{Key}
use hvnetpp.Timer
use hvnetpp.Timer.{Timer, TimerId, restart}
use hvnetpp.Timer.Restart.{sequence-new}
use hvnetpp.TimerQueue.{
  TimerQueue, update, deref, uintptr_max, Action, add, cancel, new_timer, act, act_all, run_all,
}
use hvnetpp.TimerQueue.Owned.{Slot, IsOwned, IsOwned-cong, mark}
use hvnetpp.TimerQueue.Change.{attached, created, created-IsOwned, attached-IsOwned}
use hvnetpp.TimerQueue.Ops.{
  IsArmed, added, add_timer_in_loop-eq, insert-IsArmed, other-IsOwned, unmark,
}
use hvnetpp.TimerQueue.Cancel.{cancel_in_loop_lem}
use hvnetpp.TimerQueue.Expire.{with_held}
use hvnetpp.TimerQueue.Reset.{detached_timer}

-- What calls on the loop's thread leave as it is: the invariant, the detached timers, and the
-- descriptor armed for the first timer.
pub record Keeps (d : ℕ → Bool) (q q' : TimerQueue) : Type 0 where
  pub owned : IsOwned d q'
  pub kept : (p : ℕ) → d p ≡ true → q'.heap p ≡ q.heap p
  pub armed : IsArmed q.timers q.armed → IsArmed q'.timers q'.armed

-- The call succeeds, or memory ran out.
abbrev pub Succeeds : (ℕ → Bool) → TimerQueue → Result TimerQueue → Type 0
Succeeds d q r = ((q' : TimerQueue) × (r ≡ ok q') × Keeps d q q') ⊎ (r ≡ err bad_alloc)

Keeps-trans : (d : ℕ → Bool) (q q' q'' : TimerQueue) → Keeps d q q' → Keeps d q' q'' → Keeps d q q''
Keeps-trans d q q' q'' k l = record {
  owned = l.owned;
  kept = λ p h. l.kept p h ∙ k.kept p h;
  armed = λ a. l.armed (k.armed a);
}

abbrev pub AllocIsFresh : ((ℕ → Option Timer) → Option ℕ) → Type 0
AllocIsFresh alloc =
    (heap : ℕ → Option Timer) (p : ℕ) → alloc heap ≡ some p → (heap p ≡ none) × (p < uintptr_max)

-- A free address belongs to no detached timer.
pub free-not_detached :
    (d : ℕ → Bool) (q : TimerQueue) (p : ℕ) → IsOwned d q → q.heap p ≡ none → d p ≡ false
free-not_detached d q p i e =
    (subst (λ o. Slot q.timers q.active_timers q.num_created (d p) p o) e (i.slot p)).2

Succeeds->>= :
    (d : ℕ → Bool) (q : TimerQueue) (r : Result TimerQueue) (f : TimerQueue → Result TimerQueue)
    → Succeeds d q r
    → ((q' : TimerQueue) → Keeps d q q' → Succeeds d q' (f q'))
    → Succeeds d q (r >>= f)
Succeeds->>= d q r f (inr e) g = inr (rw e refl)
Succeeds->>= d q r f (inl (q', e, k)) g = rw e (after (g q' k))
  where
    after : Succeeds d q' (f q') → Succeeds d q (f q')
    after (inl (q'', e', k')) = inl (q'', e', Keeps-trans d q q' q'' k k')
    after (inr e') = inr e'

-- All timers of the list are detached.
abbrev pub AreHeld : (ℕ → Bool) → List Key → Type 0
AreHeld d [] = Unit {0}
AreHeld d (e ∷ es) = (d e.1 ≡ true) × AreHeld d es

AreHeld-mono :
    (d d' : ℕ → Bool) (es : List Key)
    → ((p : ℕ) → d p ≡ true → d' p ≡ true)
    → AreHeld d es
    → AreHeld d' es
AreHeld-mono d d' [] f h = tt
AreHeld-mono d d' (e ∷ es) f h = (f e.1 h.0, AreHeld-mono d d' es f h.1)

pub with_held-AreHeld : (es : List Key) (d : ℕ → Bool) → AreHeld (with_held es d) es
with_held-AreHeld [] d = tt
with_held-AreHeld (e ∷ es) d = (
  ground arith,
  AreHeld-mono (with_held es d) (with_held (e ∷ es) d) es (λ p h. ground arith)
      (with_held-AreHeld es d),
)

-- A new timer that is added at once.
pub new_added :
    (d : ℕ → Bool) (t : Timer) (q : TimerQueue) (p : ℕ)
    → IsOwned d q
    → q.heap p ≡ none
    → p < uintptr_max
    → t.sequence ≡ q.num_created + 1
    → Keeps d q (added p t (created p t q))
new_added d t q p i e h k =
    let here : update q.heap p (some t) p ≡ some t = ground arith in
    let out = free-not_detached d q p i e in
    let j = created-IsOwned d q p t i e h (omega arith) in
    record {
      owned = other-IsOwned d (attached p t (created p t q)) _ _ _ (
          IsOwned-cong (mark (mark d p true) p false) d _ (unmark d p out)
            (attached-IsOwned (mark d p true) (created p t q) p t j here (ground arith)));
      kept = λ a o. elim (ℕ_discrete p a) [ yes m ↦ cc (ap d m) | no ne ↦ ground arith ];
      armed = insert-IsArmed t.expiration p q.timers q.armed;
    }

module _ (alloc : (ℕ → Option Timer) → Option ℕ) (body : ℕ → TimerQueue → List Action)
    (is_fresh : AllocIsFresh alloc) where
  -- A call of a callback succeeds, or memory ran out.
  pub act-Succeeds :
      (d : ℕ → Bool) (a : Action) (q : TimerQueue) → IsOwned d q → Succeeds d q (act alloc body a q)
  unfolding act new_timer
  act-Succeeds d (add cb w v) q i = go (alloc q.heap) refl
    where
      go : (o : Option ℕ) → alloc q.heap ≡ o → Succeeds d q (act alloc body (add cb w v) q)
      go none e = inr (rw (e, act, new_timer))
      go (some p) e =
          let (h, k) = is_fresh q.heap p e in
          let t = Timer.new cb w v q.num_created in
          let s = sequence-new cb w v q.num_created in
          let here : update q.heap p (some t) p ≡ some t = ground arith in
          let j = created-IsOwned d q p t i h k (omega (arith, s)) in
          inl (
            added p t (created p t q),
            rw (e, act, new_timer)
                (add_timer_in_loop-eq (mark d p true) (created p t q) p t j here (ground arith)),
            new_added d t q p i h k s,
          )
  act-Succeeds d (cancel id) q i =
      let (q', r, c) = cancel_in_loop_lem d q id i in
      inl (q', r, record { owned = c.owned; kept = c.kept; armed = c.armed })

  pub act_all-Succeeds :
      (d : ℕ → Bool) (as' : List Action) (q : TimerQueue)
      → IsOwned d q
      → Succeeds d q (act_all alloc body as' q)
  unfolding act_all
  act_all-Succeeds d [] q i =
      inl (q, refl, record { owned = i; kept = λ p h. refl; armed = λ a. a })
  act_all-Succeeds d (a ∷ as') q i =
      Succeeds->>= d q (act alloc body a q) _ (act-Succeeds d a q i)
        (λ q' k. act_all-Succeeds d as' q' k.owned)

  pub run_all-Succeeds :
      (d : ℕ → Bool) (es : List Key) (q : TimerQueue)
      → IsOwned d q
      → AreHeld d es
      → Succeeds d q (run_all alloc body es q)
  unfolding run_all
  run_all-Succeeds d [] q i h =
      inl (q, refl, record { owned = i; kept = λ p h. refl; armed = λ a. a })
  run_all-Succeeds d (e ∷ es) q i h =
      let (t, l) = detached_timer d q e.1 i h.0 in
      let first : deref e.1 q ≡ ok t = ground (arith, l) in
      rw first (
        Succeeds->>= d q (act_all alloc body (body t.callback q) q) _
          (act_all-Succeeds d (body t.callback q) q i)
          (λ q' k. run_all-Succeeds d es q' k.owned h.1))
