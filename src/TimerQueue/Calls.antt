-- ===== src/TimerQueue/Calls.antt =====
-- `handleRead` call by call: what its callbacks ask of the queue, and what becomes of the timers
-- that were due.
pub mod Outcome
use native.Mathlib.Decide.{ℕ_discrete}
use hvnetpp.Prelude.{
  ℕ, ◌≤◌, ◌≡◌, refl, ◌∙◌, sym, ap, subst, ◌⊎◌, inl, inr, Bool, true, false, List, [], ◌∷◌, ◌++◌,
  Option, none, some, ok, err, bad_alloc, Result, ◌==◌, ◌&&◌, ◌||◌, not, leb, if◌then◌else◌, arith,
  ◌>>=◌,
}
use hvnetpp.PairSet.{Key, contains, insert}
use hvnetpp.PairSet.Order.{IsSorted}
use hvnetpp.PairSet.Laws.{contains-insert}
use hvnetpp.Timer
use hvnetpp.Timer.{Timer, TimerId, restart}
use hvnetpp.Timer.Restart.{sequence-new}
use hvnetpp.TimerQueue.{
  TimerQueue, update, deref, Action, add, cancel, new_timer, act, act_all, run_all, handle_read,
  get_expired,
}
use hvnetpp.TimerQueue.Owned.{IsOwned, mark}
use hvnetpp.TimerQueue.Change.{created, created-IsOwned}
use hvnetpp.TimerQueue.Ops.{IsArmed, added, add_timer_in_loop-eq, other-IsOwned}
use hvnetpp.TimerQueue.Cancel.{Deleted, Ignored, Cancels, cancel_in_loop_lem}
use hvnetpp.TimerQueue.Expire.{holds, with_held, Expires, get_expired_lem}
use hvnetpp.TimerQueue.Reset.{detached_timer, Resets, reset_lem}
use hvnetpp.TimerQueue.Fire.{
  Keeps, Succeeds, AllocIsFresh, AreHeld, act-Succeeds, act_all-Succeeds, run_all-Succeeds,
  with_held-AreHeld,
}
use hvnetpp.TimerQueue.Handle.{contains-holds, AreFresh-not_held}

-- One of the calls cancels the timer `p` with the sequence number `s`.
abbrev pub is_cancelled : List Action → ℕ → ℕ → Bool
is_cancelled [] p s = false
is_cancelled (add cb w v ∷ as') p s = is_cancelled as' p s
is_cancelled (cancel id ∷ as') p s = (id.timer == p && id.sequence == s) || is_cancelled as' p s

is_cancelled-append :
    (as' bs : List Action) (p s : ℕ)
    → is_cancelled (as' ++ bs) p s ≡ (is_cancelled as' p s || is_cancelled bs p s)
is_cancelled-append [] bs p s = refl
is_cancelled-append (add cb w v ∷ as') bs p s = is_cancelled-append as' bs p s
is_cancelled-append (cancel id ∷ as') bs p s = ground (arith, is_cancelled-append as' bs p s)

-- Calls made while `handleRead` runs callbacks: of the timers that are detached, they note exactly
-- those that they cancel.
pub record Noted (d : ℕ → Bool) (as' : List Action) (q q' : TimerQueue) : Type 0 where
  pub calling : q'.calling_expired_timers ≡ true
  pub noted :
      (p s : ℕ)
      → d p ≡ true
      → contains (p, s) q'.canceling_timers
        ≡ (is_cancelled as' p s || contains (p, s) q.canceling_timers)

cancel-Noted :
    (d : ℕ → Bool) (id : TimerId) (q q' : TimerQueue)
    → IsOwned d q
    → q.calling_expired_timers ≡ true
    → Cancels d id q q'
    → Noted d (cancel id ∷ []) q q'
cancel-Noted d id q q' i c x = record {
  calling = x.calling ∙ c;
  noted = λ p s h. at p s h x.outcome;
}
  where
    at :
        (p s : ℕ)
        → d p ≡ true
        → ((t : Timer) × Deleted id q q' t) ⊎ Ignored id q q'
        → contains (p, s) q'.canceling_timers
          ≡ (is_cancelled (cancel id ∷ []) p s || contains (p, s) q.canceling_timers)
    at p s h (inl (t, y)) = elim (ℕ_discrete id.timer p) [
      | yes m ↦
          let kept : q'.heap id.timer ≡ some t = x.kept id.timer (ap d m ∙ h) ∙ y.named in
          let gone : q'.heap id.timer ≡ none = ap (λ g. g id.timer) y.heap ∙ ground arith in
          cc (kept, gone)
      | no ne ↦ rw y.canceling (ground arith)
    ]
    at p s h (inr y) =
        rw (y.canceling, c)
          (contains-insert (id.timer, id.sequence) (p, s) q.canceling_timers ∙ ground arith)

Noted-trans :
    (d : ℕ → Bool) (as' bs : List Action) (q q' q'' : TimerQueue)
    → Noted d as' q q'
    → Noted d bs q' q''
    → Noted d (as' ++ bs) q q''
Noted-trans d as' bs q q' q'' k l = record {
  calling = l.calling;
  noted = λ p s h. ground (arith, k.noted p s h, l.noted p s h, is_cancelled-append as' bs p s);
}

Noted-none : (d : ℕ → Bool) (q : TimerQueue) → q.calling_expired_timers ≡ true → Noted d [] q q
Noted-none d q c = record { calling = c; noted = λ p s h. refl }

module _ (alloc : (ℕ → Option Timer) → Option ℕ) (body : ℕ → TimerQueue → List Action) where
  -- The callbacks of the timers behind the entries are run one after the other: each one makes the
  -- calls that its body asks for, on the queue that the one before has left.
  pub data Ran : List Key → TimerQueue → TimerQueue → List Action → Type 0 where
    none_left : (q : TimerQueue) → Ran [] q q []
    runs :
        (e : Key) (es : List Key) (t : Timer) (q q₁ q₂ : TimerQueue) (as' : List Action)
        → q.heap e.1 ≡ some t
        → act_all alloc body (body t.callback q) q ≡ ok q₁
        → Ran es q₁ q₂ as'
        → Ran (e ∷ es) q q₂ (body t.callback q ++ as')

module _ (alloc : (ℕ → Option Timer) → Option ℕ) (body : ℕ → TimerQueue → List Action)
    (is_fresh : AllocIsFresh alloc) where
  act-Noted :
      (d : ℕ → Bool) (a : Action) (q q' : TimerQueue)
      → IsOwned d q
      → q.calling_expired_timers ≡ true
      → act alloc body a q ≡ ok q'
      → Noted d (a ∷ []) q q'
  unfolding act new_timer
  act-Noted d (add cb w v) q q' i c r = go (alloc q.heap) refl
    where
      go : (o : Option ℕ) → alloc q.heap ≡ o → Noted d (add cb w v ∷ []) q q'
      go none e = ground (arith, e, r)
      go (some p) e =
          let (h, k) = is_fresh q.heap p e in
          let t = Timer.new cb w v q.num_created in
          let here : update q.heap p (some t) p ≡ some t = ground arith in
          let j =
            created-IsOwned d q p t i h k (omega (arith, sequence-new cb w v q.num_created)) in
          let done : act alloc body (add cb w v) q ≡ ok (added p t (created p t q)) =
            rw (e, act, new_timer)
              (add_timer_in_loop-eq (mark d p true) (created p t q) p t j here (ground arith)) in
          let same : added p t (created p t q) ≡ q' = cc (done, r) in
          subst (λ q'. Noted d (add cb w v ∷ []) q q') same
            (record { calling = c; noted = λ a s h. refl })
  act-Noted d (cancel id) q q' i c r =
      let (q'', e, x) = cancel_in_loop_lem d q id i in
      let same : q'' ≡ q' = cc (e, r) in
      subst (λ q'. Noted d (cancel id ∷ []) q q') same (cancel-Noted d id q q'' i c x)

  act_all-Noted :
      (d : ℕ → Bool) (as' : List Action) (q q' : TimerQueue)
      → IsOwned d q
      → q.calling_expired_timers ≡ true
      → act_all alloc body as' q ≡ ok q'
      → Noted d as' q q'
  unfolding act_all
  act_all-Noted d [] q q' i c r =
      let same : q ≡ q' = cc r in subst (λ q'. Noted d [] q q') same (Noted-none d q c)
  act_all-Noted d (a ∷ as') q q' i c r =
      go (act-Succeeds alloc body is_fresh d a q i) (λ q₁. act_all-Noted d as' q₁ q')
    where
      go :
          Succeeds d q (act alloc body a q)
          → ((q₁ : TimerQueue)
              → IsOwned d q₁
              → q₁.calling_expired_timers ≡ true
              → act_all alloc body as' q₁ ≡ ok q'
              → Noted d as' q₁ q')
          → Noted d (a ∷ as') q q'
      go (inr e) f = cc (rw e at r)
      go (inl (q₁, e, k)) f =
          let first = act-Noted d a q q₁ i c e in
          Noted-trans d (a ∷ []) as' q q₁ q' first (f q₁ k.owned first.calling (rw e at r))

  pub run_all-Ran :
      (d : ℕ → Bool) (es : List Key) (q q' : TimerQueue)
      → IsOwned d q
      → AreHeld d es
      → q.calling_expired_timers ≡ true
      → run_all alloc body es q ≡ ok q'
      → (as' : List Action) × Ran alloc body es q q' as' × Noted d as' q q'
  unfolding run_all
  run_all-Ran d [] q q' i h c r =
      let same : q ≡ q' = cc r in
      subst (λ q'. (as' : List Action) × Ran alloc body [] q q' as' × Noted d as' q q') same
        ([], none_left q, Noted-none d q c)
  run_all-Ran d (e ∷ es) q q' i h c r =
      let (t, l) = detached_timer d q e.1 i h.0 in
      let first : deref e.1 q ≡ ok t = ground (arith, l) in
      go t l (rw first at r) (act_all-Succeeds alloc body is_fresh d (body t.callback q) q i)
        (λ q₁ o. run_all-Ran d es q₁ q' o h.1)
    where
      go :
          (t : Timer)
          → q.heap e.1 ≡ some t
          → (act_all alloc body (body t.callback q) q >>= λ q₁. run_all alloc body es q₁) ≡ ok q'
          → Succeeds d q (act_all alloc body (body t.callback q) q)
          → ((q₁ : TimerQueue)
              → IsOwned d q₁
              → q₁.calling_expired_timers ≡ true
              → run_all alloc body es q₁ ≡ ok q'
              → (as' : List Action) × Ran alloc body es q₁ q' as' × Noted d as' q₁ q')
          → (as' : List Action) × Ran alloc body (e ∷ es) q q' as' × Noted d as' q q'
      go t l r (inr f) g = cc (rw f at r)
      go t l r (inl (q₁, f, k)) g =
          let first = act_all-Noted d (body t.callback q) q q₁ i c f in
          let (as', ran, n) = g q₁ k.owned first.calling (rw f at r) in
          (
            body t.callback q ++ as',
            runs e es t q q₁ q' as' l f ran,
            Noted-trans d (body t.callback q) as' q q₁ q' first n,
          )
