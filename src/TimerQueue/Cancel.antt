-- ===== src/TimerQueue/Cancel.antt =====
-- `cancelInLoop`: which timer it deletes, and what it leaves alone.
use hvnetpp.Prelude.{
  ℕ, ◌≡◌, ◌≢◌, refl, ap, subst, ◌∙◌, ◌⊎◌, inl, inr, Bool, true, false, List, Option, none, some, ok,
  if◌then◌else◌, arith,
}
use native.Mathlib.Decide.{ℕ_discrete}
use hvnetpp.PairSet.{Key, contains, insert, erase}
use hvnetpp.Timer.{Timer, TimerId}
use hvnetpp.TimerQueue.{TimerQueue, update, cancel_in_loop, cancel_active, starts_with}
use hvnetpp.TimerQueue.Owned.{IsOwned}
use hvnetpp.TimerQueue.Ops.{
  IsArmed, active_timer, removed, removed-IsOwned, cancel_active-eq, other-IsOwned,
  first_expiration, first-IsArmed, erase-IsArmed,
}

-- The timer that the id names is deleted, and is in neither set.
pub record Deleted (id : TimerId) (q q' : TimerQueue) (t : Timer) : Type 0 where
  pub named : q.heap id.timer ≡ some t
  pub sequence : t.sequence ≡ id.sequence
  pub heap : q'.heap ≡ update q.heap id.timer none
  pub timers : q'.timers ≡ erase (t.expiration, id.timer) q.timers
  pub active : q'.active_timers ≡ erase (id.timer, id.sequence) q.active_timers
  pub canceling : q'.canceling_timers ≡ q.canceling_timers

-- No active timer has the id. It is noted while `handleRead` runs the expired timers.
pub record Ignored (id : TimerId) (q q' : TimerQueue) : Type 0 where
  pub absent : contains (id.timer, id.sequence) q.active_timers ≡ false
  pub heap : q'.heap ≡ q.heap
  pub timers : q'.timers ≡ q.timers
  pub active : q'.active_timers ≡ q.active_timers
  pub canceling : q'.canceling_timers ≡ (
      if q.calling_expired_timers
      then insert (id.timer, id.sequence) q.canceling_timers
      else q.canceling_timers)

-- The result of `cancelInLoop` on a queue with the invariant.
pub record Cancels (d : ℕ → Bool) (id : TimerId) (q q' : TimerQueue) : Type 0 where
  pub owned : IsOwned d q'
  pub armed : IsArmed q.timers q.armed → IsArmed q'.timers q'.armed
  pub outcome : ((t : Timer) × Deleted id q q' t) ⊎ Ignored id q q'
  pub created : q'.num_created ≡ q.num_created
  pub calling : q'.calling_expired_timers ≡ q.calling_expired_timers
  pub kept : (p : ℕ) → d p ≡ true → q'.heap p ≡ q.heap p

cancel_active_lem :
    (d : ℕ → Bool) (q : TimerQueue) (id : TimerId) (t : Timer)
    → IsOwned d q
    → q.heap id.timer ≡ some t
    → t.sequence ≡ id.sequence
    → d id.timer ≡ false
    → (q' : TimerQueue) × (cancel_active id q ≡ ok q') × Cancels d id q q'
cancel_active_lem d q id t i e k h = go (starts_with id.timer q.timers) refl
  where
    j : IsOwned d (removed id.timer t q)
    j = removed-IsOwned d q id.timer t i e h

    deleted : (o : Option ℕ) → Deleted id q (record (removed id.timer t q) { armed = o }) t
    deleted o = record {
      named = e;
      sequence = k;
      heap = refl;
      timers = refl;
      active = ap (λ n. erase (id.timer, n) q.active_timers) k;
      canceling = refl;
    }

    kept : (p : ℕ) → d p ≡ true → update q.heap id.timer none p ≡ q.heap p
    kept p o = elim (ℕ_discrete id.timer p) [ yes m ↦ cc (ap d m) | no ne ↦ ground arith ]

    last : Bool → TimerQueue
    last b =
        if b
        then record (removed id.timer t q) {
          armed = first_expiration (removed id.timer t q).timers;
        }
        else removed id.timer t q

    result : cancel_active id q ≡ ok (last (starts_with id.timer q.timers))
    result =
        subst
          (λ n.
            cancel_active (record { timer = id.timer; sequence = n }) q
            ≡ ok (last (starts_with id.timer q.timers)))
          k (cancel_active-eq d q id.timer t i e h)

    go :
        (b : Bool)
        → starts_with id.timer q.timers ≡ b
        → (q' : TimerQueue) × (cancel_active id q ≡ ok q') × Cancels d id q q'
    go true s = (
      last true,
      result ∙ ap (λ b. ok (last b)) s,
      record {
        owned = other-IsOwned d (removed id.timer t q) _ _ _ j;
        armed = λ a. first-IsArmed (removed id.timer t q).timers;
        outcome = inl (t, deleted _);
        created = refl;
        calling = refl;
        kept = kept;
      },
    )
    go false s = (
      last false,
      result ∙ ap (λ b. ok (last b)) s,
      record {
        owned = j;
        armed = erase-IsArmed (t.expiration, id.timer) q.timers q.armed s;
        outcome = inl (t, deleted q.armed);
        created = refl;
        calling = refl;
        kept = kept;
      },
    )

-- On a queue with the invariant `cancelInLoop` succeeds and keeps the invariant, and the descriptor
-- armed for the first timer. Either the address holds an active timer with the id's sequence
-- number, and exactly that timer leaves both sets and is deleted; or no active timer has the id,
-- and the timers stay as they are, while the id is noted if `handleRead` is running callbacks.
pub cancel_in_loop_lem :
    (d : ℕ → Bool) (q : TimerQueue) (id : TimerId)
    → IsOwned d q
    → (q' : TimerQueue) × (cancel_in_loop id q ≡ ok q') × Cancels d id q q'
unfolding cancel_in_loop
cancel_in_loop_lem d q id i = go (contains (id.timer, id.sequence) q.active_timers) refl
  where
    noted : List Key
    noted =
        if q.calling_expired_timers
        then insert (id.timer, id.sequence) q.canceling_timers
        else q.canceling_timers

    go :
        (b : Bool)
        → contains (id.timer, id.sequence) q.active_timers ≡ b
        → (q' : TimerQueue) × (cancel_in_loop id q ≡ ok q') × Cancels d id q q'
    go true s =
        let (t, e, k, h) = active_timer d q id.timer id.sequence i s in
        let (q', r, c) = cancel_active_lem d q id t i e k h in
        (q', ground (arith, i.sizes, s, r), c)
    go false s = (
      record q { canceling_timers = noted },
      ground (arith, i.sizes, s),
      record {
        owned = other-IsOwned d q _ _ _ i;
        armed = λ a. a;
        outcome =
            inr
              (record { absent = s; heap = refl; timers = refl; active = refl; canceling = refl });
        created = refl;
        calling = refl;
        kept = λ p k. refl;
      },
    )

-- An id whose timer is gone does no harm: where its address now holds a timer with another sequence
-- number, `cancelInLoop` deletes nothing and both sets stay as they are.
pub cancel_in_loop_stale :
    (d : ℕ → Bool) (q : TimerQueue) (id : TimerId) (t : Timer)
    → IsOwned d q
    → q.heap id.timer ≡ some t
    → t.sequence ≢ id.sequence
    → (q' : TimerQueue) × (cancel_in_loop id q ≡ ok q') × Ignored id q q'
cancel_in_loop_stale d q id t i e ne = go (cancel_in_loop_lem d q id i)
  where
    go :
        (q' : TimerQueue) × (cancel_in_loop id q ≡ ok q') × Cancels d id q q'
        → (q' : TimerQueue) × (cancel_in_loop id q ≡ ok q') × Ignored id q q'
    go (q', r, c) = (q', r, pick c.outcome)
      where
        pick : ((t : Timer) × Deleted id q q' t) ⊎ Ignored id q q' → Ignored id q q'
        pick (inl (t', x)) = absurd (ne (cc (e, x.named, x.sequence)))
        pick (inr x) = x
