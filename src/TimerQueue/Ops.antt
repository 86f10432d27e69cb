-- ===== src/TimerQueue/Ops.antt =====
-- `insert`, `addTimerInLoop` and `cancelInLoop` on a queue that satisfies the invariant.
use hvnetpp.Prelude.{
  ℕ, ◌<◌, ◌≡◌, refl, sym, ap, subst, Bool, true, false, List, [], ◌∷◌, Option, none, some, ok,
  if◌then◌else◌, arith, ltb,
}
use native.Mathlib.Decide.{ℕ_discrete}
use hvnetpp.PairSet.{Key, key_eq, key_lt, contains, insert, erase}
use hvnetpp.PairSet.Laws.{contains-insert}
use hvnetpp.Timer.{Timer}
use hvnetpp.TimerQueue.{
  TimerQueue, free, insert_timer, add_timer_in_loop, cancel_active, rearm, is_earliest, starts_with,
}
use hvnetpp.TimerQueue.Owned.{Slot, IsOwned, IsOwned-cong, mark}
use hvnetpp.TimerQueue.Change.{
  attached, detached, attached-IsOwned, detached-IsOwned, freed-IsOwned, not_contained,
  is_contained,
}

-- The invariant says nothing of the descriptor, nor of a running `handleRead`.
pub other-IsOwned :
    (d : ℕ → Bool) (q : TimerQueue) (o : Option ℕ) (b : Bool) (ks : List Key)
    → IsOwned d q
    → IsOwned d (record q { armed = o; calling_expired_timers = b; canceling_timers = ks })
other-IsOwned d q o b ks i = record {
  sizes = i.sizes;
  timers_sorted = i.timers_sorted;
  active_sorted = i.active_sorted;
  slot = i.slot;
}

-- The timer behind an entry of `timers_`.
pub entry_timer :
    (d : ℕ → Bool) (q : TimerQueue) (e : Key)
    → IsOwned d q
    → contains e q.timers ≡ true
    → (t : Timer) × (q.heap e.1 ≡ some t) × (t.expiration ≡ e.0) × (d e.1 ≡ false)
entry_timer d q e i h = go (q.heap e.1) (i.slot e.1) refl
  where
    go :
        (o : Option Timer)
        → Slot q.timers q.active_timers q.num_created (d e.1) e.1 o
        → q.heap e.1 ≡ o
        → (t : Timer) × (q.heap e.1 ≡ some t) × (t.expiration ≡ e.0) × (d e.1 ≡ false)
    go none s l = cc (s.0 e.0, h)
    go (some t) s l = (t, l, ground (arith, s.0 e.0), ground (arith, s.0 e.0))

-- The timer behind an entry of `activeTimers_`.
pub active_timer :
    (d : ℕ → Bool) (q : TimerQueue) (p k : ℕ)
    → IsOwned d q
    → contains (p, k) q.active_timers ≡ true
    → (t : Timer) × (q.heap p ≡ some t) × (t.sequence ≡ k) × (d p ≡ false)
active_timer d q p k i h = go (q.heap p) (i.slot p) refl
  where
    go :
        (o : Option Timer)
        → Slot q.timers q.active_timers q.num_created (d p) p o
        → q.heap p ≡ o
        → (t : Timer) × (q.heap p ≡ some t) × (t.sequence ≡ k) × (d p ≡ false)
    go none s l = cc (s.1 k, h)
    go (some t) s l = (t, l, ground (arith, s.1 k), ground (arith, s.1 k))

-- The descriptor is armed for the first timer, where there is one. The clock's epoch stands for "no
-- expiration", so it is excepted.
abbrev pub IsArmed : List Key → Option ℕ → Type 0
IsArmed [] o = Unit {0}
IsArmed (e ∷ es) o = 0 < e.0 → o ≡ some e.0

abbrev pub first_expiration : List Key → Option ℕ
first_expiration [] = none
first_expiration (e ∷ es) = some e.0

-- `insert` cannot fail.
pub insert_timer-eq :
    (d : ℕ → Bool) (q : TimerQueue) (p : ℕ) (t : Timer)
    → IsOwned d q
    → q.heap p ≡ some t
    → d p ≡ true
    → insert_timer p q ≡ ok (is_earliest t.expiration q.timers, attached p t q)
unfolding insert_timer
insert_timer-eq d q p t i e h =
    let absent = not_contained d q p t i e h in
    let j = attached-IsOwned d q p t i e h in ground (arith, e, i.sizes, absent, j.sizes)

abbrev pub added : ℕ → Timer → TimerQueue → TimerQueue
added p t q = record (attached p t q) {
  armed = if is_earliest t.expiration q.timers then some t.expiration else q.armed;
}

pub add_timer_in_loop-eq :
    (d : ℕ → Bool) (q : TimerQueue) (p : ℕ) (t : Timer)
    → IsOwned d q
    → q.heap p ≡ some t
    → d p ≡ true
    → add_timer_in_loop p q ≡ ok (added p t q)
unfolding add_timer_in_loop
add_timer_in_loop-eq d q p t i e h = rw (insert_timer-eq d q p t i e h) (ground (arith, e))

-- The three ways in which `insert` treats the first element.
choose-IsArmed :
    (w p : ℕ) (e : Key) (es rest : List Key) (o : Option ℕ) (earlier first after : Bool)
    → (earlier ≡ true → first ≡ true)
    → (earlier ≡ false → first ≡ true → w ≡ e.0)
    → IsArmed (e ∷ es) o
    → IsArmed
        (if first then (w, p) ∷ e ∷ es else if after then e ∷ rest else e ∷ es)
        (if earlier then some w else o)
choose-IsArmed w p e es rest o true true after f g a = λ h. refl
choose-IsArmed w p e es rest o true false after f g a = cc (f refl)
choose-IsArmed w p e es rest o false true after f g a =
    λ h. let k : w ≡ e.0 = g refl refl in rw k (a (rw k at h))
choose-IsArmed w p e es rest o false false true f g a = a
choose-IsArmed w p e es rest o false false false f g a = a

pub insert-IsArmed :
    (w p : ℕ) (es : List Key) (o : Option ℕ)
    → IsArmed es o
    → IsArmed (insert (w, p) es) (if is_earliest w es then some w else o)
unfolding insert
insert-IsArmed w p [] o a = λ h. refl
insert-IsArmed w p (e ∷ es) o a =
    choose-IsArmed w p e es (insert (w, p) es) o (ltb w e.0) (key_lt (w, p) e) (key_lt e (w, p))
      (λ h. ground arith) (λ h k. ground arith) a

pub erase-IsArmed :
    (x : Key) (es : List Key) (o : Option ℕ)
    → starts_with x.1 es ≡ false
    → IsArmed es o
    → IsArmed (erase x es) o
unfolding erase
erase-IsArmed x [] o h a = tt
erase-IsArmed x (e ∷ es) o h a =
    let k : key_eq e x ≡ false = ground arith in
    subst (λ b. IsArmed (if b then erase x es else e ∷ erase x es) o) (sym k) a

-- `addTimerInLoop` of a timer that is detached succeeds. The timer is then in both sets, the
-- invariant holds, and the descriptor is armed for the first timer if it was before.
pub add_timer_in_loop_lem :
    (d : ℕ → Bool) (q : TimerQueue) (p : ℕ) (t : Timer)
    → IsOwned d q
    → q.heap p ≡ some t
    → d p ≡ true
    → (q' : TimerQueue) × (add_timer_in_loop p q ≡ ok q')
      × IsOwned (mark d p false) q'
      × (contains (t.expiration, p) q'.timers ≡ true)
      × (IsArmed q.timers q.armed → IsArmed q'.timers q'.armed)
add_timer_in_loop_lem d q p t i e h = (
  added p t q,
  add_timer_in_loop-eq d q p t i e h,
  other-IsOwned (mark d p false) (attached p t q) _ _ _ (attached-IsOwned d q p t i e h),
  ground (arith, contains-insert (t.expiration, p) (t.expiration, p) q.timers),
  insert-IsArmed t.expiration p q.timers q.armed,
)

pub first_contained : (e : Key) (es : List Key) → contains e (e ∷ es) ≡ true
unfolding contains
first_contained e es = ground arith

rearm-eq :
    (d : ℕ → Bool) (q : TimerQueue) (es : List Key)
    → IsOwned d q
    → q.timers ≡ es
    → rearm es q ≡ ok (record q { armed = first_expiration es })
unfolding rearm
rearm-eq d q [] i h = refl
rearm-eq d q (e ∷ es) i h =
    let (t, l, k, n) = entry_timer d q e i (rw h (first_contained e es)) in ground (arith, l, k)

pub first-IsArmed : (es : List Key) → IsArmed es (first_expiration es)
first-IsArmed [] = tt
first-IsArmed (e ∷ es) = λ h. refl

-- Marking an address and taking the mark back.
pub unmark : (d : ℕ → Bool) (p : ℕ) → d p ≡ false → (a : ℕ) → d a ≡ mark (mark d p true) p false a
unmark d p h a = elim (ℕ_discrete p a) [ yes m ↦ ground (arith, ap d m) | no ne ↦ ground arith ]

-- The queue without the timer at `p`.
abbrev pub removed : ℕ → Timer → TimerQueue → TimerQueue
removed p t q = free p (detached p t q)

pub removed-IsOwned :
    (d : ℕ → Bool) (q : TimerQueue) (p : ℕ) (t : Timer)
    → IsOwned d q
    → q.heap p ≡ some t
    → d p ≡ false
    → IsOwned d (removed p t q)
removed-IsOwned d q p t i e h =
    IsOwned-cong (mark (mark d p true) p false) d (removed p t q) (unmark d p h) (
      freed-IsOwned (mark d p true) (detached p t q) p t (detached-IsOwned d q p t i e h) e
        (ground arith))

pub cancel_active-eq :
    (d : ℕ → Bool) (q : TimerQueue) (p : ℕ) (t : Timer)
    → IsOwned d q
    → q.heap p ≡ some t
    → d p ≡ false
    → cancel_active (record { timer = p; sequence = t.sequence }) q
      ≡ ok (
          if starts_with p q.timers
          then record (removed p t q) { armed = first_expiration (removed p t q).timers }
          else removed p t q)
unfolding cancel_active
cancel_active-eq d q p t i e h = ground (
  arith,
  e,
  is_contained d q p t i e h,
  rearm-eq d (removed p t q) (removed p t q).timers (removed-IsOwned d q p t i e h) refl,
)
