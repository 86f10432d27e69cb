-- ===== src/TimerQueue/Owned.antt =====
-- The invariant of the timer queue. Every `Timer` that is allocated is in both sets, under its own
-- expiration, address and sequence number, or it is detached: held by a pending functor or by a
-- running `handleRead`. The sets name no other timer.
use hvnetpp.Prelude.{
  ℕ, ◌≤◌, ◌<◌, ◌≡◌, ◌∙◌, sym, subst, ◌≢◌, Bool, false, List, Option, none, some, ◌==◌, ◌&&◌, not,
  if◌then◌else◌, length, arith,
}
use native.Mathlib.Decide.{ℕ_discrete}
use hvnetpp.PairSet.{Key, contains}
use hvnetpp.PairSet.Order.{IsSorted}
use hvnetpp.Timer.{Timer}
use hvnetpp.TimerQueue.{TimerQueue, uintptr_max}

-- What the sets hold at address `p`, where the heap has `o`; `d` says that the timer is detached.
abbrev pub Slot : List Key → List Key → ℕ → Bool → ℕ → Option Timer → Type 0
Slot timers active n d p none =
    ((w : ℕ) → contains (w, p) timers ≡ false)
    × ((s : ℕ) → contains (p, s) active ≡ false)
    × (d ≡ false)
Slot timers active n d p (some t) =
    ((w : ℕ) → contains (w, p) timers ≡ (t.expiration == w && not d))
    × ((s : ℕ) → contains (p, s) active ≡ (t.sequence == s && not d))
    × (t.sequence ≤ n)
    × (p < uintptr_max)

pub record IsOwned (d : ℕ → Bool) (q : TimerQueue) : Type 0 where
  pub sizes : length q.timers ≡ length q.active_timers
  pub timers_sorted : IsSorted q.timers
  pub active_sorted : IsSorted q.active_timers
  pub slot : (p : ℕ) → Slot q.timers q.active_timers q.num_created (d p) p (q.heap p)

-- A slot depends on the sets only at its own address.
Slot-keep :
    (ts as' ts' as'' : List Key) (n n' : ℕ) (d d' : Bool) (p : ℕ) (o : Option Timer)
    → ((w : ℕ) → contains (w, p) ts' ≡ contains (w, p) ts)
    → ((s : ℕ) → contains (p, s) as'' ≡ contains (p, s) as')
    → n ≤ n'
    → d' ≡ d
    → Slot ts as' n d p o
    → Slot ts' as'' n' d' p o
Slot-keep ts as' ts' as'' n n' d d' p none f g h e s =
    ((λ w. f w ∙ s.0 w), (λ k. g k ∙ s.1 k), e ∙ s.2)
Slot-keep ts as' ts' as'' n n' d d' p (some t) f g h e s =
    ((λ w. rw e (f w ∙ s.0 w)), (λ k. rw e (g k ∙ s.1 k)), omega arith, s.3)

pub Slot-some :
    (d : ℕ → Bool) (q : TimerQueue) (p : ℕ) {t : Timer}
    → IsOwned d q
    → q.heap p ≡ some t
    → Slot q.timers q.active_timers q.num_created (d p) p (some t)
Slot-some d q p i e =
    subst (λ o. Slot q.timers q.active_timers q.num_created (d p) p o) e (i.slot p)

-- The invariant for another description of the same detached timers.
pub IsOwned-cong :
    (d d' : ℕ → Bool) (q : TimerQueue) → ((p : ℕ) → d' p ≡ d p) → IsOwned d q → IsOwned d' q
IsOwned-cong d d' q e i = record {
  sizes = i.sizes;
  timers_sorted = i.timers_sorted;
  active_sorted = i.active_sorted;
  slot = λ p.
      subst (λ b. Slot q.timers q.active_timers q.num_created b p (q.heap p)) (sym (e p))
        (i.slot p);
}

-- `d` with `b` at the address `p`.
abbrev pub mark : (ℕ → Bool) → ℕ → Bool → ℕ → Bool
mark d p b a = if p == a then b else d a

-- What an operation on address `p` leaves alone at another address.
abbrev pub Same : TimerQueue → TimerQueue → ℕ → Type 0
Same q q' a =
    ((w : ℕ) → contains (w, a) q'.timers ≡ contains (w, a) q.timers)
    × ((k : ℕ) → contains (a, k) q'.active_timers ≡ contains (a, k) q.active_timers)
    × (q'.heap a ≡ q.heap a)

-- An operation on one address keeps the slots at the others.
pub slots_at :
    (d : ℕ → Bool) (b : Bool) (q q' : TimerQueue) (p : ℕ)
    → IsOwned d q
    → q.num_created ≤ q'.num_created
    → Slot q'.timers q'.active_timers q'.num_created b p (q'.heap p)
    → ((a : ℕ) → p ≢ a → Same q q' a)
    → (a : ℕ) → Slot q'.timers q'.active_timers q'.num_created (mark d p b a) a (q'.heap a)
slots_at d b q q' p i n here others a = elim (ℕ_discrete p a) [
  | yes m ↦
      let e : mark d p b a ≡ b = ground arith in
      rw e (subst (λ a. Slot q'.timers q'.active_timers q'.num_created b a (q'.heap a)) m here)
  | no ne ↦
      let same = others a ne in
      rw same.2 (
        Slot-keep q.timers q.active_timers _ _ q.num_created _ (d a) _ a (q.heap a) same.0 same.1 n
          (ground arith) (i.slot a))
]
