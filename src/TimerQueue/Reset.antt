-- ===== src/TimerQueue/Reset.antt =====
-- `reset`: what becomes of the timers that `handleRead` has run.
use native.Mathlib.Decide.{ℕ_discrete}
use hvnetpp.Prelude.{
  ℕ, ◌≡◌, refl, ◌∙◌, ap, subst, Bool, true, false, List, [], ◌∷◌, Option, none, some, ok, ◌==◌,
  ◌&&◌, not, if◌then◌else◌, arith,
}
use hvnetpp.PairSet.{Key, contains}
use hvnetpp.Timer.{Timer, restart}
use hvnetpp.Timer.Restart.{sequence-restart}
use hvnetpp.TimerQueue.{TimerQueue, update, free, reset_one, reset_all, reset, next_expire}
use hvnetpp.TimerQueue.Owned.{Slot, IsOwned, IsOwned-cong, mark}
use hvnetpp.TimerQueue.Change.{attached, stored, attached-IsOwned, stored-IsOwned, freed-IsOwned}
use hvnetpp.TimerQueue.Ops.{insert_timer-eq, entry_timer, IsArmed, other-IsOwned, first_contained}
use hvnetpp.TimerQueue.Expire.{holds, with_held, AreFresh}

-- A detached timer is allocated.
pub detached_timer :
    (d : ℕ → Bool) (q : TimerQueue) (p : ℕ)
    → IsOwned d q
    → d p ≡ true
    → (t : Timer) × (q.heap p ≡ some t)
detached_timer d q p i h = go (q.heap p) (i.slot p) refl
  where
    go :
        (o : Option Timer)
        → Slot q.timers q.active_timers q.num_created (d p) p o
        → q.heap p ≡ o
        → (t : Timer) × (q.heap p ≡ some t)
    go none s l = cc (s.2, h)
    go (some t) s l = (t, l)

-- Whether `reset` keeps a timer that was run.
abbrev pub repeats : ℕ → Timer → List Key → Bool
repeats p t canceling = t.repeat && not (contains (p, t.sequence) canceling)

-- What one timer becomes.
abbrev pub renewed : ℕ → ℕ → List Key → Option Timer → Option Timer
renewed now p canceling none = none
renewed now p canceling (some t) = if repeats p t canceling then some (restart now t) else none

abbrev pub after_reset : ℕ → List Key → TimerQueue → ℕ → Option Timer
after_reset now es q a =
    if holds a es then renewed now a q.canceling_timers (q.heap a) else q.heap a

pub record Resets (d : ℕ → Bool) (now : ℕ) (es : List Key) (q q' : TimerQueue) : Type 0 where
  pub owned : IsOwned d q'
  pub heap : (a : ℕ) → q'.heap a ≡ after_reset now es q a
  pub canceling : q'.canceling_timers ≡ q.canceling_timers
  pub created : q'.num_created ≡ q.num_created
  pub calling : q'.calling_expired_timers ≡ q.calling_expired_timers

-- One round: `p` leaves the detached timers.
one_round :
    (D d : ℕ → Bool) (now : ℕ) (e : Key) (q : TimerQueue)
    → IsOwned D q
    → D e.1 ≡ true
    → ((a : ℕ) → d a ≡ mark D e.1 false a)
    → (q' : TimerQueue) × (reset_one now e q ≡ ok q')
      × IsOwned d q'
      × (q'.heap ≡ update q.heap e.1 (renewed now e.1 q.canceling_timers (q.heap e.1)))
      × (q'.canceling_timers ≡ q.canceling_timers)
      × (q'.num_created ≡ q.num_created)
      × (q'.calling_expired_timers ≡ q.calling_expired_timers)
unfolding reset_one
one_round D d now e q i h m =
    let (t, l) = detached_timer D q e.1 i h in go t l (repeats e.1 t q.canceling_timers) refl
  where
    go :
        (t : Timer)
        → q.heap e.1 ≡ some t
        → (b : Bool) → repeats e.1 t q.canceling_timers ≡ b
        → (q' : TimerQueue) × (reset_one now e q ≡ ok q')
          × IsOwned d q'
          × (q'.heap ≡ update q.heap e.1 (renewed now e.1 q.canceling_timers (q.heap e.1)))
          × (q'.canceling_timers ≡ q.canceling_timers)
          × (q'.num_created ≡ q.num_created)
          × (q'.calling_expired_timers ≡ q.calling_expired_timers)
    go t l true k =
        let t' = restart now t in
        let kept = stored-IsOwned D q e.1 t i t' l h (sequence-restart now t) in
        let here : update q.heap e.1 (some t') e.1 ≡ some t' = ground arith in
        let marked : mark D e.1 true e.1 ≡ true = ground arith in
        let inserted =
          insert_timer-eq (mark D e.1 true) (stored e.1 t' q) e.1 t' kept here marked in
        (
          attached e.1 t' (stored e.1 t' q),
          ground (arith, l, k, inserted),
          IsOwned-cong (mark (mark D e.1 true) e.1 false) d _ (λ a. m a ∙ ground arith)
              (attached-IsOwned (mark D e.1 true) (stored e.1 t' q) e.1 t' kept here marked),
          ap (λ o. update q.heap e.1 o) (rw l (rw k)),
          refl,
          refl,
          refl,
        )
    go t l false k = (
      free e.1 q,
      ground (arith, l, k),
      IsOwned-cong (mark D e.1 false) d _ m (freed-IsOwned D q e.1 t i l h),
      ap (λ o. update q.heap e.1 o) (rw l (rw k)),
      refl,
      refl,
      refl,
    )

after_round :
    (now : ℕ) (e : Key) (es : List Key) (q q' : TimerQueue)
    → holds e.1 es ≡ false
    → q'.heap ≡ update q.heap e.1 (renewed now e.1 q.canceling_timers (q.heap e.1))
    → q'.canceling_timers ≡ q.canceling_timers
    → (a : ℕ) → after_reset now es q' a ≡ after_reset now (e ∷ es) q a
after_round now e es q q' f h c a = elim (ℕ_discrete e.1 a) [
  | yes m ↦
      subst (λ a. after_reset now es q' a ≡ after_reset now (e ∷ es) q a) m
        (rw f (ap (λ g. g e.1) h ∙ ground arith))
  | no ne ↦
      let other : q'.heap a ≡ q.heap a = ap (λ g. g a) h ∙ ground arith in
      rw (c, other) (ground arith)
]

reset_all-Resets :
    (now : ℕ) (es : List Key) (d : ℕ → Bool) (q : TimerQueue)
    → IsOwned (with_held es d) q
    → AreFresh d es
    → (q' : TimerQueue) × (reset_all now es q ≡ ok q') × Resets d now es q q'
unfolding reset_all
reset_all-Resets now [] d q i f = (
  q,
  refl,
  record { owned = i; heap = λ a. refl; canceling = refl; created = refl; calling = refl },
)
reset_all-Resets now (e ∷ es) d q i f =
    let (q₁, r₁, i₁, h₁, c₁, n₁, g₁) =
      one_round (with_held (e ∷ es) d) (with_held es d) now e q i (ground arith) (λ a.
        elim (ℕ_discrete e.1 a) [
          | yes m ↦ ground (arith, f.0, f.1, ap d m, ap (λ p. holds p es) m)
          | no ne ↦ ground arith
        ]) in
    let (q₂, r₂, s) = reset_all-Resets now es d q₁ i₁ f.2 in
    (
      q₂,
      rw r₁ r₂,
      record {
        owned = s.owned;
        heap = λ a. s.heap a ∙ after_round now e es q q₁ f.1 h₁ c₁ a;
        canceling = s.canceling ∙ c₁;
        created = s.created ∙ n₁;
        calling = s.calling ∙ g₁;
      },
    )

armed_for : ℕ → TimerQueue → TimerQueue
armed_for w q = record q { armed = if not (w == 0) then some w else q.armed }

next_expire-IsArmed :
    (d : ℕ → Bool) (q : TimerQueue) (es : List Key)
    → IsOwned d q
    → q.timers ≡ es
    → (w : ℕ) × (next_expire es q ≡ ok w) × IsArmed es (if not (w == 0) then some w else q.armed)
next_expire-IsArmed d q [] i h = (0, refl, tt)
next_expire-IsArmed d q (e ∷ es) i h =
    let (t, l, k, n) = entry_timer d q e i (rw h (first_contained e es)) in
    (e.0, ground (arith, l, k), λ pos. ground arith)

-- `reset` succeeds on a queue with the invariant in which the timers of `expired` are detached. Of
-- those timers each one that repeats and was not cancelled meanwhile is restarted and is in both
-- sets again; each other one is deleted. No other timer changes, and the descriptor is armed for
-- the first timer.
pub reset_lem :
    (now : ℕ) (expired : List Key) (d : ℕ → Bool) (q : TimerQueue)
    → IsOwned (with_held expired d) q
    → AreFresh d expired
    → (q' : TimerQueue) × (reset expired now q ≡ ok q')
      × Resets d now expired q q'
      × IsArmed q'.timers q'.armed
unfolding reset armed_for
reset_lem now expired d q i f =
    let (q₁, r, s) = reset_all-Resets now expired d q i f in
    finish q₁ r s (next_expire-IsArmed d q₁ q₁.timers s.owned refl)
  where
    finish :
        (q₁ : TimerQueue)
        → reset_all now expired q ≡ ok q₁
        → Resets d now expired q q₁
        → (w : ℕ) × (next_expire q₁.timers q₁ ≡ ok w)
          × IsArmed q₁.timers (if not (w == 0) then some w else q₁.armed)
        → (q' : TimerQueue) × (reset expired now q ≡ ok q')
          × Resets d now expired q q'
          × IsArmed q'.timers q'.armed
    finish q₁ r s (w, e, a) = (
      armed_for w q₁,
      ground (arith, r, e),
      record {
        owned = other-IsOwned d q₁ _ _ _ s.owned;
        heap = s.heap;
        canceling = s.canceling;
        created = s.created;
        calling = s.calling;
      },
      a,
    )
