-- ===== src/TimerQueue/Expire.antt =====
-- `getExpired`: exactly the timers that are due leave both sets, and stay allocated.
use hvnetpp.Prelude.{
  ℕ, ◌≡◌, refl, ◌∙◌, ap, subst, inl, inr, Bool, true, false, List, [], ◌∷◌, some, ok, ◌==◌, ◌&&◌,
  ◌||◌, not, arith, Bool-cases, leb,
}
use hvnetpp.PairSet.{Key, key_lt, contains, erase, before, from}
use hvnetpp.PairSet.Order.{IsSorted, erase_first, contains-before, contains-from, before-IsSorted}
use hvnetpp.Timer.{Timer}
use hvnetpp.TimerQueue.{TimerQueue, uintptr_max, erase_active, get_expired}
use hvnetpp.TimerQueue.Owned.{Slot-some, IsOwned, IsOwned-cong, mark}
use hvnetpp.TimerQueue.Change.{detached-IsOwned, is_contained}
use hvnetpp.TimerQueue.Ops.{entry_timer, first_contained}

-- The address stands in an entry of the list.
abbrev pub holds : ℕ → List Key → Bool
holds p [] = false
holds p (e ∷ es) = e.1 == p || holds p es

-- The detached timers with those of `es`.
abbrev pub with_held : List Key → (ℕ → Bool) → ℕ → Bool
with_held es d a = holds a es || d a

-- The addresses of `es` are distinct, and none is detached by `d`.
abbrev pub AreFresh : (ℕ → Bool) → List Key → Type 0
AreFresh d [] = Unit {0}
AreFresh d (e ∷ es) = (d e.1 ≡ false) × (holds e.1 es ≡ false) × AreFresh d es

AreFresh-unmark :
    (d : ℕ → Bool) (p : ℕ) (es : List Key)
    → AreFresh (mark d p true) es
    → AreFresh d es × (holds p es ≡ false)
AreFresh-unmark d p [] f = (tt, refl)
AreFresh-unmark d p (e ∷ es) f =
    let (rest, other) = AreFresh-unmark d p es f.2 in
    ((ground (arith, f.0), f.1, rest), ground (arith, f.0, other))

-- What the loop of `getExpired` leaves.
record Erased (d : ℕ → Bool) (es : List Key) (q q' : TimerQueue) : Type 0 where
  owned : IsOwned (with_held es d) q'
  fresh : AreFresh d es
  heap : q'.heap ≡ q.heap
  created : q'.num_created ≡ q.num_created

-- Taking the first timer out of both sets.
first_out :
    (d : ℕ → Bool) (q : TimerQueue) (e : Key) (es : List Key) (t : Timer)
    → IsOwned d (record q { timers = e ∷ es })
    → q.heap e.1 ≡ some t
    → t.expiration ≡ e.0
    → d e.1 ≡ false
    → IsOwned
        (mark d e.1 true)
        (record q { active_timers = erase (e.1, t.sequence) q.active_timers; timers = es })
first_out d q e es t i l k n =
    subst
      (λ ts.
        IsOwned (mark d e.1 true)
          (record q { active_timers = erase (e.1, t.sequence) q.active_timers; timers = ts }))
      (ap (λ w. erase (w, e.1) (e ∷ es)) k ∙ erase_first e es i.timers_sorted)
      (detached-IsOwned d (record q { timers = e ∷ es }) e.1 t i l n)

erase_active-Erased :
    (x : Key) (ts : List Key) (d : ℕ → Bool) (q : TimerQueue)
    → IsOwned d (record q { timers = ts })
    → (q' : TimerQueue) × (erase_active (before x ts) (record q { timers = from x ts }) ≡ ok q')
      × (q'.timers ≡ from x ts)
      × Erased d (before x ts) q q'
unfolding erase_active before from
erase_active-Erased x [] d q i = (
  record q { timers = [] },
  refl,
  refl,
  record { owned = i; fresh = tt; heap = refl; created = refl },
)
erase_active-Erased x (e ∷ es) d q i =
    let (t, l, k, n) = entry_timer d (record q { timers = e ∷ es }) e i (first_contained e es) in
    go t l n (is_contained d (record q { timers = e ∷ es }) e.1 t i l n).1
      (erase_active-Erased x es (mark d e.1 true)
        (record q { active_timers = erase (e.1, t.sequence) q.active_timers })
        (first_out d q e es t i l k n))
      (key_lt e x) refl
  where
    go :
        (t : Timer)
        → q.heap e.1 ≡ some t
        → d e.1 ≡ false
        → contains (e.1, t.sequence) q.active_timers ≡ true
        → (q' : TimerQueue) × (erase_active (before x es) (record q {
          active_timers = erase (e.1, t.sequence) q.active_timers;
          timers = from x es;
        })
            ≡ ok q')
          × (q'.timers ≡ from x es)
          × Erased
              (mark d e.1 true)
              (before x es)
              (record q { active_timers = erase (e.1, t.sequence) q.active_timers })
              q'
        → (b : Bool) → key_lt e x ≡ b
        → (q' : TimerQueue) × (erase_active
              (before x (e ∷ es))
              (record q { timers = from x (e ∷ es) })
            ≡ ok q')
          × (q'.timers ≡ from x (e ∷ es))
          × Erased d (before x (e ∷ es)) q q'
    go t l n c rest false h = rw h (
      record q { timers = e ∷ es },
      refl,
      refl,
      record { owned = i; fresh = tt; heap = refl; created = refl },
    )
    go t l n c (q', r, s, f) true h =
        let unmarked = AreFresh-unmark d e.1 (before x es) f.fresh in
        rw h (
          q',
          ground (arith, l, c, r),
          s,
          record {
            owned =
                IsOwned-cong (with_held (before x es) (mark d e.1 true)) _ q' (λ a. ground arith)
                  f.owned;
            fresh = (n, unmarked.1, unmarked.0);
            heap = f.heap;
            created = f.created;
          },
        )

-- What `getExpired` leaves.
pub record Expires (d : ℕ → Bool) (now : ℕ) (expired : List Key) (q q' : TimerQueue) : Type 0 where
  pub owned : IsOwned (with_held expired d) q'
  pub fresh : AreFresh d expired
  pub ordered : IsSorted expired
  pub due : (e : Key) → contains e expired ≡ (contains e q.timers && leb e.0 now)
  pub kept : (e : Key) → contains e q'.timers ≡ (contains e q.timers && not (leb e.0 now))
  pub heap : q'.heap ≡ q.heap
  pub created : q'.num_created ≡ q.num_created

-- What `getExpired(now)` does on a queue with the invariant: it cannot fail; the entries that it
-- returns are exactly those of `timers_` that expire at `now` or before, in the order of expiration;
-- the others stay in `timers_`; the timers returned are distinct, are in neither set any more, and
-- stay allocated.
pub get_expired_lem :
    (d : ℕ → Bool) (q : TimerQueue) (now : ℕ)
    → IsOwned d q
    → (expired : List Key) × (q' : TimerQueue) × (get_expired now q ≡ ok (expired, q'))
      × Expires d now expired q q'
unfolding get_expired
get_expired_lem d q now i = go (erase_active-Erased x q.timers d q i)
  where
    x : Key
    x = (now, uintptr_max)

    -- No timer has the address of the sentry.
    bound : (e : Key) → contains e q.timers ≡ true → key_lt e x ≡ leb e.0 now
    bound e h =
        let (t, l, k, n) = entry_timer d q e i h in
        let low = (Slot-some d q e.1 i l).3 in ground arith

    go :
        (q' : TimerQueue) × (erase_active
              (before x q.timers)
              (record q { timers = from x q.timers })
            ≡ ok q')
          × (q'.timers ≡ from x q.timers)
          × Erased d (before x q.timers) q q'
        → (expired : List Key) × (q' : TimerQueue) × (get_expired now q ≡ ok (expired, q'))
          × Expires d now expired q q'
    go (q', r, s, f) = (
      before x q.timers,
      q',
      rw r,
      record {
        owned = f.owned;
        fresh = f.fresh;
        ordered = before-IsSorted x q.timers i.timers_sorted;
        due = λ e. elim (Bool-cases (contains e q.timers)) [
          | inl h ↦ ground (arith, contains-before x e q.timers i.timers_sorted, bound e h)
          | inr h ↦ ground (arith, contains-before x e q.timers i.timers_sorted)
        ];
        kept = λ e. rw s (elim (Bool-cases (contains e q.timers)) [
          | inl h ↦ ground (arith, contains-from x e q.timers i.timers_sorted, bound e h)
          | inr h ↦ ground (arith, contains-from x e q.timers i.timers_sorted)
        ]);
        heap = f.heap;
        created = f.created;
      },
    )
