-- ===== src/TimerQueue/Change.antt =====
-- The elementary changes of the timer queue keep its invariant: a timer is created, put into the
-- sets, taken out of them, restarted or deleted.
use hvnetpp.Prelude.{ℕ, ◌+◌, ◌≤◌, ◌<◌, ◌≡◌, refl, subst, Bool, true, false, none, some, arith}
use hvnetpp.PairSet.{contains, insert, erase}
use hvnetpp.PairSet.Laws.{contains-insert, contains-erase, length-insert}
use hvnetpp.PairSet.Order.{insert-IsSorted, erase-IsSorted, length-erase}
use hvnetpp.Timer.{Timer}
use hvnetpp.TimerQueue.{TimerQueue, update, uintptr_max, free}
use hvnetpp.TimerQueue.Owned.{Slot, Slot-some, IsOwned, mark, slots_at}

-- A timer is put into both sets, or taken out of them.
abbrev pub attached : ℕ → Timer → TimerQueue → TimerQueue
attached p t q = record q {
  timers = insert (t.expiration, p) q.timers;
  active_timers = insert (p, t.sequence) q.active_timers;
}

abbrev pub detached : ℕ → Timer → TimerQueue → TimerQueue
detached p t q = record q {
  timers = erase (t.expiration, p) q.timers;
  active_timers = erase (p, t.sequence) q.active_timers;
}

-- The object at an address is written, or a new one is allocated there.
abbrev pub stored : ℕ → Timer → TimerQueue → TimerQueue
stored p t q = record q { heap = update q.heap p (some t) }

abbrev pub created : ℕ → Timer → TimerQueue → TimerQueue
created p t q = record q { heap = update q.heap p (some t); num_created = q.num_created + 1 }

module _ (d : ℕ → Bool) (q : TimerQueue) (p : ℕ) (t : Timer) (i : IsOwned d q) where
  pub not_contained :
      q.heap p ≡ some t
      → d p ≡ true
      → (contains (t.expiration, p) q.timers ≡ false)
        × (contains (p, t.sequence) q.active_timers ≡ false)
  not_contained e h =
      let old = Slot-some d q p i e in
      (ground (arith, old.0 t.expiration), ground (arith, old.1 t.sequence))

  pub attached-IsOwned : q.heap p ≡ some t → d p ≡ true → IsOwned (mark d p false) (attached p t q)
  attached-IsOwned e h = record {
    sizes =
        let absent = not_contained e h in
        ground (
          arith,
          i.sizes,
          length-insert (t.expiration, p) q.timers absent.0,
          length-insert (p, t.sequence) q.active_timers absent.1,
        );
    timers_sorted = insert-IsSorted _ _ i.timers_sorted;
    active_sorted = insert-IsSorted _ _ i.active_sorted;
    slot =
        let old = Slot-some d q p i e in
        slots_at d false q (attached p t q) p i (omega arith)
          (rw e (
            λ w. ground (arith, contains-insert (t.expiration, p) (w, p) q.timers, old.0 w),
            λ k. ground (arith, contains-insert (p, t.sequence) (p, k) q.active_timers, old.1 k),
            old.2,
            old.3,
          ))
          (λ a ne. (
            λ w. ground (arith, contains-insert (t.expiration, p) (w, a) q.timers),
            λ k. ground (arith, contains-insert (p, t.sequence) (a, k) q.active_timers),
            refl,
          ));
  }

  pub is_contained :
      q.heap p ≡ some t
      → d p ≡ false
      → (contains (t.expiration, p) q.timers ≡ true)
        × (contains (p, t.sequence) q.active_timers ≡ true)
  is_contained e h =
      let old = Slot-some d q p i e in
      (ground (arith, old.0 t.expiration), ground (arith, old.1 t.sequence))

  pub detached-IsOwned : q.heap p ≡ some t → d p ≡ false → IsOwned (mark d p true) (detached p t q)
  detached-IsOwned e h = record {
    sizes =
        let present = is_contained e h in
        ground (
          arith,
          i.sizes,
          length-erase (t.expiration, p) q.timers i.timers_sorted present.0,
          length-erase (p, t.sequence) q.active_timers i.active_sorted present.1,
        );
    timers_sorted = erase-IsSorted _ _ i.timers_sorted;
    active_sorted = erase-IsSorted _ _ i.active_sorted;
    slot =
        let old = Slot-some d q p i e in
        slots_at d true q (detached p t q) p i (omega arith)
          (rw e (
            λ w. ground (arith, contains-erase (t.expiration, p) (w, p) q.timers, old.0 w),
            λ k. ground (arith, contains-erase (p, t.sequence) (p, k) q.active_timers, old.1 k),
            old.2,
            old.3,
          ))
          (λ a ne. (
            λ w. ground (arith, contains-erase (t.expiration, p) (w, a) q.timers),
            λ k. ground (arith, contains-erase (p, t.sequence) (a, k) q.active_timers),
            refl,
          ));
  }

  -- A detached timer is in neither set.
  pub absent :
      q.heap p ≡ some t
      → d p ≡ true
      → ((w : ℕ) → contains (w, p) q.timers ≡ false)
        × ((k : ℕ) → contains (p, k) q.active_timers ≡ false)
  absent e h =
      let old = Slot-some d q p i e in (λ w. ground (arith, old.0 w), λ k. ground (arith, old.1 k))

  pub stored-IsOwned :
      (t' : Timer)
      → q.heap p ≡ some t
      → d p ≡ true
      → t'.sequence ≡ t.sequence
      → IsOwned (mark d p true) (stored p t' q)
  stored-IsOwned t' e h k = record {
    sizes = i.sizes;
    timers_sorted = i.timers_sorted;
    active_sorted = i.active_sorted;
    slot =
        let old = Slot-some d q p i e in
        let out = absent e h in
        let here : update q.heap p (some t') p ≡ some t' = ground arith in
        slots_at d true q (stored p t' q) p i (omega arith)
          (rw here (λ w. ground (arith, out.0 w), λ s. ground (arith, out.1 s), omega arith, old.3))
          (λ a ne. (λ w. refl, λ s. refl, ground arith));
  }

  pub freed-IsOwned : q.heap p ≡ some t → d p ≡ true → IsOwned (mark d p false) (free p q)
  freed-IsOwned e h = record {
    sizes = i.sizes;
    timers_sorted = i.timers_sorted;
    active_sorted = i.active_sorted;
    slot =
        let out = absent e h in
        let here : update q.heap p none p ≡ none = ground arith in
        slots_at d false q (free p q) p i (omega arith) (rw here (out.0, out.1, refl))
          (λ a ne. (λ w. refl, λ s. refl, ground arith));
  }

  pub created-IsOwned :
      q.heap p ≡ none
      → p < uintptr_max
      → t.sequence ≤ q.num_created + 1
      → IsOwned (mark d p true) (created p t q)
  created-IsOwned e h k = record {
    sizes = i.sizes;
    timers_sorted = i.timers_sorted;
    active_sorted = i.active_sorted;
    slot =
        let old = subst (λ o. Slot q.timers q.active_timers q.num_created (d p) p o) e (i.slot p) in
        let here : update q.heap p (some t) p ≡ some t = ground arith in
        slots_at d true q (created p t q) p i (omega arith)
          (rw here (λ w. ground (arith, old.0 w), λ s. ground (arith, old.1 s), k, h))
          (λ a ne. (λ w. refl, λ s. refl, ground arith));
  }
