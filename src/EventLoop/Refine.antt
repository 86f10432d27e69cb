-- ===== src/EventLoop/Refine.antt =====
-- The loop's two queues keep the plan.
pub mod Drain
use hvnetpp.Prelude.{
  ℕ, zero, suc, ◌+◌, ◌*◌, ◌%◌, ◌<◌, ◌≡◌, refl, ap, ◌∙◌, sym, subst, ◌⊎◌, inl, inr, Bool, true,
  false, List, [], ◌∷◌, ◌++◌, Option, none, some, ltb, ◌||◌, not, if◌then◌else◌, length, arith,
  length-append,
}
use hvnetpp.MpscQueue.{Queue, commit, consume}
use hvnetpp.MpscQueue.Tickets.{
  Tickets, Stands, place, ahead, issue, fill, take_one, try_reserve_lem, commit_lem, peek_lem,
  consume_lem,
}
use hvnetpp.EventLoop.{
  Loop, Act, queues, quits, offer, store, queue_in_loop, quit_loop, wakeup, act, act_all,
  run_functor, run_node, drain_round, drain, run_all, run_swapped, do_pending_functors,
  peek_pending, consume_pending, datum_at,
}
use hvnetpp.EventLoop.Plan.{
  Plan, enqueue, wake_if, plan_queue, plan_acts, behind, plan_run, plan_first, plan_round,
  plan_drain, plan_all, plan_swapped, plan_do_pending, acts-pending,
}

-- The tickets from `i` on hold the functors.
abbrev pub Row : (ℕ → Option ℕ) → ℕ → List ℕ → Type 0
Row cells i [] = Unit {0}
Row cells i (f ∷ fs) = (cells i ≡ some (suc f)) × Row cells (suc i) fs

Row-cong :
    (c d : ℕ → Option ℕ) (i : ℕ) (fs : List ℕ)
    → ((j : ℕ) → j < i + length fs → c j ≡ d j)
    → Row c i fs
    → Row d i fs
Row-cong c d i [] h r = tt
Row-cong c d i (f ∷ fs) h (e, r) =
    (sym (h i (omega arith)) ∙ e, Row-cong c d (suc i) fs (λ j l. h j (omega arith)) r)

Row-snoc :
    (c : ℕ → Option ℕ) (i : ℕ) (fs : List ℕ) (f : ℕ)
    → Row c i fs
    → c (i + length fs) ≡ some (suc f)
    → Row c i (fs ++ (f ∷ []))
Row-snoc c i [] f r e = (ap c (omega arith) ∙ e, tt)
Row-snoc c i (g ∷ gs) f (h, r) e = (h, Row-snoc c (suc i) gs f r (ap c (omega arith) ∙ e))

-- The queue holds the functors, with `k` taken before; without memory there is no room.
abbrev pub IsQueue : ℕ → Option Queue → ℕ → List ℕ → Type 0
IsQueue k none room fs = (room ≡ 0) × (fs ≡ [])
IsQueue k (some q) room fs =
    (room ≡ 1024)
    × (t : Tickets) × Stands q t
    × (t.taken ≡ k)
    × (t.issued ≡ k + length fs)
    × Row t.cells k fs

pub record Refines (k : ℕ) (l : Loop) (p : Plan) : Type 0 where
  pub queue : IsQueue k l.pending_queue p.room p.pending
  pub aside : l.pending_functors ≡ p.aside
  pub ran : l.ran ≡ p.ran
  pub wakeups : l.wakeups ≡ p.wakeups
  pub quit : l.quit ≡ p.quit
  pub calling : l.calling_pending_functors ≡ p.calling

offer-cases :
    (k f : ℕ) (o : Option Queue) (room : ℕ) (fs : List ℕ)
    → IsQueue k o room fs
    → ((q : Queue) × (offer f o ≡ some q)
        × (ltb (length fs) room ≡ true)
        × IsQueue k (some q) room (fs ++ (f ∷ [])))
      ⊎ ((offer f o ≡ none) × (ltb (length fs) room ≡ false))
unfolding offer
offer-cases k f none room fs (c, e) = inr (refl, ground arith)
offer-cases k f (some q) room fs (c, t, s, a, b, r) =
    elim (try_reserve_lem 0 q.head q t s (omega arith) (omega (arith, s.within))
      (s.head ∙ ap (λ x. (64 * x) % 4294967296) (omega arith))) [
        | inl (e, far) ↦ inr (rw e refl, ground (arith, far))
        | inr (q', e, s', less) ↦ inl (
          commit (place t.issued) (suc f) 1 q',
          rw e refl,
          ground (arith, less),
          (
            c,
            fill t.issued (suc f) (issue t),
            commit_lem t.issued (suc f) q' (issue t) s' s.ordered (omega arith),
            a,
            omega (arith, length-append fs (f ∷ [])),
            Row-snoc (fill t.issued (suc f) (issue t)).cells k fs f
                (Row-cong t.cells (fill t.issued (suc f) (issue t)).cells k fs (λ j h. ground arith)
                  r)
                (ground arith),
          ),
        )
      ]

stored-Refines :
    (k f : ℕ) (l : Loop) (p : Plan)
    → Refines k l p
    → Refines k (store f (offer f l.pending_queue) l) (enqueue f p)
unfolding store
stored-Refines k f l p r = elim (offer-cases k f l.pending_queue p.room p.pending r.queue) [
  | inl (q, e, h, i) ↦
      rw (e, h)
        (record {
          queue = i;
          aside = r.aside;
          ran = r.ran;
          wakeups = r.wakeups;
          quit = r.quit;
          calling = r.calling;
        })
  | inr (e, h) ↦
      rw (e, h)
        (record {
          queue = r.queue;
          aside = ap (λ x. x ++ (f ∷ [])) r.aside;
          ran = r.ran;
          wakeups = r.wakeups;
          quit = r.quit;
          calling = r.calling;
        })
]

wake-Refines :
    (k : ℕ) (b : Bool) (l : Loop) (p : Plan)
    → Refines k l p
    → Refines k (if b then wakeup l else l) (wake_if b p)
unfolding wakeup
wake-Refines k false l p r = r
wake-Refines k true l p r = record {
  queue = r.queue;
  aside = r.aside;
  ran = r.ran;
  wakeups = ap (λ n. n + 1) r.wakeups;
  quit = r.quit;
  calling = r.calling;
}

pub queue-Refines :
    (k : ℕ) (in_loop : Bool) (f : ℕ) (l : Loop) (p : Plan)
    → Refines k l p
    → Refines k (queue_in_loop in_loop f l) (plan_queue in_loop f p)
unfolding queue_in_loop
queue-Refines k in_loop f l p r =
    subst (λ b. Refines k (queue_in_loop in_loop f l) (wake_if (not in_loop || b) (enqueue f p)))
      r.calling
      (wake-Refines k (not in_loop || l.calling_pending_functors) _ _ (stored-Refines k f l p r))

quit-Refines :
    (k : ℕ) (l : Loop) (p : Plan)
    → Refines k l p
    → Refines k (quit_loop true l) (record p { quit = true })
unfolding quit_loop
quit-Refines k l p r = record {
  queue = r.queue;
  aside = r.aside;
  ran = r.ran;
  wakeups = r.wakeups;
  quit = refl;
  calling = r.calling;
}

pub acts-Refines :
    (k : ℕ) (as' : List Act) (l : Loop) (p : Plan)
    → Refines k l p
    → Refines k (act_all as' l) (plan_acts as' p)
unfolding act_all act
acts-Refines k [] l p r = r
acts-Refines k (queues f ∷ as') l p r = acts-Refines k as' _ _ (queue-Refines k true f l p r)
acts-Refines k (quits ∷ as') l p r = acts-Refines k as' _ _ (quit-Refines k l p r)

pub consumed-IsQueue :
    (k f : ℕ) (o : Option Queue) (room : ℕ) (fs : List ℕ)
    → IsQueue k o room (f ∷ fs)
    → IsQueue (suc k) (consume_pending (place k) o) room fs
unfolding consume_pending
consumed-IsQueue k f none room fs (c, e) = absurd (omega (arith, ap length e))
consumed-IsQueue k f (some q) room fs (c, t, s, a, b, (h, r)) = (
  c,
  take_one t,
  subst (λ x. Stands (consume (place x) q) (take_one t)) a (consume_lem q t s (omega arith)),
  ap suc a,
  omega arith,
  r,
)

-- `peek` gives the node of the first functor, or none.
pub peeked : (k : ℕ) (o : Option Queue) (room : ℕ) → IsQueue k o room [] → peek_pending o ≡ none
unfolding peek_pending
peeked k none room i = refl
peeked k (some q) room (c, t, s, a, b, r) = elim (peek_lem q t s) [
  | inl (d, e, l, f, g) ↦ absurd (omega arith)
  | inr (e, f) ↦ f
]

pub peeked_first :
    (k f : ℕ) (o : Option Queue) (room : ℕ) (fs : List ℕ)
    → IsQueue k o room (f ∷ fs)
    → (peek_pending o ≡ some (place k)) × (datum_at (place k) o ≡ suc f)
unfolding peek_pending
peeked_first k f none room fs (c, e) = absurd (omega (arith, ap length e))
peeked_first k f (some q) room fs (c, t, s, a, b, (h, r)) =
    let w : ahead t t.taken ≡ some (suc f) = ap (ahead t) a ∙ ground arith in
    elim (peek_lem q t s) [
      | inl (d, e, l, g, x) ↦ (
        g ∙ ap (λ z. some (place z)) a,
        ap (λ z. (q.nodes (place z)).datum) (sym a) ∙ x ∙ ground (arith, w),
      )
      | inr (e, g) ↦ absurd (ground (arith, w))
    ]
