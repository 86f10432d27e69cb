-- ===== src/EventLoop/Refine/Drain.antt =====
-- The loops of `doPendingFunctors` against the plain row of functors.
use hvnetpp.Prelude.{
  ℕ, zero, suc, ◌≡◌, refl, ap, ◌∙◌, sym, subst, ◌⊎◌, inl, inr, true, false, List, [], ◌∷◌, ◌++◌,
  Option, none, some,
}
use hvnetpp.MpscQueue.Tickets.{place}
use hvnetpp.EventLoop.{
  Loop, Act, run_functor, run_node, drain_round, drain, run_all, run_swapped, do_pending_functors,
  consume_pending,
}
use hvnetpp.EventLoop.Plan.{
  Plan, behind, plan_run, plan_first, plan_round, plan_drain, plan_all, plan_swapped,
  plan_do_pending, acts-pending,
}
use hvnetpp.EventLoop.Refine.{
  IsQueue, Refines, acts-Refines, consumed-IsQueue, peeked, peeked_first,
}

module _ (body : ℕ → List Act) where
  run-Refines :
      (k f : ℕ) (l : Loop) (p : Plan)
      → Refines k l p
      → Refines k (run_functor body f l) (plan_run body f p)
  unfolding run_functor
  run-Refines k f l p r = acts-Refines k (body f) _ _ (record {
    queue = r.queue;
    aside = r.aside;
    ran = ap (λ x. x ++ (f ∷ [])) r.ran;
    wakeups = r.wakeups;
    quit = r.quit;
    calling = r.calling;
  })

  all-Refines :
      (k : ℕ) (fs : List ℕ) (l : Loop) (p : Plan)
      → Refines k l p
      → Refines k (run_all body fs l) (plan_all body fs p)
  unfolding run_all
  all-Refines k [] l p r = r
  all-Refines k (f ∷ fs) l p r = all-Refines k fs _ _ (run-Refines k f l p r)

  abbrev pub Rounds : ℕ → Loop → Plan → Type 0
  Rounds k l p =
      ((drain_round body l ≡ none) × (plan_round body p ≡ none))
      ⊎ ((l' : Loop) × (p' : Plan) × (drain_round body l ≡ some l')
          × (plan_round body p ≡ some p')
          × Refines (suc k) l' p')

  pub round-Rounds : (k : ℕ) (l : Loop) (p : Plan) → Refines k l p → Rounds k l p
  unfolding drain_round run_node
  round-Rounds k l p r = go p.pending refl
    where
      go : (fs : List ℕ) → p.pending ≡ fs → Rounds k l p
      go [] e =
          let i : IsQueue k l.pending_queue p.room [] =
            subst (IsQueue k l.pending_queue p.room) e r.queue in
          inl (rw (drain_round, peeked k l.pending_queue p.room i) refl, rw e refl)
      go (f ∷ fs) e =
          let i : IsQueue k l.pending_queue p.room (f ∷ fs) =
            subst (IsQueue k l.pending_queue p.room) e r.queue in
          let (g, h) = peeked_first k f l.pending_queue p.room fs i in
          let s = run-Refines k f l p r in
          let (more, m) = acts-pending (body f) (record p { ran = p.ran ++ (f ∷ []) }) in
          let n : (plan_run body f p).pending ≡ f ∷ (fs ++ more) = m ∙ ap (λ x. x ++ more) e in
          inr (
            record (run_functor body f l) {
              pending_queue = consume_pending (place k) (run_functor body f l).pending_queue;
            },
            plan_first body f p,
            rw (drain_round, g, h) refl,
            rw e refl,
            record {
              queue = subst (IsQueue (suc k) _ (plan_run body f p).room) (ap behind (sym n)) (
                  consumed-IsQueue k f (run_functor body f l).pending_queue (plan_run body f p).room
                    (fs ++ more) (subst (IsQueue k _ (plan_run body f p).room) n s.queue));
              aside = s.aside;
              ran = s.ran;
              wakeups = s.wakeups;
              quit = s.quit;
              calling = s.calling;
            },
          )

  -- Both run out of fuel, or both end, and agree.
  abbrev pub Agree : Option Loop → Option Plan → Type 0
  Agree r s =
      ((r ≡ none) × (s ≡ none))
      ⊎ ((k : ℕ) × (l : Loop) × (p : Plan) × (r ≡ some l) × (s ≡ some p) × Refines k l p)

  pub drain-Agree :
      (n k : ℕ) (l : Loop) (p : Plan) → Refines k l p → Agree (drain body n l) (plan_drain body n p)
  unfolding drain plan_drain
  drain-Agree zero k l p r = inl (refl, refl)
  drain-Agree (suc n) k l p r = elim (round-Rounds k l p r) [
    | inl (e, h) ↦ inr (k, l, p, rw (drain, e) refl, rw (plan_drain, h) refl, r)
    | inr (l', p', e, h, r') ↦ rw (drain, plan_drain, e, h) (drain-Agree n (suc k) l' p' r')
  ]

  pub swapped-Refines :
      (k : ℕ) (l : Loop) (p : Plan)
      → Refines k l p
      → Refines k (run_swapped body l) (plan_swapped body p)
  unfolding run_swapped
  swapped-Refines k l p r = rw r.aside (
      all-Refines k p.aside _ _ (record {
        queue = r.queue;
        aside = refl;
        ran = r.ran;
        wakeups = r.wakeups;
        quit = r.quit;
        calling = r.calling;
      }))

  -- `doPendingFunctors` does what the plan says, with the lock-free queue as the plan's row, of 1024
  -- places, or of none where it has no memory, and the vector as the functors kept aside: given the
  -- same fuel both run out of it, or both end, having run the same functors in the same order, with
  -- the same ones pending, the same wakeups, and the same wish to quit.
  pub do_pending_functors-Agree :
      (fuel k : ℕ) (l : Loop) (p : Plan)
      → Refines k l p
      → Agree (do_pending_functors body fuel l) (plan_do_pending body fuel p)
  unfolding do_pending_functors plan_do_pending
  do_pending_functors-Agree fuel k l p r =
      elim (drain-Agree fuel k (record l { calling_pending_functors = true })
        (record p { calling = true }) (called r)) [
          | inl (e, h) ↦ inl (rw (do_pending_functors, e) refl, rw (plan_do_pending, h) refl)
          | inr (j, l', p', e, h, s) ↦ inr (
            j,
            _,
            _,
            rw (do_pending_functors, e) refl,
            rw (plan_do_pending, h) refl,
            ended (swapped-Refines j l' p' s),
          )
        ]
    where
      called :
          Refines k l p
          → Refines k (record l { calling_pending_functors = true }) (record p { calling = true })
      called r = record {
        queue = r.queue;
        aside = r.aside;
        ran = r.ran;
        wakeups = r.wakeups;
        quit = r.quit;
        calling = refl;
      }

      ended :
          {j : ℕ} {l' : Loop} {p' : Plan}
          → Refines j l' p'
          → Refines j
              (record l' { calling_pending_functors = false })
              (record p' { calling = false })
      ended r = record {
        queue = r.queue;
        aside = r.aside;
        ran = r.ran;
        wakeups = r.wakeups;
        quit = r.quit;
        calling = refl;
      }
