-- ===== src/EventLoop/Ends.antt =====
-- When `doPendingFunctors` ends, what it has run, and when it does not end.
use mathlib.Core.List.{append_assoc, append-nil}
use hvnetpp.Prelude.{
  ℕ, zero, suc, ◌+◌, ◌≤◌, ◌<◌, ◌≡◌, refl, ap, ◌∙◌, sym, inl, inr, Bool, true, false, List, [], ◌∷◌,
  ◌++◌, Option, none, some, ltb, if◌then◌else◌, length, arith, Bool-cases,
}
use hvnetpp.EventLoop.{Loop, Act, queues, quits, do_pending_functors}
use hvnetpp.EventLoop.Plan.{
  Plan, enqueue, wake_if, plan_queue, plan_acts, plan_run, plan_first, plan_next, plan_drain,
  plan_all, plan_swapped, plan_do_pending, acts-pending, behind,
}
use hvnetpp.EventLoop.Refine.{Refines}
use hvnetpp.EventLoop.Refine.Drain.{do_pending_functors-Agree}

abbrev or_else : Plan → Option Plan → Plan
or_else d none = d
or_else d (some p) = p

wake-aside : (b : Bool) (p : Plan) → ((wake_if b p).aside ≡ p.aside) × ((wake_if b p).ran ≡ p.ran)
wake-aside true p = (refl, refl)
wake-aside false p = (refl, refl)

enqueue-aside :
    (f : ℕ) (p : Plan)
    → (more : List ℕ) × ((enqueue f p).aside ≡ p.aside ++ more) × ((enqueue f p).ran ≡ p.ran)
enqueue-aside f p = elim (Bool-cases (ltb (length p.pending) p.room)) [
  | inl h ↦ rw h ([], sym (append-nil p.aside), refl)
  | inr h ↦ rw h (f ∷ [], refl, refl)
]

-- Actions run nothing, and put functors behind those kept aside.
acts-aside :
    (as' : List Act) (p : Plan)
    → (more : List ℕ) × ((plan_acts as' p).aside ≡ p.aside ++ more)
      × ((plan_acts as' p).ran ≡ p.ran)
acts-aside [] p = ([], sym (append-nil p.aside), refl)
acts-aside (quits ∷ as') p = acts-aside as' (record p { quit = true })
acts-aside (queues f ∷ as') p =
    let (m, e, r) = acts-aside as' (plan_queue true f p) in
    let (a, b) = wake-aside p.calling (enqueue f p) in
    let (n, g, s) = enqueue-aside f p in
    (n ++ m, e ∙ ap (λ x. x ++ m) (a ∙ g) ∙ append_assoc p.aside n m, r ∙ b ∙ s)

wake-pending : (b : Bool) (p : Plan) → (wake_if b p).pending ≡ p.pending
wake-pending true p = refl
wake-pending false p = refl

wake-room : (b : Bool) (p : Plan) → (wake_if b p).room ≡ p.room
wake-room true p = refl
wake-room false p = refl

module _ (body : ℕ → List Act) where
  abbrev drain_by : ℕ → Plan → List ℕ → Option Plan
  drain_by n p [] = some p
  drain_by n p (f ∷ fs) = plan_drain body n (plan_first body f p)

  pub drain-eq :
      (n : ℕ) (p : Plan) (fs : List ℕ)
      → p.pending ≡ fs
      → plan_drain body (suc n) p ≡ drain_by n p fs
  unfolding plan_drain
  drain-eq n p fs e = go p.pending ∙ ap (drain_by n p) e
    where
      go :
          (xs : List ℕ)
          → ◌≡◌ {A = Option Plan}
              (elim (plan_next body xs p) as (λ _. Option Plan) [
                | none ↦ some p
                | some p' ↦ plan_drain body n p'
              ])
              (drain_by n p xs)
      go [] = refl
      go (x ∷ xs) = refl

-- What each functor costs.
module _ (cost : ℕ → ℕ) where
  abbrev pub total : List ℕ → ℕ
  total [] = 0
  total (f ∷ fs) = cost f + total fs

  abbrev pub acts_cost : List Act → ℕ
  acts_cost [] = 0
  acts_cost (queues f ∷ as') = cost f + acts_cost as'
  acts_cost (quits ∷ as') = acts_cost as'

  total-append : (xs ys : List ℕ) → total (xs ++ ys) ≡ total xs + total ys
  total-append [] ys = omega arith
  total-append (x ∷ xs) ys = omega (arith, total-append xs ys)

  enqueue-total : (f : ℕ) (p : Plan) → total (enqueue f p).pending ≤ total p.pending + cost f
  enqueue-total f p = elim (Bool-cases (ltb (length p.pending) p.room)) [
    | inl h ↦ rw h (omega (arith, total-append p.pending (f ∷ [])))
    | inr h ↦ rw h (omega arith)
  ]

  acts-total :
      (as' : List Act) (p : Plan)
      → total (plan_acts as' p).pending ≤ total p.pending + acts_cost as'
  acts-total [] p = omega arith
  acts-total (quits ∷ as') p = acts-total as' (record p { quit = true })
  acts-total (queues f ∷ as') p = omega (
    arith,
    acts-total as' (plan_queue true f p),
    ap total (wake-pending p.calling (enqueue f p)),
    enqueue-total f p,
  )

  module _ (body : ℕ → List Act) where
    -- A functor costs more than all that it queues.
    abbrev pub Dominates : Type 0
    Dominates = (f : ℕ) → acts_cost (body f) < cost f

    -- The row is empty; all of it was run, in order, and then what was queued meanwhile.
    record Drained (p p' : Plan) : Type 0 where
      empty : p'.pending ≡ []
      ran : (new : List ℕ) × (p'.ran ≡ p.ran ++ (p.pending ++ new))
      aside : (over : List ℕ) × (p'.aside ≡ p.aside ++ over)

    drain-Drained :
        Dominates
        → (n : ℕ) (p : Plan) → total p.pending < n
        → (p' : Plan) × (plan_drain body n p ≡ some p') × Drained p p'
    unfolding plan_drain
    drain-Drained d zero p h = absurd (omega arith)
    drain-Drained d (suc n) p h = go p.pending refl (λ q l. drain-Drained d n q l)
      where
        go :
            (fs : List ℕ)
            → p.pending ≡ fs
            → ((q : Plan)
                → total q.pending < n
                → (q' : Plan) × (plan_drain body n q ≡ some q') × Drained q q')
            → (p' : Plan) × (plan_drain body (suc n) p ≡ some p') × Drained p p'
        go [] e rec = (
          p,
          drain-eq body n p [] e,
          record {
            empty = e;
            ran = ([], sym (ap (λ x. p.ran ++ (x ++ [])) e ∙ append-nil p.ran));
            aside = ([], sym (append-nil p.aside));
          },
        )
        go (f ∷ fs) e rec =
            let p₀ : Plan = record p { ran = p.ran ++ (f ∷ []) } in
            let (more, m) = acts-pending (body f) p₀ in
            let m' : (plan_run body f p).pending ≡ f ∷ (fs ++ more) = m ∙ ap (λ x. x ++ more) e in
            let (over, a, r) = acts-aside (body f) p₀ in
            let q = plan_first body f p in
            let q_pending : q.pending ≡ fs ++ more = ap behind m' in
            let less : total q.pending < n =
              omega
                (arith, ap total q_pending, ap total m', acts-total (body f) p₀, ap total e, d f) in
            let (q', g, w) = rec q less in
            let (new, x) = w.ran in
            let (over', y) = w.aside in
            (
              q',
              drain-eq body n p (f ∷ fs) e ∙ g,
              record {
                empty = w.empty;
                ran = (
                  more ++ new,
                  x
                      ∙ ap (λ z. z ++ (q.pending ++ new)) r
                      ∙ append_assoc p.ran (f ∷ []) (q.pending ++ new)
                      ∙ ap (λ z. p.ran ++ (f ∷ (z ++ new))) q_pending
                      ∙ ap (λ z. p.ran ++ (f ∷ z)) (append_assoc fs more new)
                      ∙ ap (λ z. p.ran ++ (z ++ (more ++ new))) (sym e),
                );
                aside =
                    (over ++ over', y ∙ ap (λ z. z ++ over') a ∙ append_assoc p.aside over over');
              },
            )

    all-ran : (fs : List ℕ) (p : Plan) → (plan_all body fs p).ran ≡ p.ran ++ fs
    all-ran [] p = sym (append-nil p.ran)
    all-ran (f ∷ fs) p =
        let (over, a, r) = acts-aside (body f) (record p { ran = p.ran ++ (f ∷ []) }) in
        all-ran fs (plan_run body f p) ∙ ap (λ x. x ++ fs) r ∙ append_assoc p.ran (f ∷ []) fs

    plan_do_pending_ends :
        (fuel : ℕ) (p : Plan)
        → Dominates
        → total p.pending < fuel
        → (p' : Plan) × (plan_do_pending body fuel p ≡ some p')
          × (new : List ℕ) × (over : List ℕ) × (p'.ran
              ≡ p.ran ++ (p.pending ++ (new ++ (p.aside ++ over))))
    unfolding plan_do_pending
    plan_do_pending_ends fuel p d h =
        let (q, e, w) = drain-Drained d fuel (record p { calling = true }) h in
        let (new, x) = w.ran in
        let (over, y) = w.aside in
        (
          record (plan_swapped body q) { calling = false },
          rw (plan_do_pending, e) refl,
          new,
          over,
          all-ran q.aside (record q { aside = [] })
              ∙ ap (λ z. z ++ q.aside) x
              ∙ ap (λ z. (p.ran ++ (p.pending ++ new)) ++ z) y
              ∙ append_assoc p.ran (p.pending ++ new) (p.aside ++ over)
              ∙ ap (λ z. p.ran ++ z) (append_assoc p.pending new (p.aside ++ over)),
        )

    -- Where every functor costs more than all that it queues, and the fuel is more than what the
    -- pending ones cost, `doPendingFunctors` ends. It has then run all that was pending in the
    -- lock-free queue, in order, then what was queued there meanwhile, and then the vector's
    -- functors, in order, with those put there meanwhile behind them.
    pub do_pending_functors_ends :
        (fuel k : ℕ) (l : Loop) (p : Plan)
        → Refines k l p
        → Dominates
        → total p.pending < fuel
        → (l' : Loop) × (do_pending_functors body fuel l ≡ some l')
          × (new : List ℕ) × (over : List ℕ) × (l'.ran
              ≡ l.ran ++ (p.pending ++ (new ++ (l.pending_functors ++ over))))
    do_pending_functors_ends fuel k l p r d h =
        let (p', e, new, over, x) = plan_do_pending_ends fuel p d h in
        elim (do_pending_functors-Agree body fuel k l p r) [
          | inl (a, b) ↦ absurd (ground (arith, sym b ∙ e))
          | inr (j, l', q, a, b, s) ↦
              let same : q ≡ p' = ap (or_else q) (sym b ∙ e) in
              (
                l',
                a,
                new,
                over,
                s.ran
                    ∙ ap (λ z. z.ran) same
                    ∙ x
                    ∙ ap (λ z. z ++ (p.pending ++ (new ++ (p.aside ++ over)))) (sym r.ran)
                    ∙ ap (λ z. l.ran ++ (p.pending ++ (new ++ (z ++ over)))) (sym r.aside),
              )
        ]

module _ (body : ℕ → List Act) where
  -- A functor that queues itself, alone in a row with room for two.
  again-Endless :
      (f n : ℕ) (p : Plan)
      → body f ≡ queues f ∷ []
      → p.pending ≡ f ∷ []
      → 1 < p.room
      → plan_drain body n p ≡ none
  unfolding plan_drain
  again-Endless f zero p b e h = refl
  again-Endless f (suc n) p b e h =
      let p₀ : Plan = record p { ran = p.ran ++ (f ∷ []) } in
      let ran : plan_run body f p ≡ wake_if p.calling (enqueue f p₀) =
        ap (λ as'. plan_acts as' p₀) b in
      let fits : ltb (length p.pending) p.room ≡ true = ground (arith, ap length e) in
      let row : (enqueue f p₀).pending ≡ f ∷ f ∷ [] =
        ap
          (λ t.
            (if t
              then record p₀ { pending = p₀.pending ++ (f ∷ []) }
              else record p₀ { aside = p₀.aside ++ (f ∷ []) }).pending)
          fits
        ∙ ap (λ x. x ++ (f ∷ [])) e in
      let room : (enqueue f p₀).room ≡ p.room =
        ap
          (λ t.
            (if t
              then record p₀ { pending = p₀.pending ++ (f ∷ []) }
              else record p₀ { aside = p₀.aside ++ (f ∷ []) }).room)
          fits in
      drain-eq body n p (f ∷ []) e
      ∙ again-Endless f n (plan_first body f p) b
          (ap (λ q. behind q.pending) ran ∙ ap behind (wake-pending p.calling (enqueue f p₀) ∙ row))
          (omega (arith, ap (λ q. q.room) ran, wake-room p.calling (enqueue f p₀), room))

  plan_endless :
      (f n : ℕ) (p : Plan)
      → body f ≡ queues f ∷ []
      → p.pending ≡ f ∷ []
      → 1 < p.room
      → plan_do_pending body n p ≡ none
  unfolding plan_do_pending
  plan_endless f n p b e h =
      rw (plan_do_pending, again-Endless f n (record p { calling = true }) b e h) refl

  -- A functor that queues itself keeps `doPendingFunctors` from ending: where the lock-free queue
  -- holds it alone, no number of rounds is enough, so that the loop never polls again.
  pub do_pending_functors_endless :
      (f k fuel : ℕ) (l : Loop) (p : Plan)
      → Refines k l p
      → body f ≡ queues f ∷ []
      → p.pending ≡ f ∷ []
      → 1 < p.room
      → do_pending_functors body fuel l ≡ none
  do_pending_functors_endless f k fuel l p r b e h =
      elim (do_pending_functors-Agree body fuel k l p r) [
        | inl (x, y) ↦ x
        | inr (j, l', q, x, y, s) ↦ absurd (ground (arith, sym (plan_endless f fuel p b e h) ∙ y))
      ]
