-- ===== src/EventLoop/Order.antt =====
-- In which order functors run that other threads queue one after the other.
use mathlib.Core.List.{append_assoc, append-nil}
use mathlib.Core.Option.{none-ne-some, some-injective}
use hvnetpp.Prelude.{
  ℕ, zero, suc, ◌+◌, ◌≤◌, ◌<◌, ◌≡◌, refl, ap, ◌∙◌, sym, subst, ◌⊎◌, inl, inr, true, false, List, [],
  ◌∷◌, ◌++◌, Option, none, some, ltb, length, length-append, arith, Bool-cases,
}
use hvnetpp.EventLoop.{
  Loop, Act, queue_in_loop, drain_round, drain, run_swapped, do_pending_functors,
}
use hvnetpp.EventLoop.Plan.{
  Plan, plan_queue, plan_first, plan_drain, plan_all, plan_swapped, plan_do_pending, behind,
  plan_round, plan_next,
}
use hvnetpp.EventLoop.Refine.{Refines, queue-Refines}
use hvnetpp.EventLoop.Refine.Drain.{
  round-Rounds, drain-Agree, swapped-Refines, do_pending_functors-Agree,
}
use hvnetpp.EventLoop.Ends.{drain-eq}

-- Functors that do not use their loop.
abbrev pub idle_body : ℕ → List Act
idle_body f = []

-- Calls of `queueInLoop` on another thread.
pub queue_all : List ℕ → Loop → Loop
unfolding queue_in_loop
queue_all [] l = l
queue_all (f ∷ fs) l = queue_all fs (queue_in_loop false f l)

abbrev pub plan_queue_all : List ℕ → Plan → Plan
plan_queue_all [] p = p
plan_queue_all (f ∷ fs) p = plan_queue_all fs (plan_queue false f p)

pub queue_all-Refines :
    (k : ℕ) (fs : List ℕ) (l : Loop) (p : Plan)
    → Refines k l p
    → Refines k (queue_all fs l) (plan_queue_all fs p)
unfolding queue_all
queue_all-Refines k [] l p r = r
queue_all-Refines k (f ∷ fs) l p r =
    queue_all-Refines k fs (queue_in_loop false f l) (plan_queue false f p)
      (queue-Refines k false f l p r)

-- Functors are kept aside only while the row is full.
abbrev pub IsOrdered : Plan → Type 0
IsOrdered p = (p.aside ≡ []) ⊎ (p.room ≤ length p.pending)

abbrev waiting : Plan → List ℕ
waiting p = p.pending ++ p.aside

queued-IsOrdered :
    (f : ℕ) (p : Plan)
    → IsOrdered p
    → IsOrdered (plan_queue false f p)
      × (waiting (plan_queue false f p) ≡ waiting p ++ (f ∷ []))
      × ((plan_queue false f p).ran ≡ p.ran)
      × (length (plan_queue false f p).pending ≤ suc (length p.pending))
queued-IsOrdered f p (inl e) = elim (Bool-cases (ltb (length p.pending) p.room)) [
  | inl h ↦ rw h (
    inl e,
    ap (λ a. (p.pending ++ (f ∷ [])) ++ a) e
        ∙ append-nil (p.pending ++ (f ∷ []))
        ∙ ap (λ x. x ++ (f ∷ [])) (sym (ap (λ a. p.pending ++ a) e ∙ append-nil p.pending)),
    refl,
    omega (arith, length-append p.pending (f ∷ [])),
  )
  | inr h ↦
      rw h (inr (ground arith), sym (append_assoc p.pending p.aside (f ∷ [])), refl, omega arith)
]
queued-IsOrdered f p (inr o) =
    let h : ltb (length p.pending) p.room ≡ false = ground arith in
    rw h (inr o, sym (append_assoc p.pending p.aside (f ∷ [])), refl, omega arith)

queue_all-IsOrdered :
    (fs : List ℕ) (p : Plan)
    → IsOrdered p
    → (waiting (plan_queue_all fs p) ≡ waiting p ++ fs)
      × ((plan_queue_all fs p).ran ≡ p.ran)
      × (length (plan_queue_all fs p).pending ≤ length p.pending + length fs)
queue_all-IsOrdered [] p o = (sym (append-nil (waiting p)), refl, omega arith)
queue_all-IsOrdered (f ∷ fs) p o =
    let (o', w, r, l) = queued-IsOrdered f p o in
    let (w', r', l') = queue_all-IsOrdered fs (plan_queue false f p) o' in
    (w' ∙ ap (λ x. x ++ fs) w ∙ append_assoc (waiting p) (f ∷ []) fs, r' ∙ r, omega arith)

-- The row is run, in order.
idle_drain :
    (n : ℕ) (fs : List ℕ) (p : Plan)
    → p.pending ≡ fs
    → length fs < n
    → plan_drain idle_body n p ≡ some (record p { pending = []; ran = p.ran ++ fs })
idle_drain zero fs p e h = absurd (omega arith)
idle_drain (suc n) [] p e h =
    drain-eq idle_body n p [] e
    ∙ ap (λ x. some (record p { pending = x })) e
    ∙ ap (λ x. some (record p { pending = []; ran = x })) (sym (append-nil p.ran))
idle_drain (suc n) (f ∷ fs) p e h =
    drain-eq idle_body n p (f ∷ fs) e
    ∙ idle_drain n fs (plan_first idle_body f p) (ap behind e) (omega arith)
    ∙ ap (λ x. some (record p { pending = []; ran = x })) (append_assoc p.ran (f ∷ []) fs)

idle_all : (fs : List ℕ) (p : Plan) → plan_all idle_body fs p ≡ record p { ran = p.ran ++ fs }
idle_all [] p = ap (λ x. record p { ran = x }) (sym (append-nil p.ran))
idle_all (f ∷ fs) p =
    idle_all fs (record p { ran = p.ran ++ (f ∷ []) })
    ∙ ap (λ x. record p { ran = x }) (append_assoc p.ran (f ∷ []) fs)

idle_swapped :
    (p : Plan) → plan_swapped idle_body p ≡ record p { aside = []; ran = p.ran ++ p.aside }
idle_swapped p = idle_all p.aside (record p { aside = [] })

idle_do_pending :
    (n : ℕ) (p : Plan)
    → length p.pending < n
    → (q : Plan) × (plan_do_pending idle_body n p ≡ some q) × (q.ran ≡ p.ran ++ waiting p)
unfolding plan_do_pending
idle_do_pending n p h =
    let p₁ : Plan = record p { calling = true } in
    let q : Plan = record p₁ { pending = []; ran = p.ran ++ p.pending } in
    (
      record (plan_swapped idle_body q) { calling = false },
      rw (plan_do_pending, idle_drain n p.pending p₁ refl h) refl,
      ap (λ x. x.ran) (idle_swapped q) ∙ append_assoc p.ran p.pending p.aside,
    )

-- However many functors other threads queue one after the other while the loop does not run functors,
-- `doPendingFunctors` runs them in that order, behind what was waiting: those that find the lock-free
-- queue full go to the vector, whose functors run later. At the start functors may be in the vector
-- only if the lock-free queue is full; the functors do not use their loop.
pub queue_all-in_order :
    (fuel k : ℕ) (fs : List ℕ) (l : Loop) (p : Plan)
    → Refines k l p
    → IsOrdered p
    → length p.pending + length fs < fuel
    → (l' : Loop) × (do_pending_functors idle_body fuel (queue_all fs l) ≡ some l')
      × (l'.ran ≡ l.ran ++ ((p.pending ++ l.pending_functors) ++ fs))
queue_all-in_order fuel k fs l p r o h =
    let (w, ran, less) = queue_all-IsOrdered fs p o in
    let (q, e, x) = idle_do_pending fuel (plan_queue_all fs p) (omega arith) in
    elim (do_pending_functors-Agree idle_body fuel k (queue_all fs l) (plan_queue_all fs p)
      (queue_all-Refines k fs l p r)) [
        | inl (a, b) ↦ absurd (none-ne-some q (sym b ∙ e))
        | inr (j, l', q', a, b, s) ↦ (
          l',
          a,
          s.ran
              ∙ ap (λ z. z.ran) (some-injective q' q (sym b ∙ e))
              ∙ x
              ∙ ap (λ z. z ++ waiting (plan_queue_all fs p)) (ran ∙ sym r.ran)
              ∙ ap (λ z. l.ran ++ z) w
              ∙ ap (λ z. l.ran ++ ((p.pending ++ z) ++ fs)) (sym r.aside),
        )
      ]

-- The loop's thread is in `doPendingFunctors`. Another thread queues `f`, the functor at the front
-- of the lock-free queue is run, and the other thread queues `g`; then the functors are run.
pub overtaken : ℕ → ℕ → ℕ → Loop → Option Loop
unfolding queue_in_loop drain_round drain run_swapped
overtaken fuel f g l = elim (drain_round idle_body (queue_in_loop false f l)) [
  | none ↦ none
  | some l₁ ↦ elim (drain idle_body fuel (queue_in_loop false g l₁)) [
    | none ↦ none
    | some l₂ ↦ some (run_swapped idle_body l₂)
  ]
]

full-queue :
    (f : ℕ) (p : Plan)
    → p.room ≤ length p.pending
    → plan_queue false f p ≡ record p { aside = p.aside ++ (f ∷ []); wakeups = p.wakeups + 1 }
full-queue f p h = let t : ltb (length p.pending) p.room ≡ false = ground arith in rw t refl

free-queue :
    (f : ℕ) (p : Plan)
    → length p.pending < p.room
    → plan_queue false f p ≡ record p { pending = p.pending ++ (f ∷ []); wakeups = p.wakeups + 1 }
free-queue f p h = let t : ltb (length p.pending) p.room ≡ true = ground arith in rw t refl

rearranged :
    (ran : List ℕ) (h : ℕ) (hs : List ℕ) (g : ℕ) (rest : List ℕ)
    → ((ran ++ (h ∷ [])) ++ (hs ++ (g ∷ []))) ++ rest ≡ ran ++ ((h ∷ hs) ++ (g ∷ rest))
rearranged ran h hs g rest =
    append_assoc (ran ++ (h ∷ [])) (hs ++ (g ∷ [])) rest
    ∙ append_assoc ran (h ∷ []) ((hs ++ (g ∷ [])) ++ rest)
    ∙ ap (λ z. ran ++ (h ∷ z)) (append_assoc hs (g ∷ []) rest)

-- A thread queues two functors one after the other: where the first one finds the lock-free queue
-- full, and the loop's thread takes a functor out before the second one comes, the second one runs
-- first. The functors do not use their loop.
pub overtaken_lem :
    (fuel k f g h : ℕ) (hs : List ℕ) (l : Loop) (p : Plan)
    → Refines k l p
    → p.pending ≡ h ∷ hs
    → length p.pending ≡ p.room
    → length p.pending < fuel
    → (l' : Loop) × (overtaken fuel f g l ≡ some l')
      × (l'.ran ≡ l.ran ++ (p.pending ++ (g ∷ (l.pending_functors ++ (f ∷ [])))))
unfolding overtaken
overtaken_lem fuel k f g h hs l p r e full less =
    let n = ap length e in
    let q₁ : Plan = record p { aside = p.aside ++ (f ∷ []); wakeups = p.wakeups + 1 } in
    let r₁ : Refines k (queue_in_loop false f l) q₁ =
      subst (Refines k (queue_in_loop false f l)) (full-queue f p (omega arith))
        (queue-Refines k false f l p r) in
    let q₂ : Plan = record q₁ { ran = p.ran ++ (h ∷ []); pending = hs } in
    let round : plan_round idle_body q₁ ≡ some q₂ =
      ap (λ x. plan_next idle_body x q₁) e ∙ ap (λ x. some (record q₂ { pending = behind x })) e in
    elim (round-Rounds idle_body k (queue_in_loop false f l) q₁ r₁) [
      | inl (a, b) ↦ absurd (none-ne-some q₂ (sym b ∙ round))
      | inr (l₁, p₂, a, b, r₂) ↦
          let s₂ : Refines (suc k) l₁ q₂ =
            subst (Refines (suc k) l₁) (some-injective p₂ q₂ (sym b ∙ round)) r₂ in
          let q₃ : Plan = record q₂ { pending = hs ++ (g ∷ []); wakeups = q₂.wakeups + 1 } in
          let r₃ : Refines (suc k) (queue_in_loop false g l₁) q₃ =
            subst (Refines (suc k) (queue_in_loop false g l₁)) (free-queue g q₂ (omega arith))
              (queue-Refines (suc k) false g l₁ q₂ s₂) in
          let q₄ : Plan = record q₃ { pending = []; ran = q₃.ran ++ (hs ++ (g ∷ [])) } in
          let d =
            idle_drain fuel (hs ++ (g ∷ [])) q₃ refl (omega (arith, length-append hs (g ∷ []))) in
          elim (drain-Agree idle_body fuel (suc k) (queue_in_loop false g l₁) q₃ r₃) [
            | inl (x, y) ↦ absurd (none-ne-some q₄ (sym y ∙ d))
            | inr (j, l₂, p₄, x, y, r₄) ↦
                let s₄ = subst (Refines j l₂) (some-injective p₄ q₄ (sym y ∙ d)) r₄ in
                let s₅ = swapped-Refines idle_body j l₂ q₄ s₄ in
                (
                  run_swapped idle_body l₂,
                  rw (overtaken, a, x) refl,
                  s₅.ran
                      ∙ ap (λ z. z.ran) (idle_swapped q₄)
                      ∙ rearranged p.ran h hs g (p.aside ++ (f ∷ []))
                      ∙ ap (λ z. p.ran ++ (z ++ (g ∷ (p.aside ++ (f ∷ []))))) (sym e)
                      ∙ ap (λ z. z ++ (p.pending ++ (g ∷ (p.aside ++ (f ∷ []))))) (sym r.ran)
                      ∙ ap (λ z. l.ran ++ (p.pending ++ (g ∷ (z ++ (f ∷ []))))) (sym r.aside),
                )
          ]
    ]
