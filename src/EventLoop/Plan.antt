-- ===== src/EventLoop/Plan.antt =====
-- What an event loop promises of its pending functors: a row of at most `room` that are run in order,
-- and others kept aside that are run after it.
use mathlib.Core.List.{append_assoc, append-nil}
use hvnetpp.Prelude.{
  ◌≡◌, refl, ap, ◌∙◌, sym, inl, inr, Bool-cases, ℕ, zero, suc, ◌+◌, Bool, true, false, List, [],
  ◌∷◌, ◌++◌, Option, none, some, ltb, ◌||◌, not, if◌then◌else◌, length,
}
use hvnetpp.EventLoop.{Act, queues, quits}

pub record Plan : Type 0 where
  pub room : ℕ
  pub pending : List ℕ
  pub aside : List ℕ
  pub ran : List ℕ
  pub wakeups : ℕ
  pub quit : Bool
  pub calling : Bool

abbrev pub enqueue : ℕ → Plan → Plan
enqueue f p =
    if ltb (length p.pending) p.room
    then record p { pending = p.pending ++ (f ∷ []) }
    else record p { aside = p.aside ++ (f ∷ []) }

abbrev pub wake_if : Bool → Plan → Plan
wake_if true p = record p { wakeups = p.wakeups + 1 }
wake_if false p = p

abbrev pub plan_queue : Bool → ℕ → Plan → Plan
plan_queue in_loop f p = wake_if (not in_loop || p.calling) (enqueue f p)

abbrev pub plan_act : Act → Plan → Plan
plan_act (queues f) p = plan_queue true f p
plan_act quits p = record p { quit = true }

abbrev pub plan_acts : List Act → Plan → Plan
plan_acts [] p = p
plan_acts (a ∷ as') p = plan_acts as' (plan_act a p)

abbrev pub behind : List ℕ → List ℕ
behind [] = []
behind (f ∷ fs) = fs

module _ (body : ℕ → List Act) where
  abbrev pub plan_run : ℕ → Plan → Plan
  plan_run f p = plan_acts (body f) (record p { ran = p.ran ++ (f ∷ []) })

  -- The first functor stays in the row while it runs.
  abbrev pub plan_first : ℕ → Plan → Plan
  plan_first f p = let p' = plan_run f p in record p' { pending = behind p'.pending }

  abbrev pub plan_next : List ℕ → Plan → Option Plan
  plan_next [] p = none
  plan_next (f ∷ fs) p = some (plan_first f p)

  abbrev pub plan_round : Plan → Option Plan
  plan_round p = plan_next p.pending p

  unfoldable pub plan_drain : ℕ → Plan → Option Plan
  plan_drain zero p = none
  plan_drain (suc n) p = elim (plan_round p) [ none ↦ some p | some p' ↦ plan_drain n p' ]

  abbrev pub plan_all : List ℕ → Plan → Plan
  plan_all [] p = p
  plan_all (f ∷ fs) p = plan_all fs (plan_run f p)

  abbrev pub plan_swapped : Plan → Plan
  plan_swapped p = plan_all p.aside (record p { aside = [] })

  unfoldable pub plan_do_pending : ℕ → Plan → Option Plan
  unfolding plan_drain
  plan_do_pending fuel p = elim (plan_drain fuel (record p { calling = true })) [
    | none ↦ none
    | some p' ↦ some (record (plan_swapped p') { calling = false })
  ]

-- What is queued meanwhile stands behind what is pending.
pub acts-pending :
    (as' : List Act) (p : Plan) → (more : List ℕ) × ((plan_acts as' p).pending ≡ p.pending ++ more)
acts-pending [] p = ([], sym (append-nil p.pending))
acts-pending (quits ∷ as') p = acts-pending as' (record p { quit = true })
acts-pending (queues f ∷ as') p =
    let (more, e) = acts-pending as' (plan_queue true f p) in
    elim (Bool-cases (ltb (length p.pending) p.room)) [
      | inl h ↦ (
        (f ∷ []) ++ more,
        e ∙ ap (λ x. x ++ more) (queued h) ∙ append_assoc p.pending (f ∷ []) more,
      )
      | inr h ↦ (more, e ∙ ap (λ x. x ++ more) (kept h))
    ]
  where
    wake-pending : (b : Bool) (q : Plan) → (wake_if b q).pending ≡ q.pending
    wake-pending true q = refl
    wake-pending false q = refl

    queued :
        ltb (length p.pending) p.room ≡ true → (plan_queue true f p).pending ≡ p.pending ++ (f ∷ [])
    queued h = wake-pending p.calling (enqueue f p) ∙ rw h refl

    kept : ltb (length p.pending) p.room ≡ false → (plan_queue true f p).pending ≡ p.pending
    kept h = wake-pending p.calling (enqueue f p) ∙ rw h refl
