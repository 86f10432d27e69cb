-- ===== src/EventLoop/Threads.antt =====
-- `EventLoop::EventLoop`, `~EventLoop` and `assertInLoopThread`, src/EventLoop.cpp, and the variable
-- `t_loopInThisThread` of each thread. Threads and loops are known by numbers: a loop by its address.
use hvnetpp.Prelude.{
  ℕ, ◌≡◌, ◌≢◌, ◌↔◌, ◌⊎◌, ap, refl, ◌∙◌, sym, subst, inl, inr, Bool, true, false, Option, none, some,
  ◌==◌, if◌then◌else◌, Bool-cases, ==_iff, arith, Result, ok, err, aborted, dangling, ◌>>=◌,
}
use mathlib.Core.Option.{some-injective, none-ne-some}

-- `current` is `t_loopInThisThread` of each thread, null as none; `owner` is the thread that each
-- live loop was made on.
pub record Process : Type 0 where
  pub current : ℕ → Option ℕ
  pub owner : ℕ → Option ℕ

abbrev pub begin : Process
begin = record { current = λ t. none; owner = λ l. none }

abbrev pub set : ℕ → Option ℕ → (ℕ → Option ℕ) → ℕ → Option ℕ
set k v m x = if k == x then v else m x

-- What `timerfd_create` and `eventfd` return is only tested: an error aborts. `l` is the address of
-- the new loop.
unfoldable pub construct : Bool → Bool → ℕ → ℕ → Process → Result Process
construct timerfd eventfd t l p =
    if timerfd
    then (if eventfd
        then elim (p.current t) [
          | some other ↦ err aborted
          | none ↦
              ok (record { current = set t (some l) p.current; owner = set l (some t) p.owner })
        ]
        else err aborted)
    else err aborted

pub is_in_loop_thread : ℕ → ℕ → Bool
is_in_loop_thread owner t = owner == t

pub assert_in_loop_thread : ℕ → ℕ → Process → Result Process
unfolding is_in_loop_thread
assert_in_loop_thread owner t p = if is_in_loop_thread owner t then ok p else err aborted

-- `disableAll` and `remove` of the channel of the eventfd, which is in the poller, assert that this
-- is the loop's thread; then the variable of this thread is reset.
unfoldable pub destruct : ℕ → ℕ → Process → Result Process
unfolding assert_in_loop_thread
destruct t l p = elim (p.owner l) [
  | none ↦ err dangling
  | some owner ↦ assert_in_loop_thread owner t p >>= λ q.
      ok (record { current = set t none q.current; owner = set l none q.owner })
]

-- Loops are made and destroyed on any threads; a new one has an address that no live loop has.
pub data Reached : Process → Type 0 where
  here : Reached begin
  constructs :
      {p q : Process} (timerfd eventfd : Bool) (t l : ℕ)
      → Reached p
      → p.owner l ≡ none
      → construct timerfd eventfd t l p ≡ ok q
      → Reached q
  destructs : {p q : Process} (t l : ℕ) → Reached p → destruct t l p ≡ ok q → Reached q

-- The two maps are inverse: the variable of a thread is the loop that it owns.
abbrev pub IsInverse : Process → Type 0
IsInverse p = (t l : ℕ) → (p.current t ≡ some l) ↔ (p.owner l ≡ some t)

at_set :
    (k x : ℕ) (v : Option ℕ) (m : ℕ → Option ℕ)
    → ((k ≡ x) × (set k v m x ≡ v)) ⊎ ((k ≢ x) × (set k v m x ≡ m x))
at_set k x v m = elim (Bool-cases (k == x)) [
  | inl e ↦ inl ((==_iff k x).0 e, rw (e) refl)
  | inr e ↦ inr (ground arith, rw (e) refl)
]

-- Two values are put in, each for the other.
join-IsInverse :
    (t l : ℕ) (p : Process)
    → IsInverse p
    → p.current t ≡ none
    → p.owner l ≡ none
    → IsInverse (record { current = set t (some l) p.current; owner = set l (some t) p.owner })
join-IsInverse t l p i c o t' l' = elim (at_set t t' (some l) p.current) [
  | inl (e, x) ↦ elim (at_set l l' (some t) p.owner) [
    | inl (f, y) ↦ (λ h. y ∙ ap some e, λ h. x ∙ ap some f)
    | inr (f, y) ↦ (
      λ h. absurd (f (some-injective l l' (sym x ∙ h))),
      λ h. absurd (none-ne-some l' (sym c ∙ (i t l').1 (sym y ∙ h ∙ ap some (sym e)))),
    )
  ]
  | inr (e, x) ↦ elim (at_set l l' (some t) p.owner) [
    | inl (f, y) ↦ (
      λ h. absurd (none-ne-some t' (sym o ∙ (i t' l).0 (sym x ∙ h ∙ ap some (sym f)))),
      λ h. absurd (e (some-injective t t' (sym y ∙ h))),
    )
    | inr (f, y) ↦ (λ h. y ∙ (i t' l').0 (sym x ∙ h), λ h. x ∙ (i t' l').1 (sym y ∙ h))
  ]
]

-- Two values, each the other's, are taken out.
part-IsInverse :
    (t l : ℕ) (p : Process)
    → IsInverse p
    → p.owner l ≡ some t
    → IsInverse (record { current = set t none p.current; owner = set l none p.owner })
part-IsInverse t l p i o t' l' =
    let c = (i t l).1 o in
    elim (at_set t t' none p.current) [
      | inl (e, x) ↦ elim (at_set l l' none p.owner) [
        | inl (f, y) ↦
            (λ h. absurd (none-ne-some l' (sym x ∙ h)), λ h. absurd (none-ne-some t' (sym y ∙ h)))
        | inr (f, y) ↦ (
          λ h. absurd (none-ne-some l' (sym x ∙ h)),
          λ h. absurd (f (some-injective l l' (sym c ∙ (i t l').1 (sym y ∙ h ∙ ap some (sym e))))),
        )
      ]
      | inr (e, x) ↦ elim (at_set l l' none p.owner) [
        | inl (f, y) ↦ (
          λ h. absurd (e (some-injective t t' (sym o ∙ (i t' l).0 (sym x ∙ h ∙ ap some (sym f))))),
          λ h. absurd (none-ne-some t' (sym y ∙ h)),
        )
        | inr (f, y) ↦ (λ h. y ∙ (i t' l').0 (sym x ∙ h), λ h. x ∙ (i t' l').1 (sym y ∙ h))
      ]
    ]

value : Process → Result Process → Process
value p (ok q) = q
value p (err fault) = p

ok-injective : {p q : Process} → ok p ≡ ok q → p ≡ q
unfolding value
ok-injective {p} h = ap (value p) h

after-ok :
    (o : Option ℕ) (p q : Process)
    → (elim o as (λ x. Result Process) [ some other ↦ err aborted | none ↦ ok p ]) ≡ ok q
    → (o ≡ none) × (p ≡ q)
after-ok none p q h = (refl, ok-injective h)
after-ok (some other) p q h = cc

construct-ok :
    (timerfd eventfd : Bool) (t l : ℕ) (p q : Process)
    → construct timerfd eventfd t l p ≡ ok q
    → (p.current t ≡ none)
      × (record { current = set t (some l) p.current; owner = set l (some t) p.owner } ≡ q)
unfolding construct
construct-ok true true t l p q h = after-ok (p.current t) _ q h
construct-ok true false t l p q h = cc
construct-ok false e t l p q h = cc

-- `p` without the loop `l` of the thread `t`
abbrev without : ℕ → ℕ → Process → Process
without t l p = record { current = set t none p.current; owner = set l none p.owner }

asserted-ok :
    (b : Bool) (t l : ℕ) (p q : Process)
    → ((if b then ok p else err aborted) >>= λ q'. ok (without t l q')) ≡ ok q
    → (b ≡ true) × (without t l p ≡ q)
asserted-ok true t l p q h = (refl, ok-injective h)
asserted-ok false t l p q h = cc

owned-ok :
    (o : Option ℕ) (t l : ℕ) (p q : Process)
    → (elim o as (λ x. Result Process) [
      | none ↦ err dangling
      | some owner ↦ assert_in_loop_thread owner t p >>= λ q'. ok (without t l q')
    ])
      ≡ ok q
    → (o ≡ some t) × (without t l p ≡ q)
unfolding assert_in_loop_thread is_in_loop_thread
owned-ok none t l p q h = cc
owned-ok (some owner) t l p q h =
    let (b, e) = asserted-ok (owner == t) t l p q h in (ap some ((==_iff owner t).0 b), e)

destruct-ok :
    (t l : ℕ) (p q : Process) → destruct t l p ≡ ok q → (p.owner l ≡ some t) × (without t l p ≡ q)
unfolding destruct
destruct-ok t l p q h = owned-ok (p.owner l) t l p q h

-- At any time a thread's variable is the loop made on it that is still live, and null if there is
-- none.
pub Reached-IsInverse :
    {p : Process} → Reached p → (t l : ℕ) → (p.current t ≡ some l) ↔ (p.owner l ≡ some t)
Reached-IsInverse here t l = (λ h. absurd (none-ne-some l h), λ h. absurd (none-ne-some t h))
Reached-IsInverse (constructs {p} {q} timerfd eventfd t l r fresh h) t' l' =
    let (n, e) = construct-ok timerfd eventfd t l p q h in
    subst IsInverse e (join-IsInverse t l p (Reached-IsInverse r) n fresh) t' l'
Reached-IsInverse (destructs {p} {q} t l r h) t' l' =
    let (o, e) = destruct-ok t l p q h in
    subst IsInverse e (part-IsInverse t l p (Reached-IsInverse r) o) t' l'

-- Of a live loop: its destructor aborts on any other thread, and on its own it ends; there, after
-- it, a new loop is made if the system calls succeed, and before it none.
pub destruct_lem :
    {p : Process} (t l : ℕ)
    → Reached p
    → p.owner l ≡ some t
    → ((t' : ℕ) → t ≢ t' → destruct t' l p ≡ err aborted)
      × ((l' : ℕ) → construct true true t l' p ≡ err aborted)
      × ((q : Process) × (destruct t l p ≡ ok q)
          × ((l' : ℕ) → (r : Process) × (construct true true t l' q ≡ ok r)))
unfolding destruct construct assert_in_loop_thread is_in_loop_thread
destruct_lem {p} t l r o = (
  λ t' n. let i : (t == t') ≡ false = ground arith in rw (destruct, o, i) refl,
  λ l'. rw ((Reached-IsInverse r t l).1 o) refl,
  (without t l p, rw (destruct, o, same) refl, λ l'. (joined l', rw (same) refl)),
)
  where
    same : (t == t) ≡ true
    same = ground arith

    joined : ℕ → Process
    joined l' = record {
      current = set t (some l') (set t none p.current);
      owner = set l' (some t) (set l none p.owner);
    }
