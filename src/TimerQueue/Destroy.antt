-- ===== src/TimerQueue/Destroy.antt =====
-- What the destructor of the timer queue deletes.
use hvnetpp.Prelude.{
  ℕ, ◌≡◌, refl, ◌∙◌, sym, ap, subst, inl, inr, Bool, true, false, List, [], ◌∷◌, Option, none, some,
  ok, err, dangling, Result, ◌==◌, ◌||◌, if◌then◌else◌, arith, Bool-cases, ==_iff, ◌>>=◌,
}
use hvnetpp.PairSet.{Key, contains, key_lt}
use hvnetpp.PairSet.Order.{IsSorted, contains-Above}
use hvnetpp.Timer.{Timer}
use hvnetpp.TimerQueue.{TimerQueue, free, delete_all, destroy}
use hvnetpp.TimerQueue.Owned.{IsOwned, Slot}

-- Whether an entry names the timer.
abbrev pub is_named : List Key → ℕ → Bool
is_named [] p = false
is_named (e ∷ es) p = e.1 == p || is_named es p

-- No two entries name one timer, and each names one that is allocated.
abbrev AreApart : List Key → Type 0
AreApart [] = Unit {0}
AreApart (e ∷ es) = (is_named es e.1 ≡ false) × AreApart es

abbrev AreLive : List Key → (ℕ → Option Timer) → Type 0
AreLive es heap = (p : ℕ) → is_named es p ≡ true → (t : Timer) × (heap p ≡ some t)

apart_at :
    (es : List Key) (a p : ℕ) → is_named es a ≡ false → is_named es p ≡ true → (a == p) ≡ false
apart_at es a p h n = elim (Bool-cases (a == p)) [
  | inl e ↦ let f : false ≡ true = sym h ∙ ap (is_named es) ((==_iff a p).0 e) ∙ n in cc
  | inr e ↦ e
]

free_twice :
    (b c : Bool) (o : Option Timer)
    → (if c then none else (if b then none else o)) ≡ (if b || c then none else o)
free_twice true true o = refl
free_twice true false o = refl
free_twice false true o = refl
free_twice false false o = refl

-- Where no two entries name one timer and each names a live one, the loop deletes these and no other.
pub delete_all_lem :
    (es : List Key) (q : TimerQueue)
    → AreApart es
    → AreLive es q.heap
    → (q' : TimerQueue) × (delete_all es q ≡ ok q')
      × ((p : ℕ) → q'.heap p ≡ (if is_named es p then none else q.heap p))
unfolding delete_all
delete_all_lem [] q a l = (q, refl, λ p. refl)
delete_all_lem (e ∷ es) q a l =
    let here : (e.1 == e.1 || is_named es e.1) ≡ true = ground arith in
    let (t, h) = l e.1 here in
    let live : AreLive es ((free e.1 q).heap) = λ p n.
      let there : (e.1 == p || is_named es p) ≡ true = ground arith in
      rw (apart_at es e.1 p a.0 n) (l p there) in
    let (q', r, f) = delete_all_lem es (free e.1 q) a.1 live in
    (
      q',
      ap
            (λ o.
              (elim o as (λ x. Result Timer) [ none ↦ err dangling | some t' ↦ ok t' ]) >>= λ t'.
              delete_all es (free e.1 q))
            h
          ∙ r,
      λ p. f p ∙ free_twice (e.1 == p) (is_named es p) (q.heap p),
    )

-- An entry that names a timer.
named-contains :
    (es : List Key) (p : ℕ) → is_named es p ≡ true → (w : ℕ) × (contains (w, p) es ≡ true)
unfolding contains
named-contains [] p h = absurd (ground arith)
named-contains (e ∷ es) p h = elim (Bool-cases (e.1 == p)) [
  | inl b ↦ (e.0, ground arith)
  | inr b ↦
      let i : is_named es p ≡ true = ground arith in
      let (w, c) = named-contains es p i in (w, ground arith)
]

contains-named : (es : List Key) (w p : ℕ) → contains (w, p) es ≡ true → is_named es p ≡ true
unfolding contains
contains-named [] w p h = h
contains-named (e ∷ es) w p h = ground (arith, contains-named es w p)

sorted-AreApart :
    (es : List Key)
    → IsSorted es
    → ((p w w' : ℕ) → contains (w, p) es ≡ true → contains (w', p) es ≡ true → w ≡ w')
    → AreApart es
unfolding contains
sorted-AreApart [] s f = tt
sorted-AreApart (e ∷ es) s f = (
  elim (Bool-cases (is_named es e.1)) [
    | inl h ↦
        let (w, c) = named-contains es e.1 h in
        let d = f e.1 e.0 w (ground arith) (ground arith) in
        let i = subst (λ x. contains (x, e.1) es ≡ true) (sym d) c in
        let j : key_lt e e ≡ false = ground arith in
        let k = contains-Above e e es s.0 j in absurd (ground arith)
    | inr h ↦ h
  ],
  sorted-AreApart es s.1 (λ p w w' c d. f p w w' (ground arith) (ground arith)),
)

Slot-live :
    (ts as' : List Key) (n p : ℕ) (d : Bool) (o : Option Timer)
    → Slot ts as' n d p o
    → is_named ts p ≡ true
    → (t : Timer) × (o ≡ some t)
Slot-live ts as' n p d none s h =
    let (w, c) = named-contains ts p h in let f = s.0 w in absurd (ground arith)
Slot-live ts as' n p d (some t) s h = (t, refl)

Slot-one :
    (ts as' : List Key) (n p : ℕ) (d : Bool) (o : Option Timer)
    → Slot ts as' n d p o
    → (w w' : ℕ) → contains (w, p) ts ≡ true
    → contains (w', p) ts ≡ true
    → w ≡ w'
Slot-one ts as' n p d none s w w' c c' = let f = s.0 w in absurd (ground arith)
Slot-one ts as' n p d (some t) s w w' c c' = let f = s.0 w in let g = s.0 w' in ground arith

if_same : (b : Bool) (o : Option Timer) → (if b then o else o) ≡ o
if_same true o = refl
if_same false o = refl

Slot-left :
    (ts as' : List Key) (n p : ℕ) (d : Bool) (o : Option Timer)
    → Slot ts as' n d p o
    → (if is_named ts p then none else o) ≡ (if d then o else none)
Slot-left ts as' n p d none s = if_same (is_named ts p) none ∙ sym (if_same d none)
Slot-left ts as' n p true (some t) s = elim (Bool-cases (is_named ts p)) [
  | inl h ↦ let (w, c) = named-contains ts p h in let f = s.0 w in absurd (ground arith)
  | inr h ↦ rw (h) refl
]
Slot-left ts as' n p false (some t) s =
    let e : (t.expiration == t.expiration) ≡ true = ground arith in
    let c : contains (t.expiration, p) ts ≡ true = s.0 t.expiration ∙ ground arith in
    rw (contains-named ts t.expiration p c) refl

-- The destructor of a sound timer queue deletes each timer that it holds, once, and no other: those
-- that are left are the detached ones.
pub destroy_lem :
    (d : ℕ → Bool) (q : TimerQueue)
    → IsOwned d q
    → (q' : TimerQueue) × (destroy q ≡ ok q')
      × ((p : ℕ) → q'.heap p ≡ (if d p then q.heap p else none))
unfolding destroy
destroy_lem d q i =
    let (q', r, f) =
      delete_all_lem q.timers q
        (sorted-AreApart q.timers i.timers_sorted
          (λ p. Slot-one q.timers q.active_timers q.num_created p (d p) (q.heap p) (i.slot p)))
        (λ p. Slot-live q.timers q.active_timers q.num_created p (d p) (q.heap p) (i.slot p)) in
    (
      q',
      r,
      λ p. f p ∙ Slot-left q.timers q.active_timers q.num_created p (d p) (q.heap p) (i.slot p),
    )
