-- ===== src/EventLoop/Wakeup/Sound.antt =====
-- What holds in every state of `Wakeup`.
use hvnetpp.Prelude.{
  ℕ, suc, ◌*◌, ◌%◌, ◌≤◌, ◌<◌, ◌≡◌, ap, ◌∙◌, sym, subst, ◌||◌, ◌⊎◌, inl, inr, Bool, true, false,
  Option, none, some, length, arith,
}
use hvnetpp.MpscQueue.{commit, consume}
use hvnetpp.MpscQueue.Tickets.{
  Stands, new-Stands, issue, fill, take_one, reserved_lem, commit_lem, peek_lem, consume_lem,
}
use hvnetpp.EventLoop.Wakeup.{
  Phase, starting, polling, swapping, calling, State, is_calling, is_starting, runs_callbacks,
  woken_if, Step, reserves, commits, wakes, pushes, wakes_for_vector, queues_itself, pushes_itself,
  enters, returns, reads, drains, takes, stops, swaps, finishes, leaves, Reached, here, next,
}

-- Past the loop over the lock-free queue, and past the swap, until the next events are handled.
abbrev past_row : Phase → Bool
past_row starting = true
past_row swapping = true
past_row calling = true
past_row polling = true
past_row _ = false

abbrev past_vector : Phase → Bool
past_vector starting = true
past_vector calling = true
past_vector polling = true
past_vector _ = false

-- A wakeup is there, or a thread is still to write one for a node in use.
abbrev pub RowDue : State → Type 0
RowDue s = (0 < s.wakeups) ⊎ ((i : ℕ) × (s.owing i ≡ true))

abbrev pub VectorDue : State → Type 0
VectorDue s = (0 < s.wakeups) ⊎ (0 < s.owing_vector)

record IsSound (s : State) : Type 0 where
  stands : Stands s.queue s.tickets
  owed :
      (i : ℕ)
      → s.tickets.taken ≤ i
      → i < s.tickets.issued
      → s.tickets.cells i ≡ none
      → s.owing i ≡ true
  row : past_row s.phase ≡ true → s.early ≡ false → s.tickets.taken < s.tickets.issued → RowDue s
  vector : past_vector s.phase ≡ true → s.early ≡ false → 0 < length s.vector → VectorDue s

woken : (n : ℕ) → 0 < woken_if true n
woken n = omega arith

keeps_woken : (b : Bool) (n : ℕ) → 0 < n → 0 < woken_if b n
keeps_woken true n h = omega arith
keeps_woken false n h = h

-- Past the loop over the queue, and in `loop`, its thread runs functors only as `calling`.
calling_past :
    (p : Phase) (b : Bool)
    → past_row p ≡ true
    → runs_callbacks p ≡ true
    → (is_starting p || b) ≡ false
    → is_calling p ≡ true
calling_past p b x y z = ground arith

self_woken :
    (s : State)
    → past_row s.phase ≡ true
    → runs_callbacks s.phase ≡ true
    → (is_starting s.phase || s.early) ≡ false
    → 0 < woken_if (is_calling s.phase) s.wakeups
self_woken s a b e = rw (calling_past s.phase s.early a b e) (woken s.wakeups)

not_early : (s : State) → (is_starting s.phase || s.early) ≡ false → s.early ≡ false
not_early s h = ground arith

past_both : (p : Phase) → past_vector p ≡ true → past_row p ≡ true
past_both p h = ground arith

abbrev number_of : Option ℕ → ℕ
number_of none = 0
number_of (some p) = p

Step-IsSound : {s t : State} → Step s t → IsSound s → IsSound t
Step-IsSound (reserves s k r p q a b c e) v = record {
  stands = (reserved_lem k r p s.queue q s.tickets v.stands a b c e).1;
  owed = λ i l m n. ground (arith, v.owed i l);
  row = λ y n z. inr (s.tickets.issued, ground arith);
  vector = v.vector;
}
Step-IsSound (commits s i f a b o e) v = record {
  stands = commit_lem i (suc f) s.queue s.tickets v.stands a b;
  owed = λ j l m n. v.owed j l m (ground (arith, n));
  row = v.row;
  vector = v.vector;
}
Step-IsSound (wakes s i d o e) v = record {
  stands = v.stands;
  owed = λ j l m n. ground (arith, v.owed j l m n, e);
  row = λ y n z. inl (omega arith);
  vector = λ y n z. inl (omega arith);
}
Step-IsSound (pushes s f) v = record {
  stands = v.stands;
  owed = v.owed;
  row = v.row;
  vector = λ y n z. inr (omega arith);
}
Step-IsSound (wakes_for_vector s n e) v = record {
  stands = v.stands;
  owed = v.owed;
  row = λ y n z. inl (omega arith);
  vector = λ y n z. inl (omega arith);
}
Step-IsSound (queues_itself s f p q c e) v =
    let (at, stands) =
      reserved_lem 0 s.queue.head p s.queue q s.tickets v.stands (omega arith)
        (omega (arith, v.stands.within))
        (v.stands.head ∙ ap (λ x. (64 * x) % 4294967296) (omega arith)) e in
    record {
      stands =
          subst
            (λ x. Stands (commit x (suc f) 1 q) (fill s.tickets.issued (suc f) (issue s.tickets)))
            (sym at)
            (commit_lem s.tickets.issued (suc f) q (issue s.tickets) stands v.stands.ordered
              (omega arith));
      owed = λ i l m n. ground (arith, v.owed i l);
      row = λ y n z. inl (self_woken s y c n);
      vector = λ y n z. elim (v.vector y (not_early s n) z) [
        | inl h ↦ inl (keeps_woken (is_calling s.phase) s.wakeups h)
        | inr h ↦ inr h
      ];
    }
Step-IsSound (pushes_itself s f c) v = record {
  stands = v.stands;
  owed = v.owed;
  row = λ y n z. inl (self_woken s y c n);
  vector = λ y n z. inl (self_woken s (past_both s.phase y) c n);
}
Step-IsSound (returns s e) v = record {
  stands = v.stands;
  owed = v.owed;
  row = λ y n z. cc;
  vector = λ y n z. cc;
}
Step-IsSound (reads s e) v = record {
  stands = v.stands;
  owed = v.owed;
  row = λ y n z. ground (arith, e);
  vector = λ y n z. ground (arith, e);
}
Step-IsSound (drains s e) v = record {
  stands = v.stands;
  owed = v.owed;
  row = λ y n z. cc;
  vector = λ y n z. cc;
}
Step-IsSound (takes s p e f) v = elim (peek_lem s.queue s.tickets v.stands) [
  | inr (x, y) ↦ absurd (ground (arith, sym f ∙ y))
  | inl (d, x, l, g, y) ↦ record {
    stands =
        subst (λ z. Stands (consume z s.queue) (take_one s.tickets)) (ap number_of (sym g ∙ f))
          (consume_lem s.queue s.tickets v.stands l);
    owed = λ i l m n. v.owed i (omega (arith, l)) m n;
    row = λ y n z. cc;
    vector = λ y n z. cc;
  }
]
Step-IsSound (stops s e f) v = elim (peek_lem s.queue s.tickets v.stands) [
  | inl (d, x, l, g, y) ↦ absurd (ground (arith, sym f ∙ g))
  | inr (x, y) ↦ record {
    stands = v.stands;
    owed = v.owed;
    row =
        λ y n z. inr (s.tickets.taken, v.owed s.tickets.taken (omega arith) z (ground (arith, x)));
    vector = λ y n z. cc;
  }
]
Step-IsSound (swaps s e) v = record {
  stands = v.stands;
  owed = v.owed;
  row = λ y n z. v.row (ap past_row e) n z;
  vector = λ y n z. absurd (omega arith);
}
Step-IsSound (finishes s e) v = record {
  stands = v.stands;
  owed = v.owed;
  row = λ y n z. v.row (ap past_row e) n z;
  vector = λ y n z. v.vector (ap past_vector e) n z;
}
Step-IsSound (leaves s e) v = record {
  stands = v.stands;
  owed = v.owed;
  row = λ y n z. v.row (ap past_row e) n z;
  vector = λ y n z. v.vector (ap past_vector e) n z;
}
Step-IsSound (enters s e) v = record {
  stands = v.stands;
  owed = v.owed;
  row = λ y n z. v.row (ap past_row e) n z;
  vector = λ y n z. v.vector (ap past_vector e) n z;
}

Reached-IsSound : {s : State} → Reached s → IsSound s
Reached-IsSound here = record {
  stands = new-Stands;
  owed = λ i l m n. absurd (omega arith);
  row = λ y n z. absurd (omega arith);
  vector = λ y n z. absurd (omega arith);
}
Reached-IsSound (next r st) = Step-IsSound st (Reached-IsSound r)

-- A node is reserved and not consumed, or the vector holds a functor.
abbrev pub IsWaiting : State → Type 0
IsWaiting s = (s.tickets.taken < s.tickets.issued) ⊎ (0 < length s.vector)

-- No wakeup is lost, in every state that any threads and the loop reach from a new loop, where the
-- tail that a thread exchanges is less than 2 ^ 26 nodes past the head that it loaded: while the
-- loop's thread is in `epoll_wait`, has not itself queued a functor outside `loop` since a poll
-- returned the last time, and a functor waits in the queue or the vector, the eventfd has a count, so
-- that `epoll_wait` returns, or a thread that has queued a functor is still to write to it.
pub Reached-Due :
    {s : State}
    → Reached s
    → s.phase ≡ polling
    → s.early ≡ false
    → IsWaiting s
    → RowDue s ⊎ VectorDue s
Reached-Due {s} r e n (inl h) = inl ((Reached-IsSound r).row (ap past_row e) n h)
Reached-Due {s} r e n (inr h) = inr ((Reached-IsSound r).vector (ap past_vector e) n h)
