-- ===== src/EventLoop/Wakeup.antt =====
-- Functors and wakeups: `queueInLoop` on several threads, a round of `reserve`, the commit and the write
-- to the eventfd being steps of their own, against the phases of the loop.
pub mod Sound
use hvnetpp.Prelude.{
  ℕ, zero, suc, ◌+◌, ◌-◌, ◌*◌, ◌^◌, ◌%◌, ◌≤◌, ◌<◌, ◌≡◌, ◌≢◌, refl, ap, ◌∙◌, sym, subst, ◌⊎◌, inl,
  inr, Bool, true, false, List, [], ◌∷◌, ◌++◌, Option, none, some, ltb, ◌==◌, ◌&&◌, ◌||◌,
  if◌then◌else◌, length, arith, Bool-cases, length-append,
}
use hvnetpp.MpscQueue
use hvnetpp.MpscQueue.{Queue, Attempt, full, retry, reserved, try_reserve, commit, peek, consume}
use hvnetpp.MpscQueue.Tickets.{
  Tickets, Stands, start, new-Stands, issue, fill, take_one, place, ahead, capacity, reserved_lem,
  commit_lem, peek_lem, consume_lem,
}

-- Where the loop's thread is: outside `loop`, before it or after it; in `epoll_wait`; handling events; in the loop over the lock-free
-- queue; past it, before the swap of the vector; or running the vector's functors.
pub data Phase : Type 0 where
  starting polling handling draining swapping calling : Phase

-- `owing` tells, for each ticket, whether the thread that reserved it has yet to write to the
-- eventfd, and `owing_vector` how many threads that used the vector have. `early` tells whether the
-- loop's thread has queued a functor outside `loop` and no poll has returned since: `queueInLoop`
-- then writes nothing to the eventfd.
pub record State : Type 0 where
  pub queue : Queue
  pub vector : List ℕ
  pub wakeups : ℕ
  pub phase : Phase
  pub tickets : Tickets
  pub owing : ℕ → Bool
  pub owing_vector : ℕ
  pub early : Bool

-- A new loop, whose thread has not called `loop` yet.
abbrev pub begin : State
begin = record {
  queue = MpscQueue.new;
  vector = [];
  wakeups = 0;
  phase = starting;
  tickets = start;
  owing = λ i. false;
  owing_vector = 0;
  early = false;
}

abbrev pub set_owing : ℕ → Bool → (ℕ → Bool) → ℕ → Bool
set_owing i b o j = if i == j then b else o j

-- `callingPendingFunctors_`
abbrev pub is_calling : Phase → Bool
is_calling draining = true
is_calling swapping = true
is_calling calling = true
is_calling _ = false

abbrev pub is_starting : Phase → Bool
is_starting starting = true
is_starting _ = false

-- Where the loop's thread runs callbacks or functors, or is not in `loop`.
abbrev pub runs_callbacks : Phase → Bool
runs_callbacks starting = true
runs_callbacks handling = true
runs_callbacks draining = true
runs_callbacks calling = true
runs_callbacks _ = false

abbrev pub woken_if : Bool → ℕ → ℕ
woken_if true n = n + 1
woken_if false n = n

pub data Step : State → State → Type 0 where
  -- Another thread: a round of `reserve` that succeeds, with a head loaded `k` nodes ago. The
  -- tail that it exchanges is less than 2 ^ 26 nodes past that head: see Reached of MpscQueue/Fifo.
  reserves :
      (s : State) (k r p : ℕ) (q : Queue)
      → k ≤ s.tickets.taken
      → s.tickets.issued < s.tickets.taken - k + 2 ^ 26
      → r ≡ (64 * (s.tickets.taken - k)) % 4294967296
      → try_reserve r s.queue.tail s.queue ≡ reserved p q
      → Step s (record s {
        queue = q;
        tickets = issue s.tickets;
        owing = set_owing s.tickets.issued true s.owing;
      })
  commits :
      (s : State) (i f : ℕ)
      → s.tickets.taken ≤ i
      → i < s.tickets.issued
      → s.owing i ≡ true
      → s.tickets.cells i ≡ none
      → Step s (record s {
        queue = commit (place i) (suc f) 1 s.queue;
        tickets = fill i (suc f) s.tickets;
      })
  wakes :
      (s : State) (i d : ℕ)
      → s.owing i ≡ true
      → s.tickets.cells i ≡ some d
      → Step s (record s { wakeups = s.wakeups + 1; owing = set_owing i false s.owing })
  pushes :
      (s : State) (f : ℕ)
      → Step s (record s { vector = s.vector ++ (f ∷ []); owing_vector = s.owing_vector + 1 })
  wakes_for_vector :
      (s : State) (n : ℕ)
      → s.owing_vector ≡ suc n
      → Step s (record s { wakeups = s.wakeups + 1; owing_vector = n })
  -- The loop's thread: `queueInLoop` from a callback or a functor or outside `loop`, into the queue
  -- or the vector.
  queues_itself :
      (s : State) (f p : ℕ) (q : Queue)
      → runs_callbacks s.phase ≡ true
      → try_reserve s.queue.head s.queue.tail s.queue ≡ reserved p q
      → Step s (record s {
        queue = commit p (suc f) 1 q;
        tickets = fill s.tickets.issued (suc f) (issue s.tickets);
        owing = set_owing s.tickets.issued false s.owing;
        wakeups = woken_if (is_calling s.phase) s.wakeups;
        early = is_starting s.phase || s.early;
      })
  pushes_itself :
      (s : State) (f : ℕ)
      → runs_callbacks s.phase ≡ true
      → Step s (record s {
        vector = s.vector ++ (f ∷ []);
        wakeups = woken_if (is_calling s.phase) s.wakeups;
        early = is_starting s.phase || s.early;
      })
  -- `loop` is called. `poll` returns, and `handleRead` may be called.
  enters : (s : State) → s.phase ≡ starting → Step s (record s { phase = polling })
  returns : (s : State) → s.phase ≡ polling → Step s (record s { phase = handling; early = false })
  reads : (s : State) → s.phase ≡ handling → Step s (record s { wakeups = 0 })
  -- `doPendingFunctors`.
  drains : (s : State) → s.phase ≡ handling → Step s (record s { phase = draining })
  takes :
      (s : State) (p : ℕ)
      → s.phase ≡ draining
      → peek s.queue ≡ some p
      → Step s (record s { queue = consume p s.queue; tickets = take_one s.tickets })
  stops :
      (s : State)
      → s.phase ≡ draining
      → peek s.queue ≡ none
      → Step s (record s { phase = swapping })
  swaps : (s : State) → s.phase ≡ swapping → Step s (record s { phase = calling; vector = [] })
  finishes : (s : State) → s.phase ≡ calling → Step s (record s { phase = polling })
  -- `loop` returns, once `quit` was called.
  leaves : (s : State) → s.phase ≡ calling → Step s (record s { phase = starting })

pub data Reached : State → Type 0 where
  here : Reached begin
  next : {s t : State} → Reached s → Step s t → Reached t
