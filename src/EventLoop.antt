-- ===== src/EventLoop.antt =====
-- src/EventLoop.cpp and include/hvnetpp/EventLoop.h: a loop on its own thread, with the functors
-- pending for it in the lock-free queue and, where that is full or has no memory, in a vector. A
-- functor is known by a number, and what it does is a list of actions; in the queue it is the pointer
-- `suc f`. The counter of the eventfd is `wakeups`, and `ran` lists the functors that have run.
pub mod Plan
pub mod Refine
pub mod Ends
pub mod Order
pub mod Rounds
pub mod Threads
pub mod Wakeup
mod Tests
use hvnetpp.Prelude.{
  ℕ, zero, suc, ◌+◌, Bool, true, false, List, [], ◌∷◌, ◌++◌, Option, none, some, ◌||◌, not,
  if◌then◌else◌,
}
use hvnetpp.MpscQueue.{Queue, Attempt, full, retry, reserved, try_reserve, commit, peek, consume}

pub record Loop : Type 0 where
  pub looping : Bool
  pub quit : Bool
  pub event_handling : Bool
  pub calling_pending_functors : Bool
  pub pending_queue : Option Queue
  pub pending_functors : List ℕ
  pub wakeups : ℕ
  pub ran : List ℕ

-- What a callback or a functor asks of its loop.
pub data Act : Type 0 where
  queues : ℕ → Act
  quits : Act

-- The constructor; `queue` is none where the queue has no memory.
pub new : Option Queue → Loop
new queue = record {
  looping = false;
  quit = false;
  event_handling = false;
  calling_pending_functors = false;
  pending_queue = queue;
  pending_functors = [];
  wakeups = 0;
  ran = [];
}

pub wakeup : Loop → Loop
wakeup l = record l { wakeups = l.wakeups + 1 }

-- `handleRead`: the counter is read, which sets it to 0.
pub handle_read : Loop → Loop
handle_read l = record l { wakeups = 0 }

pub quit_loop : Bool → Loop → Loop
unfolding wakeup
quit_loop in_loop l = let l' : Loop = record l { quit = true } in if in_loop then l' else wakeup l'

-- A queue that nobody else reserves in meanwhile.
abbrev pub place_in : ℕ → Queue → Attempt → Option Queue
place_in f q full = none
place_in f q retry = none
place_in f q (reserved p q') = some (commit p (suc f) 1 q')

-- `reserve` and `commit`, none where the vector is to take the functor.
pub offer : ℕ → Option Queue → Option Queue
offer f none = none
offer f (some q) = place_in f q (try_reserve q.head q.tail q)

-- The functor is in the queue or, where `offer` gives none, in the vector.
pub store : ℕ → Option Queue → Loop → Loop
store f none l = record l { pending_functors = l.pending_functors ++ (f ∷ []) }
store f (some q) l = record l { pending_queue = some q }

pub queue_in_loop : Bool → ℕ → Loop → Loop
unfolding wakeup offer store
queue_in_loop in_loop f l =
    let l' = store f (offer f l.pending_queue) l in
    if not in_loop || l.calling_pending_functors then wakeup l' else l'

-- On the loop's thread.
pub act : Act → Loop → Loop
unfolding queue_in_loop quit_loop
act (queues f) l = queue_in_loop true f l
act quits l = quit_loop true l

pub act_all : List Act → Loop → Loop
unfolding act
act_all [] l = l
act_all (a ∷ as') l = act_all as' (act a l)

pub peek_pending : Option Queue → Option ℕ
peek_pending none = none
peek_pending (some q) = peek q

abbrev pub datum_at : ℕ → Option Queue → ℕ
datum_at p none = 0
datum_at p (some q) = (q.nodes p).datum

pub consume_pending : ℕ → Option Queue → Option Queue
consume_pending p none = none
consume_pending p (some q) = some (consume p q)

-- What a functor does.
module _ (body : ℕ → List Act) where
  pub run_functor : ℕ → Loop → Loop
  unfolding act_all
  run_functor f l = act_all (body f) (record l { ran = l.ran ++ (f ∷ []) })

  -- `if (task.functorPtr) (*task.functorPtr)()`
  pub run_node : ℕ → Loop → Loop
  unfolding run_functor
  run_node zero l = l
  run_node (suc f) l = run_functor f l

  -- A round of the loop over the lock-free queue, none where `peek` gives no node.
  pub drain_round : Loop → Option Loop
  unfolding run_node peek_pending consume_pending
  drain_round l = elim (peek_pending l.pending_queue) [
    | none ↦ none
    | some p ↦
        let l' = run_node (datum_at p l.pending_queue) l in
        some (record l' { pending_queue = consume_pending p l'.pending_queue })
  ]

  -- The loop, none where it has more rounds than the fuel.
  pub drain : ℕ → Loop → Option Loop
  unfolding drain_round
  drain zero l = none
  drain (suc n) l = elim (drain_round l) [ none ↦ some l | some l' ↦ drain n l' ]

  pub run_all : List ℕ → Loop → Loop
  unfolding run_functor
  run_all [] l = l
  run_all (f ∷ fs) l = run_all fs (run_functor f l)

  -- The vector's functors are swapped out and run.
  pub run_swapped : Loop → Loop
  unfolding run_all
  run_swapped l = run_all l.pending_functors (record l { pending_functors = [] })

  pub do_pending_functors : ℕ → Loop → Option Loop
  unfolding drain run_swapped
  do_pending_functors fuel l = elim (drain fuel (record l { calling_pending_functors = true })) [
    | none ↦ none
    | some l' ↦ some (record (run_swapped l') { calling_pending_functors = false })
  ]

  pub run_in_loop : Bool → ℕ → Loop → Loop
  unfolding run_functor queue_in_loop
  run_in_loop in_loop f l = if in_loop then run_functor f l else queue_in_loop false f l

-- What happens in a round, in order: `handleRead` of the wakeup channel, a callback of another
-- channel, or a call of `quit` on another thread.
pub data Handler : Type 0 where
  reads_wakeup : Handler
  callback : List Act → Handler
  quit_elsewhere : Handler

pub handle : Handler → Loop → Loop
unfolding handle_read act_all quit_loop
handle reads_wakeup l = handle_read l
handle (callback acts) l = act_all acts l
handle quit_elsewhere l = quit_loop false l

pub handle_all : List Handler → Loop → Loop
unfolding handle
handle_all [] l = l
handle_all (h ∷ hs) l = handle_all hs (handle h l)

-- How a call of `loop` goes: it returns, it waits in `poll`, or the functors of a round have more
-- rounds than the fuel.
pub data Outcome : Type 0 where
  returned : Loop → Outcome
  waiting : Loop → Outcome
  endless : Outcome

abbrev pub left : Loop → Outcome
left l = returned (record l { looping = false })

module _ (body : ℕ → List Act) (fuel : ℕ) where
  pub loop_round : List Handler → Loop → Option Loop
  unfolding handle_all do_pending_functors
  loop_round hs l =
      do_pending_functors body fuel
        (record (handle_all hs (record l { event_handling = true })) { event_handling = false })

  -- The rounds that `poll` returns for, in order.
  pub rounds : List (List Handler) → Loop → Outcome
  unfolding loop_round
  rounds [] l = if l.quit then left l else waiting l
  rounds (hs ∷ rest) l = elim l.quit [
    | true ↦ left l
    | false ↦ elim (loop_round hs l) [ none ↦ endless | some l' ↦ rounds rest l' ]
  ]

  pub loop : List (List Handler) → Loop → Outcome
  unfolding rounds
  loop rest l = rounds rest (record l { looping = true })
