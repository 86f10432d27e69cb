-- ===== src/EventLoop/Tests.antt =====
-- A loop with a functor that queues another one, and one that queues itself.
use hvnetpp.Prelude.{
  ℕ, ◌≡◌, ◌≢◌, ◌↔◌, refl, ok, err, aborted, ◌⊎◌, inl, true, false, List, [], ◌∷◌, ◌++◌, none, some,
  arith, replicate, if◌then◌else◌, ◌==◌,
}
use hvnetpp.MpscQueue
use hvnetpp.MpscQueue.{Queue, reserved, try_reserve, commit}
use hvnetpp.MpscQueue.Tickets.{start, new-Stands, issue}
use hvnetpp.EventLoop.{
  Loop, Act, queues, quits, new, queue_in_loop, do_pending_functors, Handler, callback,
  reads_wakeup,
}
use hvnetpp.EventLoop.Plan.{Plan, plan_queue, plan_do_pending}
use hvnetpp.EventLoop.Refine.{Refines, queue-Refines}
use hvnetpp.EventLoop.Refine.Drain.{Agree, do_pending_functors-Agree}
use hvnetpp.EventLoop.Ends.{Dominates, do_pending_functors_ends, do_pending_functors_endless}
use hvnetpp.EventLoop.Order.{
  idle_body, queue_all, plan_queue_all, queue_all-Refines, queue_all-in_order, overtaken,
  overtaken_lem,
}
use hvnetpp.EventLoop.Threads
use hvnetpp.EventLoop.Wakeup.{
  State, Reached, here, next, reserves, enters, polling, begin, set_owing,
}
use hvnetpp.EventLoop.Wakeup.Sound.{RowDue, VectorDue, Reached-Due}

abbrev fresh : Loop
fresh = new (some MpscQueue.new)

abbrev plan : Plan
plan = record {
  room = 1024;
  pending = [];
  aside = [];
  ran = [];
  wakeups = 0;
  quit = false;
  calling = false;
}

fresh-Refines : Refines 0 fresh plan
unfolding new
fresh-Refines = record {
  queue = (refl, start, new-Stands, refl, refl, tt);
  aside = refl;
  ran = refl;
  wakeups = refl;
  quit = refl;
  calling = refl;
}

-- Functor 3 queues functor 4, and the others nothing.
abbrev body : ℕ → List Act
body f = if f == 3 then queues 4 ∷ [] else []

abbrev cost : ℕ → ℕ
cost f = if f == 3 then 2 else 1

body-Dominates : Dominates cost body
body-Dominates f = ground arith

abbrev busy : Loop
busy = queue_in_loop false 3 fresh

abbrev busy_plan : Plan
busy_plan = plan_queue false 3 plan

busy-Refines : Refines 0 busy busy_plan
busy-Refines = queue-Refines 0 false 3 fresh plan fresh-Refines

do_pending_functors-Agree_example :
    Agree body (do_pending_functors body 4 busy) (plan_do_pending body 4 busy_plan)
do_pending_functors-Agree_example = do_pending_functors-Agree body 4 0 busy busy_plan busy-Refines

do_pending_functors_ends_example :
    (l' : Loop) × (do_pending_functors body 4 busy ≡ some l')
    × (new : List ℕ) × (over : List ℕ) × (l'.ran
        ≡ busy.ran ++ (3 ∷ (new ++ (busy.pending_functors ++ over))))
do_pending_functors_ends_example =
    do_pending_functors_ends cost body 4 0 busy busy_plan busy-Refines body-Dominates (omega arith)

-- Every functor queues itself.
abbrev again : ℕ → List Act
again f = queues f ∷ []

do_pending_functors_endless_example : do_pending_functors again 1000000 busy ≡ none
do_pending_functors_endless_example =
    do_pending_functors_endless again 3 0 1000000 busy busy_plan busy-Refines refl refl
      (omega arith)

abbrev ended : Loop
ended = record {
  looping = true;
  quit = true;
  event_handling = false;
  calling_pending_functors = false;
  pending_queue = none;
  pending_functors = [];
  wakeups = 0;
  ran = 3 ∷ [];
}

abbrev unqueued : Loop
unqueued = record ended { quit = false; ran = [] }

-- A callback queues functor 3 and quits.
abbrev events : List Handler
events = reads_wakeup ∷ callback (queues 3 ∷ quits ∷ []) ∷ []

abbrev one : Queue
one = record { head = 0; tail = 64; nodes = λ p. record { datum = 0; id = 0 } }

-- Another thread has reserved a node.
abbrev reserving : State
reserving = record begin {
  queue = one;
  tickets = issue start;
  owing = set_owing 0 true begin.owing;
  phase = polling;
}

reserving-Reached : Reached reserving
unfolding try_reserve MpscQueue.new
reserving-Reached =
    next (next here (enters begin refl))
      (reserves (record begin { phase = polling }) 0 0 0 one (omega arith) (omega arith) refl refl)

Reached-Due_example : RowDue reserving ⊎ VectorDue reserving
Reached-Due_example = Reached-Due reserving-Reached refl refl (inl (omega arith))

-- Three functors queued one after the other.
queue_all-in_order_example :
    (l' : Loop) × (do_pending_functors idle_body 4 (queue_all (5 ∷ 6 ∷ 7 ∷ []) fresh) ≡ some l')
    × (l'.ran ≡ 5 ∷ 6 ∷ 7 ∷ [])
unfolding new
queue_all-in_order_example =
    queue_all-in_order 4 0 (5 ∷ 6 ∷ 7 ∷ []) fresh plan fresh-Refines (inl refl) (omega arith)

-- 1024 functors fill the queue.
abbrev crowd : List ℕ
crowd = replicate 1024 1

abbrev crowded : Loop
crowded = queue_all crowd fresh

overtaken_lem_example :
    (l' : Loop) × (overtaken 2000 5 6 crowded ≡ some l')
    × (l'.ran
        ≡ crowded.ran
          ++ ((plan_queue_all crowd plan).pending ++ (6 ∷ (crowded.pending_functors ++ (5 ∷ [])))))
overtaken_lem_example =
    overtaken_lem 2000 0 5 6 1 (replicate 1023 1) crowded (plan_queue_all crowd plan)
      (queue_all-Refines 0 crowd fresh plan fresh-Refines) refl refl (omega arith)

-- The loop 100 of thread 1 and then 200 of thread 2.
abbrev two_loops : Threads.Process
two_loops = record {
  current = Threads.set 2 (some 200) (Threads.set 1 (some 100) (λ t. none));
  owner = Threads.set 200 (some 2) (Threads.set 100 (some 1) (λ l. none));
}

abbrev two_loops_Reached : Threads.Reached two_loops
unfolding Threads.construct
two_loops_Reached =
    Threads.constructs true true 2 200 (Threads.constructs true true 1 100 Threads.here refl refl)
      refl refl

Reached-IsInverse_example : (two_loops.current 2 ≡ some 200) ↔ (two_loops.owner 200 ≡ some 2)
Reached-IsInverse_example = Threads.Reached-IsInverse two_loops_Reached 2 200

destruct_lem_example :
    ((t' : ℕ) → 1 ≢ t' → Threads.destruct t' 100 two_loops ≡ err aborted)
    × ((l' : ℕ) → Threads.construct true true 1 l' two_loops ≡ err aborted)
    × ((q : Threads.Process) × (Threads.destruct 1 100 two_loops ≡ ok q)
        × ((l' : ℕ) → (r : Threads.Process) × (Threads.construct true true 1 l' q ≡ ok r)))
destruct_lem_example = Threads.destruct_lem 1 100 two_loops_Reached refl
