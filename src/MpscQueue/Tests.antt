-- ===== src/MpscQueue/Tests.antt =====
-- Two producers and the consumer.
use hvnetpp.MpscQueue.Wrap.{try_reserve_wraps}
use hvnetpp.Prelude.{none, ◌≡◌, ◌≤◌, ◌<◌, refl, [], ◌∷◌, arith, ◌⊎◌}
use hvnetpp.MpscQueue.{Queue, new, full, reserved, try_reserve, commit, peek, consume}
use hvnetpp.MpscQueue.Tickets.{
  Tickets, Stands, start, new-Stands, issue, fill, take_one, try_reserve_lem, place,
}
use hvnetpp.MpscQueue.Fifo.{Reached, begin, reserves, commits, takes, InOrder, Reached-InOrder}

abbrev one : Queue
one = record { head = 0; tail = 64; nodes = λ p. record { datum = 0; id = 0 } }

abbrev two : Queue
two = record { head = 0; tail = 128; nodes = λ p. record { datum = 0; id = 0 } }

-- The second producer commits first; the first one's datum still comes out first.
abbrev committed : Queue
committed = commit 0 7 1 (commit 64 8 1 two)

abbrev tickets : Tickets
tickets = take_one (fill 0 7 (fill 1 8 (issue (issue start))))

two_taken : Reached (consume 0 committed) (7 ∷ []) tickets
unfolding new try_reserve commit peek
two_taken =
    takes
      (commits
        (commits
          (reserves (reserves begin 0 0 0 one (omega arith) (omega arith) refl refl) 0 0 64 two
            (omega arith) (omega arith) refl refl)
          1 8 (omega arith) (omega arith) refl)
        0 7 (omega arith) (omega arith) refl)
      0 refl

Reached-InOrder_example : InOrder (consume 0 committed) (7 ∷ []) tickets
Reached-InOrder_example = Reached-InOrder two_taken

try_reserve_lem_example :
    ((try_reserve 0 0 new ≡ full) × (1024 ≤ 0))
    ⊎ ((q' : Queue) × (try_reserve 0 0 new ≡ reserved (place 0) q')
        × Stands q' (issue start)
        × (0 < 1024))
unfolding new
try_reserve_lem_example = try_reserve_lem 0 0 new start new-Stands (omega arith) (omega arith) refl

-- 1024 nodes in use, the first of them at the head's place after 2 ^ 26 - 1024 others.
abbrev crowded : Queue
crowded = record { head = 4294901760; tail = 0; nodes = λ p. record { datum = 0; id = 0 } }

abbrev many_tickets : Tickets
many_tickets = record { taken = 67107840; issued = 67108864; cells = λ i. none }

crowded-Stands : Stands crowded many_tickets
crowded-Stands = record {
  head = refl;
  tail = refl;
  ordered = omega arith;
  within = omega arith;
  shows = λ i a b. ground arith;
}

try_reserve_wraps_example : (q' : Queue) × (try_reserve 0 0 crowded ≡ reserved (place 67107840) q')
try_reserve_wraps_example =
    try_reserve_wraps 67107840 0 crowded many_tickets crowded-Stands (omega arith) (omega arith)
      refl refl
