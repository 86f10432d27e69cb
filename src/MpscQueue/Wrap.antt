-- ===== src/MpscQueue/Wrap.antt =====
-- What `reserve` does where the 32-bit tail has come round since it loaded the head and the tail.
use hvnetpp.Prelude.{ℕ, ◌+◌, ◌-◌, ◌*◌, ◌^◌, ◌%◌, ◌≤◌, ◌<◌, ◌≡◌, arith}
use hvnetpp.MpscQueue.{Queue, node_size, get_pointer, add_uint, reserved, try_reserve}
use hvnetpp.MpscQueue.Tickets.{Tickets, Stands, capacity, place}

-- A producer that is held up between its loads and its exchange of the tail until the tail is 2 ^ 26
-- nodes past the one that it loaded, where it saw room: the exchange succeeds, although the queue may
-- be full by then. Where 1024 nodes are in use, it is given the node of the oldest of them, which is
-- not consumed yet. Here `k` nodes were consumed since it loaded the head, and the tail that it
-- loaded was `j` nodes past that head.
pub try_reserve_wraps :
    (k j : ℕ) (q : Queue) (t : Tickets)
    → Stands q t
    → k ≤ t.taken
    → j < capacity
    → t.issued ≡ t.taken + capacity
    → t.issued ≡ t.taken - k + j + 2 ^ 26
    → (q' : Queue) × (try_reserve
          ((64 * (t.taken - k)) % 4294967296)
          ((64 * (t.taken - k + j)) % 4294967296)
          q
        ≡ reserved (place t.taken) q')
unfolding try_reserve
try_reserve_wraps k j q t s b l f w =
    let same : (64 * (t.taken - k + j)) % 4294967296 ≡ q.tail = omega (arith, s.tail) in
    let at : get_pointer ((64 * (t.taken - k + j)) % 4294967296) ≡ place t.taken = omega arith in
    (
      record q { tail = add_uint ((64 * (t.taken - k + j)) % 4294967296) node_size },
      ground (arith, same, at),
    )
