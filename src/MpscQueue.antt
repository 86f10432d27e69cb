-- ===== src/MpscQueue.antt =====
-- include/hvnetpp/MpscQueue.h over src/CircularBuffer.cpp: the lock-free queue that the loop makes,
-- of order 16. The memory is a function from a node's offset to the node, all zero at first; the
-- mirror of the memory that CircularBuffer maps never shows, since no node crosses the end. Atomic
-- operations are the steps: `try_reserve` is a round of `reserve`, with the head that it has loaded
-- before.
pub mod Tickets
pub mod Fifo
pub mod Wrap
mod Tests
use hvnetpp.Prelude.{
  ℕ, ◌+◌, ◌-◌, ◌*◌, ◌^◌, ◌%◌, ◌≡◌, Bool, true, false, Option, none, some, ltb, ◌==◌, if◌then◌else◌,
}

-- A node without its padding: `datum` is the field `data`, the pointer to the functor, 0 for none.
pub record Node : Type 0 where
  pub datum : ℕ
  pub id : ℕ

pub record Queue : Type 0 where
  pub head : ℕ
  pub tail : ℕ
  pub nodes : ℕ → Node

abbrev pub node_size : ℕ
node_size = 64

-- `1UL << order`
abbrev pub size : ℕ
size = 2 ^ 16

abbrev pub zero_node : Node
zero_node = record { datum = 0; id = 0 }

unfoldable pub new : Queue
new = record { head = 0; tail = 0; nodes = λ p. zero_node }

-- `getPointer`: `offset & (size_ - 1)`.
abbrev pub get_pointer : ℕ → ℕ
get_pointer offset = offset % size

-- `headPtr` and `tailPtr`
abbrev pub head_ptr : Queue → ℕ
head_ptr q = get_pointer q.head

abbrev pub tail_ptr : Queue → ℕ
tail_ptr q = get_pointer q.tail

-- `unsigned int` arithmetic
abbrev pub add_uint : ℕ → ℕ → ℕ
add_uint a b = (a + b) % 2 ^ 32

abbrev pub sub_uint : ℕ → ℕ → ℕ
sub_uint a b = (a + 2 ^ 32 - b) % 2 ^ 32

pub data Attempt : Type 0 where
  full : Attempt
  retry : Attempt
  reserved : ℕ → Queue → Attempt

-- A round of `reserve`: `r` and `w` are the head and the tail that it loaded.
unfoldable pub try_reserve : ℕ → ℕ → Queue → Attempt
try_reserve r w q =
    if ltb (size - node_size) (sub_uint w r)
    then full
    else (if q.tail == w
        then reserved (get_pointer w) (record q { tail = add_uint w node_size })
        else retry)

abbrev pub set_node : ℕ → Node → (ℕ → Node) → ℕ → Node
set_node p n nodes a = if p == a then n else nodes a

-- The producer's `node->data = data` and then `commit(node, id)`.
pub commit : ℕ → ℕ → ℕ → Queue → Queue
commit p datum id q = record q { nodes = set_node p (record { datum = datum; id = id }) q.nodes }

pub peek : Queue → Option ℕ
peek q =
    if q.head == q.tail
    then none
    else (if (q.nodes (head_ptr q)).id == 0 then none else some (head_ptr q))

pub consume : ℕ → Queue → Queue
consume p q = record q { nodes = set_node p zero_node q.nodes; head = add_uint q.head node_size }
