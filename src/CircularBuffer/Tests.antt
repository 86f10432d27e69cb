-- ===== src/CircularBuffer/Tests.antt =====
-- Two pages of memory beside one mapping, with the range that follows it.
use mathlib.Core.Option.{some-injective}
use hvnetpp.Prelude.{inl, true, [], ◌∷◌, none, some, arith, subst}
use hvnetpp.CircularBuffer.{Host, Calls, create_buffer_mirror}
use hvnetpp.CircularBuffer.Mirror.{IsFree, IsReserved, IsMade, create_buffer_mirror-IsMade}

abbrev host : Host
host = record {
  fds = 0 ∷ 1 ∷ 2 ∷ [];
  mappings = record { start = 0; len = 4096; file = none } ∷ [];
  names = [];
}

abbrev calls : Calls
calls = record {
  mkstemp = some 3;
  unlinked = true;
  truncated = true;
  reserved = some 8192;
  mapped_first = true;
  mapped_second = true;
}

range-IsReserved : IsReserved 4096 calls host
range-IsReserved d e =
    subst (λ a. IsFree a 8192 host.mappings) (some-injective 8192 d e)
      (omega arith, inl (omega arith), tt)

create_buffer_mirror-IsMade_example : IsMade 4096 calls host (create_buffer_mirror 4096 calls host)
create_buffer_mirror-IsMade_example = create_buffer_mirror-IsMade 4096 calls host range-IsReserved
