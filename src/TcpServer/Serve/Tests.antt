-- ===== src/TcpServer/Serve/Tests.antt =====
-- A server with one connection, which the peer resets.
use hvnetpp.Prelude.{
  ℕ, ◌≡◌, refl, true, false, List, [], ◌∷◌, none, some, arith, replicate, length, ok, ◌>>=◌,
}
use hvnetpp.Buffer.{Buffer}
use hvnetpp.Buffer.Valid.{IsValid}
use hvnetpp.Channel.{Channel, none_event, fresh}
use hvnetpp.TcpConnection
use hvnetpp.TcpConnection.{Connection, Callbacks, established, is_disconnected}
use hvnetpp.TcpConnection.Life.{error_event}
use hvnetpp.TcpServer.{new, new_acceptor}
use hvnetpp.TcpServer.Serve.{World, end_server}
use hvnetpp.TcpServer.Serve.Entries.{count}
use hvnetpp.TcpServer.Serve.Sound.{IsServing, Goes}
use hvnetpp.TcpServer.Serve.Start.{made, served, served-IsServing, established-IsSound}
use hvnetpp.TcpServer.Serve.Life.{
  Event, connects, uses, runs_queued, ends, run_events, ArePossible, begin, begin-IsServing,
  run_events-Goes, drain_queued, end_server-drains,
}

abbrev empty : Buffer
empty = record { buffer = replicate 8 0; reader_index = 8; writer_index = 8 }

empty-IsValid : IsValid empty
empty-IsValid = record {
  front = omega arith;
  ordered = omega arith;
  within = omega arith;
  limit = omega arith;
}

abbrev callbacks : Callbacks
callbacks = record {
  connection = true;
  message = true;
  write_complete = false;
  high_water_mark = false;
  close = false;
}

abbrev channel : Channel
channel = record {
  fd = 9;
  events = none_event;
  revents = none_event;
  index = fresh;
  event_handling = false;
  added_to_loop = false;
  tied = false;
  callbacks = record { read = true; write = true; close = true; error = true };
}

abbrev world : World
world = begin (97 ∷ []) (new_acceptor none)

world-IsServing : IsServing world
world-IsServing = begin-IsServing (97 ∷ []) (new_acceptor none) (omega arith)

-- ECONNRESET is 104.
abbrev events : List Event
events =
    connects 9 callbacks channel empty empty ∷ uses 1 (error_event 104) ∷ runs_queued ∷ ends ∷ []

events-ArePossible : ArePossible events world
unfolding new
events-ArePossible = (
  (empty-IsValid, empty-IsValid, refl, refl, omega arith),
  λ w e. ((refl, λ c o. tt), λ w e. (tt, λ w e. (tt, λ w e. tt))),
)

run_events-Goes_example : Goes (run_events events world)
run_events-Goes_example = run_events-Goes events world world-IsServing events-ArePossible

abbrev conn : Connection
conn = established (made 9 callbacks channel empty empty)

conn-IsServing : IsServing (served conn world)
unfolding TcpConnection.new new
conn-IsServing =
    served-IsServing conn world
      (established-IsSound 9 callbacks channel empty empty empty-IsValid empty-IsValid refl refl)
      refl refl (omega arith) refl world-IsServing

end_server-drains_example :
    (w : World) × ((end_server (served conn world)
        >>= drain_queued (length (served conn world).queued))
      ≡ ok w)
    × ((i : ℕ) (c : Connection)
        → w.conns i ≡ some c
        → (count i w.destroyed ≡ 1) × (is_disconnected c.state ≡ true))
end_server-drains_example = end_server-drains (served conn world) conn-IsServing
