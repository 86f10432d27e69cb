-- ===== src/TcpServer/Serve.antt =====
-- The server of src/TcpServer.cpp with its connections of src/TcpConnection.cpp, on the thread of the
-- loop: which of them the server keeps, which wait for `connectDestroyed` among the loop's functors,
-- and which it has been run for. A connection is known by its number. What a callback of the user calls is
-- a later event. The map is in the order of insertion, and no theorem depends on that order.
pub mod Entries
pub mod Sound
pub mod Use
pub mod Close
pub mod Start
pub mod Life
mod Tests
use hvnetpp.Prelude.{
  ℕ, ◌+◌, Bool, true, false, List, [], ◌∷◌, ◌++◌, Option, none, some, ◌==◌, if◌then◌else◌, Result,
  ok, err, ◌>>=◌,
}
use hvnetpp.Buffer.{Buffer}
use hvnetpp.Channel.{Channel}
use hvnetpp.TcpConnection
use hvnetpp.TcpConnection.{Connection, Callbacks, connect_established, connect_destroyed}
use hvnetpp.TcpConnection.Life.{Step, perform}
use hvnetpp.TcpConnection.Closing.{closes}
use hvnetpp.TcpServer.{
  Server, Name, conn_name, new_connection, remove_connection_in_loop, State, idle,
}

-- `alive` tells whether the token is there that the callbacks look at.
pub record World : Type 0 where
  pub server : Server
  pub conns : ℕ → Option Connection
  pub queued : List ℕ
  pub destroyed : List ℕ
  pub alive : Bool

abbrev pub set_conn : ℕ → Connection → World → World
set_conn i c w = record w { conns = λ j. if i == j then some c else w.conns j }

-- `newConnection` for an accepted descriptor, with the callbacks of the user and the server's own;
-- `connectEstablished` is run at once. Without the token the descriptor is closed.
pub serve : ℕ → Callbacks → Channel → Buffer → Buffer → World → Result World
unfolding new_connection connect_established TcpConnection.new
serve sockfd callbacks channel input output w =
    if w.alive
    then (connect_established
          (TcpConnection.new sockfd (record callbacks { close = true }) channel input output)
        >>= λ c.
            let i = w.server.next_conn_id in
            ok (record (set_conn i c w) { server = new_connection i w.server }))
    else ok w

-- The close callback: `removeConnection`, which runs `removeConnectionInLoop` at once.
pub on_close : ℕ → World → Result World
unfolding remove_connection_in_loop
on_close i w =
    if w.alive
    then (remove_connection_in_loop (conn_name w.server.name i) w.server >>= λ s.
        ok (record w { server = s; queued = w.queued ++ (i ∷ []) }))
    else ok w

-- The close callback is called where the connection has noted it.
pub after_use : ℕ → ℕ → Connection → World → Result World
unfolding on_close
after_use i n c w = if closes c.calls == n then ok (set_conn i c w) else on_close i (set_conn i c w)

-- What the channel or the users of a connection do.
pub use_connection : ℕ → Step → World → Result World
unfolding perform after_use
use_connection i s w = elim (w.conns i) [
  | none ↦ ok w
  | some c ↦ perform s c >>= λ c'. after_use i (closes c.calls) c' w
]

pub destroy_one : ℕ → World → Result World
unfolding connect_destroyed
destroy_one i w = elim (w.conns i) [
  | none ↦ ok w
  | some c ↦ connect_destroyed c >>= λ c'.
      ok (record (set_conn i c' w) { destroyed = w.destroyed ++ (i ∷ []) })
]

-- The next functor of the loop that is a `connectDestroyed`.
pub run_queued : World → Result World
unfolding destroy_one
run_queued w = elim w.queued [ [] ↦ ok w | i ∷ is ↦ destroy_one i (record w { queued = is }) ]

-- `setCloseCallback(CloseCallback())`
pub forget_callback : ℕ → World → World
forget_callback i w = elim (w.conns i) [
  | none ↦ w
  | some c ↦ set_conn i (record c { callbacks = record c.callbacks { close = false } }) w
]

pub destroy_all : List (Name × ℕ) → World → Result World
unfolding destroy_one forget_callback
destroy_all [] w = ok w
destroy_all ((k, i) ∷ ms) w = destroy_one i (forget_callback i w) >>= destroy_all ms

-- The server's destructor; the acceptor's is `TcpServer.cleanup`.
pub end_server : World → Result World
unfolding destroy_all
end_server w =
    destroy_all w.server.connections
      (record w { alive = false; server = record w.server { state = idle; connections = [] } })
