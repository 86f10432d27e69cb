-- ===== src/TcpServer.antt =====
-- src/TcpServer.cpp and include/hvnetpp/TcpServer.h: the acceptor and the server, on the thread of
-- the loop. What the system calls return are arguments; an invalid descriptor is none. A connection
-- is known by its descriptor, and its own methods are in `TcpConnection`.
pub mod Accept
pub mod Errno
pub mod Names
pub mod Serve
mod Tests
use hvnetpp.Prelude.{
  ℕ, zero, suc, ◌+◌, ◌/◌, ◌%◌, ◌≡◌, Bool, true, false, List, [], ◌∷◌, ◌++◌, Option, none, some,
  Result, ok, err, aborted, ltb, ◌==◌, ◌&&◌, not, if◌then◌else◌, take, length,
}

-- `handed` are the descriptors given to the callback, `closed` those that were closed.
pub record Acceptor : Type 0 where
  pub accept_socket : Option ℕ
  pub idle_fd : Option ℕ
  pub listening : Bool
  pub has_callback : Bool
  pub handed : List ℕ
  pub closed : List ℕ

-- The constructor; `idle` is what `openIdleFd` returns.
pub new_acceptor : Option ℕ → Acceptor
new_acceptor idle = record {
  accept_socket = none;
  idle_fd = idle;
  listening = false;
  has_callback = false;
  handed = [];
  closed = [];
}

abbrev pub fds : Option ℕ → List ℕ
fds none = []
fds (some fd) = fd ∷ []

abbrev pub close_fds : List ℕ → Acceptor → Acceptor
close_fds l a = record a { closed = a.closed ++ l }

-- `cleanupAcceptor`, as the destructor calls it; the channel is removed in `Poller`.
pub cleanup : Acceptor → Acceptor
cleanup a =
    close_fds (fds a.accept_socket ++ fds a.idle_fd)
      (record a { accept_socket = none; idle_fd = none })

-- `listen`: the socket that was created, if any, and whether `bind` and `listen` succeed.
unfoldable pub listen : Option ℕ → Bool → Bool → Acceptor → Bool × Acceptor
listen none bound listened a = (a.listening, a)
listen (some fd) bound listened a =
    if a.listening
    then (true, a)
    else (if bound && listened
        then (true, record a { accept_socket = some fd; listening = true })
        else (false, close_fds (fd ∷ []) a))

-- What `accept` returns: a descriptor, or an error. On EMFILE: what the second `accept` and
-- `openIdleFd` then return.
pub data Accepted : Type 0 where
  accepted : ℕ → Accepted
  would_block : Accepted
  too_many_files : Option ℕ → Option ℕ → Accepted
  other_error : Accepted

abbrev pub hand : ℕ → Acceptor → Acceptor
hand fd a =
    if a.has_callback then record a { handed = a.handed ++ (fd ∷ []) } else close_fds (fd ∷ []) a

-- A connection is accepted with the descriptor kept for this, and closed.
pub shed : Option ℕ → Option ℕ → Acceptor → Acceptor
shed extra idle a = record (close_fds (fds a.idle_fd ++ fds extra) a) { idle_fd = idle }

-- `Acceptor::handleRead`: `accept` returns the results in order.
pub accept_all : List Accepted → Acceptor → Acceptor
unfolding shed
accept_all [] a = a
accept_all (accepted fd ∷ rest) a = accept_all rest (hand fd a)
accept_all (would_block ∷ rest) a = a
accept_all (too_many_files extra idle ∷ rest) a = shed extra idle a
accept_all (other_error ∷ rest) a = a

pub data State : Type 0 where
  idle starting listening : State

-- A name is the list of its characters.
abbrev pub Name : Type 0
Name = List ℕ

-- `connections` maps names to connections.
pub record Server : Type 0 where
  pub name : Name
  pub acceptor : Acceptor
  pub state : State
  pub next_conn_id : ℕ
  pub connections : List (Name × ℕ)

pub new : Name → Acceptor → Server
new name acceptor = record {
  name = name;
  acceptor = record acceptor { has_callback = true };
  state = idle;
  next_conn_id = 1;
  connections = [];
}

after_listen : Bool × Acceptor → Server → Server
after_listen (done, a) s = record s { acceptor = a; state = if done then listening else idle }

-- `start`: the state that it returns. Off the loop's thread, `run_start` is what it queues.
pub start : Bool → Option ℕ → Bool → Bool → Server → State × Server
unfolding after_listen listen
start in_loop fd bound listened s = elim s.state [
  | idle ↦
      if in_loop
      then (let s' = after_listen (listen fd bound listened s.acceptor) s in (s'.state, s'))
      else (starting, record s { state = starting })
  | starting ↦ (starting, s)
  | listening ↦ (listening, s)
]

pub run_start : Option ℕ → Bool → Bool → Server → Server
unfolding after_listen listen
run_start fd bound listened s = after_listen (listen fd bound listened s.acceptor) s

-- `%d`: the digits, first the most significant; an `int` has ten at most.
abbrev pub print_int : ℕ → ℕ → Name
print_int zero n = []
print_int (suc f) n =
    if ltb n 10 then (48 + n) ∷ [] else print_int f (n / 10) ++ ((48 + n % 10) ∷ [])

-- `snprintf(buf, 64, "-%s#%d", ...)` stores 63 characters at most.
abbrev pub formatted : Name → ℕ → Name
formatted name id = take 63 (45 ∷ (name ++ (35 ∷ print_int 10 id)))

pub conn_name : Name → ℕ → Name
conn_name name id = name ++ formatted name id

abbrev pub same_name : Name → Name → Bool
same_name [] [] = true
same_name [] (y ∷ ys) = false
same_name (x ∷ xs) [] = false
same_name (x ∷ xs) (y ∷ ys) = (x == y) && same_name xs ys

-- `connections_[name] = conn`
pub put : Name → ℕ → List (Name × ℕ) → List (Name × ℕ)
put k c [] = (k, c) ∷ []
put k c ((l, d) ∷ ms) =
    let rest = put k c ms in if same_name k l then (l, c) ∷ ms else (l, d) ∷ rest

-- `connections_.erase(name)`, none where it returns 0.
pub erase : Name → List (Name × ℕ) → Option (List (Name × ℕ))
erase k [] = none
erase k ((l, d) ∷ ms) =
    let rest = erase k ms in
    if same_name k l then some ms else elim rest [ none ↦ none | some ns ↦ some ((l, d) ∷ ns) ]

pub new_connection : ℕ → Server → Server
unfolding conn_name put
new_connection sockfd s = record s {
  next_conn_id = suc s.next_conn_id;
  connections = put (conn_name s.name s.next_conn_id) sockfd s.connections;
}

-- `connectDestroyed` is then queued.
pub remove_connection_in_loop : Name → Server → Result Server
unfolding erase
remove_connection_in_loop k s = elim (erase k s.connections) [
  | none ↦ err aborted
  | some ms ↦ ok (record s { connections = ms })
]
