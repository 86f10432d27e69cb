-- ===== src/UdpSocket.antt =====
-- src/UdpSocket.cpp and include/hvnetpp/UdpSocket.h, a call at a time; Callers has the calls that
-- overlap. What the system calls return are arguments; -1 is none. `in_loop` says whether the call is
-- made on the loop's thread, where a functor runs at once; from others it waits in `pending`. The
-- channel is there exactly if `channel` is true, and `reading` says whether it waits for input; the
-- channels are numbered as they are made. `closed_fds` are the descriptors that were closed.
pub mod Callers
pub mod Crossed
pub mod States
pub mod Anywhere
mod Tests
use hvnetpp.Prelude.{
  ℕ, ◌+◌, ◌≡◌, Bool, true, false, List, [], ◌∷◌, ◌++◌, Option, none, some, ◌==◌, ◌&&◌, ◌||◌, not,
  if◌then◌else◌,
}

pub data State : Type 0 where
  closed opened bound receiving : State

-- What `runInLoop` and `queueInLoop` are given: `enableReading` or `disableReading` of a channel, by
-- its number, and the functor of `cleanupUdpSocket`, with the descriptor.
pub data Task : Type 0 where
  enables disables : ℕ → Task
  cleans : Option ℕ → Task

pub record Socket : Type 0 where
  pub family : ℕ
  pub sockfd : Option ℕ
  pub state : State
  pub channel : Bool
  pub number : ℕ
  pub reading : Bool
  pub closed_fds : List ℕ
  pub pending : List Task

abbrev pub af_unspec : ℕ
af_unspec = 0

unfoldable pub new : Socket
new = record {
  family = af_unspec;
  sockfd = none;
  state = closed;
  channel = false;
  number = 0;
  reading = false;
  closed_fds = [];
  pending = [];
}

abbrev pub fds : Option ℕ → List ℕ
fds none = []
fds (some fd) = fd ∷ []

-- A functor on the loop's thread. A channel that the socket holds no more is taken out of the poller,
-- or is about to be: what becomes of it is not part of the socket.
unfoldable pub run_task : Task → Socket → Socket
run_task (enables n) s = if s.channel && n == s.number then record s { reading = true } else s
run_task (disables n) s = if s.channel && n == s.number then record s { reading = false } else s
run_task (cleans fd) s = record s { closed_fds = s.closed_fds ++ fds fd }

unfoldable pub hand_to_loop : Bool → Task → Socket → Socket
unfolding run_task
hand_to_loop in_loop task s =
    if in_loop then run_task task s else record s { pending = s.pending ++ (task ∷ []) }

-- The functors that wait, run on the loop's thread.
pub run_tasks : List Task → Socket → Socket
unfolding run_task
run_tasks [] s = s
run_tasks (task ∷ tasks) s = run_tasks tasks (run_task task s)

pub run_pending : Socket → Socket
unfolding run_tasks
run_pending s = run_tasks s.pending (record s { pending = [] })

-- `cleanupUdpSocket`, with the members that the callers have cleared.
unfoldable pub cleanup : Bool → Socket → Socket
unfolding hand_to_loop run_task
cleanup in_loop s =
    hand_to_loop in_loop (cleans s.sockfd)
      (record s { sockfd = none; state = closed; channel = false; reading = false })

-- The destructor.
unfoldable pub destruct : Bool → Socket → Socket
unfolding cleanup
destruct in_loop s = cleanup in_loop s

-- `ensureSocket`; `created` is what `createNonblockingUdp` returns.
unfoldable pub ensure_socket : Option ℕ → ℕ → Socket → Bool × Socket
ensure_socket created family s = elim s.sockfd [
  | some fd ↦ (s.family == family, s)
  | none ↦ elim created [
    | none ↦ (false, s)
    | some fd ↦ (
      true,
      record s {
        sockfd = some fd;
        family = family;
        state = opened;
        channel = true;
        number = s.number + 1;
        reading = false;
      },
    )
  ]
]

pub open_socket : Option ℕ → ℕ → Socket → Bool × Socket
unfolding ensure_socket
open_socket created family s = ensure_socket created family s

abbrev pub is_receiving : State → Bool
is_receiving receiving = true
is_receiving _ = false

abbrev pub is_bound : State → Bool
is_bound bound = true
is_bound receiving = true
is_bound _ = false

abbrev pub is_none : Option ℕ → Bool
is_none none = true
is_none (some fd) = false

-- After `ensureSocket`: `bind` of the descriptor fails or succeeds.
unfoldable pub bind_ensured : Bool → Bool → Bool → Socket → Bool × Socket
unfolding cleanup
bind_ensured in_loop created_socket false s =
    (false, if created_socket then record (cleanup in_loop s) { family = af_unspec } else s)
bind_ensured in_loop created_socket true s =
    (true, if is_receiving s.state then s else record s { state = bound })

-- `bind`; `binds` says whether the system call succeeds.
unfoldable pub bind : Bool → Option ℕ → Bool → ℕ → Socket → Bool × Socket
unfolding ensure_socket bind_ensured
bind in_loop created binds family s =
    let (done, s') = ensure_socket created family s in
    if done then bind_ensured in_loop (is_none s.sockfd) binds s' else (false, s')

pub start_receive : Bool → Socket → Bool × Socket
unfolding hand_to_loop
start_receive in_loop s =
    if not s.channel || not (is_bound s.state)
    then (false, s)
    else (if is_receiving s.state
        then (true, s)
        else (true, hand_to_loop in_loop (enables s.number) (record s { state = receiving })))

pub bind_and_start : Bool → Option ℕ → Bool → ℕ → Socket → Bool × Socket
unfolding bind start_receive
bind_and_start in_loop created binds family s =
    let (done, s') = bind in_loop created binds family s in
    if done then start_receive in_loop s' else (false, s')

pub stop_receive : Bool → Socket → Socket
unfolding hand_to_loop
stop_receive in_loop s =
    if s.channel
    then hand_to_loop in_loop (disables s.number)
        (record s { state = if is_receiving s.state then bound else s.state })
    else s

-- `sendTo`: the result of `sendto`, none for -1, where the socket is there.
pub send_to : Option ℕ → Option ℕ → ℕ → Socket → Option ℕ × Socket
unfolding ensure_socket
send_to created sent family s =
    let (done, s') = ensure_socket created family s in (if done then sent else none, s')

-- What `recvfrom` returns: an error, or a datagram; `handleRead` hands it to the callback, if set.
pub handle_read : Bool → Option (List ℕ) → List (List ℕ)
handle_read has_callback none = []
handle_read has_callback (some datagram) = if has_callback then datagram ∷ [] else []
