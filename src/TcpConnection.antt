-- ===== src/TcpConnection.antt =====
-- src/TcpConnection.cpp and include/hvnetpp/TcpConnection.h: one connection, on the thread of its
-- loop, with what another thread queues for it. `write`, `readv` and the socket's error are
-- arguments. A callback that is called or queued is noted in `calls`: it runs where the method is
-- done with the connection or has disconnected it, so what it calls is a later operation. What a
-- change of interest does in the poller is in `Poller`.
pub mod Sound
pub mod Send
pub mod Write
pub mod Steps
pub mod Receive
pub mod Life
pub mod Moves
pub mod Closing
pub mod Dispatch
mod Tests
use hvnetpp.Prelude.{
  ℕ, ◌≡◌, Bool, true, false, List, [], ◌∷◌, ◌++◌, Option, none, some, Result, ok, err, assert,
  ◌>>=◌, ◌>>◌, ltb, leb, ◌==◌, ◌&&◌, ◌||◌, not, if◌then◌else◌, length, take, drop, add_size,
  sub_size,
}
use hvnetpp.Buffer.{
  Buffer, Received, failed, bytes, readable_bytes, retrieve, retrieve_all, retrieve_all_as_string,
  append, read_fd,
}
use hvnetpp.Channel.{
  Channel, Events, is_none_event, is_writing, want_reading, want_writing, drop_writing, drop_all,
  tie,
}

pub data State : Type 0 where
  disconnected connecting connected disconnecting : State

abbrev pub is_connected : State → Bool
is_connected connected = true
is_connected _ = false

abbrev pub is_disconnecting : State → Bool
is_disconnecting disconnecting = true
is_disconnecting _ = false

abbrev pub is_disconnected : State → Bool
is_disconnected disconnected = true
is_disconnected _ = false

abbrev pub is_connecting : State → Bool
is_connecting connecting = true
is_connecting _ = false

-- `state == kConnected || state == kDisconnecting`
abbrev pub is_open : State → Bool
is_open s = is_connected s || is_disconnecting s

-- What happens outside: callbacks called, functors queued, the descriptor closed.
pub data Call : Type 0 where
  connection_callback : State → Call
  message_callback : Call
  close_callback : Call
  queue_write_complete : Call
  queue_high_water_mark : ℕ → Call
  queue_send : List ℕ → Call
  queue_shutdown : Call
  close_fd : ℕ → Call

pub record Callbacks : Type 0 where
  pub connection : Bool
  pub message : Bool
  pub write_complete : Bool
  pub high_water_mark : Bool
  pub close : Bool

-- `socket_fd` is none once it is -1. `wire` are the bytes that `write` has taken, and `write_shut`
-- says whether the write half was shut down.
pub record Connection : Type 0 where
  pub state : State
  pub channel : Channel
  pub socket_fd : Option ℕ
  pub callbacks : Callbacks
  pub high_water_mark : ℕ
  pub input : Buffer
  pub output : Buffer
  pub wire : List ℕ
  pub write_shut : Bool
  pub calls : List Call

abbrev pub default_high_water_mark : ℕ
default_high_water_mark = 67108864

abbrev pub note : Bool → Call → Connection → Connection
note b k c = record c { calls = if b then c.calls ++ (k ∷ []) else c.calls }

-- A change of interest, as `Channel::update` sees it.
abbrev pub updated : Channel → Channel
updated ch = record ch { added_to_loop = ch.added_to_loop || not (is_none_event ch) }

abbrev pub set_channel : Channel → Connection → Connection
set_channel ch c = record c { channel = updated ch }

abbrev pub close_noted : Option ℕ → List Call → List Call
close_noted none calls = calls
close_noted (some fd) calls = calls ++ (close_fd fd ∷ [])

pub close_socket : Connection → Connection
close_socket c = record c { socket_fd = none; calls = close_noted c.socket_fd c.calls }

-- The constructor; the callbacks are set before the connection is established.
unfoldable pub new : ℕ → Callbacks → Channel → Buffer → Buffer → Connection
new sockfd callbacks channel input output = record {
  state = connecting;
  channel = channel;
  socket_fd = some sockfd;
  callbacks = callbacks;
  high_water_mark = default_high_water_mark;
  input = input;
  output = output;
  wire = [];
  write_shut = false;
  calls = [];
}

-- The destructor.
pub destruct : Connection → Result Connection
unfolding close_socket
destruct c = do assert (is_disconnected c.state); ok (close_socket c)

abbrev pub established : Connection → Connection
established c =
    note c.callbacks.connection (connection_callback connected)
      (set_channel (want_reading (tie c.channel)) (record c { state = connected }))

unfoldable pub connect_established : Connection → Result Connection
connect_established c = do assert (is_connecting c.state); ok (established c)

abbrev pub removed : Connection → Connection
removed c = record c { channel = record c.channel { added_to_loop = false } }

-- `Channel::remove`, whose assertion is the poller's.
abbrev pub remove_channel : Connection → Result Connection
remove_channel c = do
  assert (not c.channel.added_to_loop || is_none_event c.channel)
  ok (removed c)

abbrev pub disconnect : Connection → Connection
disconnect c =
    note c.callbacks.connection (connection_callback disconnected)
      (set_channel (drop_all c.channel) (record c { state = disconnected }))

unfoldable pub connect_destroyed : Connection → Result Connection
unfolding close_socket
connect_destroyed c = do
  c₁ ← remove_channel (if is_disconnected c.state then c else disconnect c)
  ok (close_socket c₁)

pub handle_close : Connection → Result Connection
handle_close c = do
  assert (is_open c.state)
  ok (note c.callbacks.close close_callback (disconnect c))

abbrev pub eintr : ℕ
eintr = 4

-- `EAGAIN`, and `EWOULDBLOCK`
abbrev pub eagain : ℕ
eagain = 11

abbrev pub epipe : ℕ
epipe = 32

-- `handleError(int)`
pub handle_error : ℕ → Connection → Result Connection
unfolding handle_close
handle_error e c =
    if (e == 0) || (e == eagain) || (e == eintr)
    then ok c
    else (if is_open c.state then handle_close c else ok c)

-- `handleError()`; `so_error` is what `getSocketError` returns.
pub handle_socket_error : ℕ → Connection → Result Connection
unfolding handle_error
handle_socket_error so_error c = if so_error == 0 then ok c else handle_error so_error c

pub after_read : Received × Buffer → Connection → Result Connection
unfolding handle_error handle_close
after_read (failed e, b) c = handle_error e (record c { input = b })
after_read (bytes [], b) c = handle_close (record c { input = b })
after_read (bytes (x ∷ xs), b) c =
    ok (note c.callbacks.message message_callback (record c { input = b }))

pub handle_read : (ℕ → Received) → Connection → Result Connection
unfolding after_read
handle_read readv c =
    if is_disconnected c.state then ok c else (read_fd readv c.input >>= λ r. after_read r c)

-- `socketFd_ >= 0`
abbrev pub has : Option ℕ → Bool
has none = false
has (some fd) = true

-- `shutdownInLoop`
pub shutdown_in_loop : Connection → Connection
shutdown_in_loop c = record c {
  write_shut = c.write_shut || (has c.socket_fd && not (is_writing c.channel));
}

-- What `write` returns: the number of bytes it took, or the error number.
pub data Written : Type 0 where
  wrote : ℕ → Written
  write_failed : ℕ → Written

-- The readable bytes, as `write` is given them.
abbrev pub readable : Buffer → List ℕ
readable b = take (readable_bytes b) (drop b.reader_index b.buffer)

pub after_flush : Connection → Connection
unfolding shutdown_in_loop
after_flush c =
    let c₁ =
      note c.callbacks.write_complete queue_write_complete
        (set_channel (drop_writing c.channel) c) in
    if is_disconnecting c.state then shutdown_in_loop c₁ else c₁

pub after_write : Written → Connection → Result Connection
unfolding handle_error after_flush
after_write (write_failed e) c = handle_error e c
after_write (wrote n) c =
    if n == 0
    then handle_error epipe c
    else (retrieve n c.output >>= λ b.
        let c₁ : Connection = record c {
          output = b;
          wire = c.wire ++ take n (readable c.output);
        } in
        ok (if readable_bytes b == 0 then after_flush c₁ else c₁))

pub handle_write : (List ℕ → Written) → Connection → Result Connection
unfolding after_write
handle_write write c =
    if is_disconnected c.state
    then ok c
    else (if is_writing c.channel then after_write (write (readable c.output)) c else ok c)

-- The high-water mark is passed by the bytes that are added.
abbrev pub passes_mark : ℕ → ℕ → Connection → Bool
passes_mark old_len remaining c =
    leb c.high_water_mark (add_size old_len remaining)
    && ltb old_len c.high_water_mark
    && c.callbacks.high_water_mark

-- The bytes are in the output, `b`.
abbrev pub keep : ℕ → ℕ → Buffer → Connection → Connection
keep old_len remaining b c =
    record (note (passes_mark old_len remaining c)
      (queue_high_water_mark (add_size old_len remaining)) c) {
        output = b;
        channel = if is_writing c.channel then c.channel else updated (want_writing c.channel);
      }

-- The end of `sendInLoop`: the bytes from the `n`-th on are left.
pub keep_rest : ℕ → List ℕ → Connection → Result Connection
keep_rest n message c =
    let remaining = sub_size (length message) n in
    if ltb 0 remaining
    then (append (drop n message) c.output >>= λ b.
        ok (keep (readable_bytes c.output) remaining b c))
    else ok c

pub after_direct : Written → List ℕ → Connection → Result Connection
unfolding handle_error keep_rest
after_direct (wrote n) message c = keep_rest n message (
    note ((sub_size (length message) n == 0) && c.callbacks.write_complete) queue_write_complete
      (record c { wire = c.wire ++ take n message }))
after_direct (write_failed e) message c =
    if (e == eagain) || (e == eintr) then keep_rest 0 message c else handle_error e c

pub send_in_loop : (List ℕ → Written) → List ℕ → Connection → Result Connection
unfolding keep_rest after_direct
send_in_loop write message c =
    if is_disconnected c.state
    then ok c
    else (if not (is_writing c.channel) && (readable_bytes c.output == 0)
        then after_direct (write message) message c
        else keep_rest 0 message c)

-- The functor that `send` queues.
pub run_send : (List ℕ → Written) → List ℕ → Connection → Result Connection
unfolding send_in_loop
run_send write message c = if is_connected c.state then send_in_loop write message c else ok c

-- `send`; `in_loop` says whether the caller is on the loop's thread.
pub send : Bool → (List ℕ → Written) → List ℕ → Connection → Result Connection
unfolding send_in_loop
send in_loop write message c =
    if length message == 0
    then ok c
    else (if in_loop
        then (if is_connected c.state then send_in_loop write message c else ok c)
        else ok (note (is_connected c.state) (queue_send message) c))

-- `send(Buffer*)`, with the buffer that is left.
pub send_buffer : Bool → (List ℕ → Written) → Buffer → Connection → Result (Connection × Buffer)
unfolding send_in_loop
send_buffer in_loop write b c =
    if not (is_connected c.state)
    then ok (c, b)
    else (if in_loop
        then (send_in_loop write (readable b) c >>= λ c'. ok (c', retrieve_all b))
        else (retrieve_all_as_string b >>= λ r. ok (note true (queue_send (r.0)) c, r.1)))

-- The functor that `shutdown` queues, and what it does on the loop's thread.
pub run_shutdown : Connection → Connection
unfolding shutdown_in_loop
run_shutdown c =
    if is_connected c.state then shutdown_in_loop (record c { state = disconnecting }) else c

pub shutdown : Bool → Connection → Connection
unfolding run_shutdown
shutdown in_loop c =
    if in_loop then run_shutdown c else note (is_connected c.state) queue_shutdown c
