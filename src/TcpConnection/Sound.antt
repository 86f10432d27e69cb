-- ===== src/TcpConnection/Sound.antt =====
-- The invariant of a connection, and what closing it does.
use hvnetpp.Prelude.{
  ℕ, ◌≡◌, refl, Bool, true, false, List, ◌++◌, Option, ok, arith, ltb, ◌==◌, ◌&&◌, ◌||◌, not,
  if◌then◌else◌, length,
}
use hvnetpp.Buffer.{Buffer, readable_bytes}
use hvnetpp.Buffer.Valid.{IsValid, contents, length-contents}
use hvnetpp.Channel.{Channel, is_none_event, is_writing}
use hvnetpp.TcpConnection.{
  Connection, State, is_open, is_disconnected, is_disconnecting, has, handle_close, handle_error,
  disconnect, eagain, eintr, note, close_callback,
}

-- Both buffers are valid. While connected the channel waits to write exactly if output is left;
-- a channel that is not open waits for nothing. Once the write half is shut down, the connection is
-- on its way down with no output left; and it is shut down as soon as a connection on its way down
-- has none left. The socket is there until the connection is disconnected.
pub record Sound (s : State) (ch : Channel) (fd : Option ℕ) (input output : Buffer) (shut : Bool)
    : Type 0 where
  pub in_valid : IsValid input
  pub out_valid : IsValid output
  pub writing : is_disconnected s ≡ false → is_writing ch ≡ ltb 0 (length (contents output))
  pub quiet : is_open s ≡ false → is_none_event ch ≡ true
  pub shut_state : shut ≡ true → (is_disconnecting s || is_disconnected s) ≡ true
  pub shut_flushed : shut ≡ true → is_disconnecting s ≡ true → length (contents output) ≡ 0
  pub half_closed : is_disconnecting s ≡ true → length (contents output) ≡ 0 → shut ≡ true
  pub has_socket : is_disconnected s ≡ false → has fd ≡ true

abbrev pub IsSound : Connection → Type 0
IsSound c = Sound c.state c.channel c.socket_fd c.input c.output c.write_shut

-- All that was accepted for sending: what the socket took, and then what is left.
abbrev pub stream : Connection → List ℕ
stream c = c.wire ++ contents c.output

pub readable_bytes-contents : (b : Buffer) → IsValid b → readable_bytes b ≡ length (contents b)
readable_bytes-contents b v = omega (arith, length-contents b v)

abbrev pub closed : Connection → Connection
closed c = note c.callbacks.close close_callback (disconnect c)

pub closed-IsSound : (c : Connection) → IsSound c → IsSound (closed c)
closed-IsSound c v = record {
  in_valid = v.in_valid;
  out_valid = v.out_valid;
  writing = λ h. ground arith;
  quiet = λ h. refl;
  shut_state = λ h. refl;
  shut_flushed = λ h k. ground arith;
  half_closed = λ h k. ground arith;
  has_socket = λ h. ground arith;
}

-- The numbers of errors that `handleError` passes over.
abbrev pub is_transient : ℕ → Bool
is_transient e = (e == 0) || (e == eagain) || (e == eintr)

-- An error closes an open connection, unless it is a transient one; no assertion fails.
pub handle_error-eq :
    (e : ℕ) (c : Connection)
    → handle_error e c ≡ ok (if not (is_transient e) && is_open c.state then closed c else c)
unfolding handle_error handle_close
handle_error-eq e c = ground arith
