-- ===== src/TcpConnection/Receive.antt =====
-- What reading, and the connection's destruction, do to a sound connection.
use hvnetpp.Prelude.{
  ℕ, ◌≤◌, ◌≡◌, refl, ap, inl, inr, true, false, List, [], ◌∷◌, Result, ok, arith, ◌||◌, not, length,
  Bool-cases, ◌>>=◌,
}
use hvnetpp.Buffer.{Buffer, Received, failed, bytes}
use hvnetpp.Buffer.Valid.{IsValid, contents}
use hvnetpp.Buffer.Input.{read_fd_lem}
use hvnetpp.Channel.{is_none_event}
use hvnetpp.TcpConnection.{
  Connection, is_open, is_disconnected, is_connecting, close_socket, disconnect, connect_destroyed,
  removed, remove_channel, after_read, handle_read, message_callback,
}
use hvnetpp.TcpConnection.Sound.{IsSound, closed-IsSound}
use hvnetpp.TcpConnection.Steps.{
  Proceeds, quiet-Advances, same-Proceeds, error-Proceeds, close-Proceeds, noted-Proceeds, top,
}

abbrev pub IsRead : (ℕ → Received) → Type 0
IsRead readv = (n : ℕ) (received : List ℕ) → readv n ≡ bytes received → length received ≤ n

-- The input changes, and stays valid.
given : Buffer → Connection → Connection
given b c = record c { input = b }

given-Sound :
    (b : Buffer) (c : Connection) → IsValid b → IsSound c → IsSound (record c { input = b })
given-Sound b c k v = record {
  in_valid = k;
  out_valid = v.out_valid;
  writing = v.writing;
  quiet = v.quiet;
  shut_state = v.shut_state;
  shut_flushed = v.shut_flushed;
  half_closed = v.half_closed;
  has_socket = v.has_socket;
}

-- What holds of the connection with its new input holds of the connection.
given-Proceeds :
    (b : Buffer) (c : Connection) (r : Result Connection)
    → Proceeds (record c { input = b }) r
    → Proceeds c r
given-Proceeds b c r (inl (c', e, a)) =
    inl (
      c',
      e,
      record { sound = a.sound; onward = a.onward; accepted = a.accepted; silent = a.silent },
    )
given-Proceeds b c r (inr e) = inr e

after_read-Proceeds :
    (r : Received) (b : Buffer) (c : Connection)
    → IsSound c
    → IsValid b
    → is_open c.state ≡ true
    → Proceeds c (after_read (r, b) c)
unfolding after_read
after_read-Proceeds (failed e) b c v k o =
    given-Proceeds b c _ (error-Proceeds e (record c { input = b }) (given-Sound b c k v))
after_read-Proceeds (bytes []) b c v k o =
    given-Proceeds b c _ (close-Proceeds (record c { input = b }) (given-Sound b c k v) o)
after_read-Proceeds (bytes (x ∷ xs)) b c v k o = given-Proceeds b c _ (
    noted-Proceeds c.callbacks.message message_callback (record c { input = b })
      (given-Sound b c k v))

pub read-Proceeds :
    (readv : ℕ → Received) (c : Connection)
    → IsSound c
    → is_connecting c.state ≡ false
    → IsRead readv
    → Proceeds c (handle_read readv c)
unfolding handle_read
read-Proceeds readv c v n k = elim (Bool-cases (is_disconnected c.state)) [
  | inl d ↦ rw d (same-Proceeds c v)
  | inr d ↦ rw d (elim (read_fd_lem readv c.input v.in_valid k) [
    | inl (e, h, f) ↦ rw f (after_read-Proceeds (failed e) c.input c v v.in_valid (ground arith))
    | inr (received, h, inl (b, f, a)) ↦
        rw f (after_read-Proceeds (bytes received) b c v a.valid (ground arith))
    | inr (received, h, inr (f, a)) ↦ rw f (inr refl)
  ])
]

-- Removing a disconnected channel and closing the socket.
finish-IsSound :
    (d : Connection)
    → IsSound d
    → is_disconnected d.state ≡ true
    → IsSound (close_socket (removed d))
unfolding close_socket
finish-IsSound d v h = record {
  in_valid = v.in_valid;
  out_valid = v.out_valid;
  writing = λ d. ground (arith, h);
  quiet = λ o. v.quiet (ground (arith, h));
  shut_state = v.shut_state;
  shut_flushed = v.shut_flushed;
  half_closed = v.half_closed;
  has_socket = λ d. ground (arith, h);
}

finish-eq :
    (d : Connection)
    → IsSound d
    → is_disconnected d.state ≡ true
    → (remove_channel d >>= λ c₁. ok (close_socket c₁)) ≡ ok (close_socket (removed d))
finish-eq d v h =
    let q = v.quiet (ground (arith, h)) in
    let e : (not d.channel.added_to_loop || is_none_event d.channel) ≡ true = ground (arith, q) in
    rw e refl

finish-Proceeds :
    (c d : Connection)
    → IsSound d
    → is_disconnected d.state ≡ true
    → d.wire ≡ c.wire
    → d.output ≡ c.output
    → (c.write_shut ≡ true → d.write_shut ≡ true)
    → Proceeds c (remove_channel d >>= λ c₁. ok (close_socket c₁))
unfolding close_socket
finish-Proceeds c d v h w o s = inl (
  close_socket (removed d),
  finish-eq d v h,
  quiet-Advances c (close_socket (removed d)) (finish-IsSound d v h)
      (ground (arith, h, top c.state)) w (ap contents o) s,
)

disconnect-IsSound : (c : Connection) → IsSound c → IsSound (disconnect c)
disconnect-IsSound c v = closed-IsSound c v

pub destroy-Proceeds : (c : Connection) → IsSound c → Proceeds c (connect_destroyed c)
unfolding connect_destroyed
destroy-Proceeds c v = elim (Bool-cases (is_disconnected c.state)) [
  | inl d ↦ rw d (finish-Proceeds c c v d refl refl (λ t. t))
  | inr d ↦ rw d (finish-Proceeds c (disconnect c) (disconnect-IsSound c v) refl refl refl (λ t. t))
]

-- A sound connection is destroyed without a fault, and is disconnected then.
pub connect_destroyed_lem :
    (c : Connection)
    → IsSound c
    → (c' : Connection) × (connect_destroyed c ≡ ok c')
      × IsSound c'
      × (is_disconnected c'.state ≡ true)
unfolding connect_destroyed close_socket
connect_destroyed_lem c v = elim (Bool-cases (is_disconnected c.state)) [
  | inl d ↦ (close_socket (removed c), rw d (finish-eq c v d), finish-IsSound c v d, d)
  | inr d ↦
      let k = disconnect-IsSound c v in
      (
        close_socket (removed (disconnect c)),
        rw d (finish-eq (disconnect c) k refl),
        finish-IsSound (disconnect c) k refl,
        refl,
      )
]
