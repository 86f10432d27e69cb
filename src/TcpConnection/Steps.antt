-- ===== src/TcpConnection/Steps.antt =====
-- What each operation of a sound connection does: how it moves the connection on.
use mathlib.Core.List.{append-nil}
use hvnetpp.Prelude.{
  ℕ, ◌≤◌, ◌≡◌, refl, ap, ◌∙◌, sym, ◌⊎◌, inl, inr, Bool, true, false, List, [], ◌++◌, Result, ok,
  err, arith, ◌==◌, ◌&&◌, not, if◌then◌else◌, length, Bool-cases, length_error, max_size,
}
use hvnetpp.Buffer.Valid.{contents}
use hvnetpp.Channel.{is_writing}
use hvnetpp.TcpConnection.{
  Connection, Call, State, is_open, is_disconnected, is_connected, is_connecting, disconnected,
  connecting, connected, disconnecting, Written, established, connect_established, handle_close,
  handle_error, handle_socket_error, handle_write, run_send, send, send_in_loop, run_shutdown,
  shutdown, shutdown_in_loop, note, queue_send, queue_shutdown,
}
use hvnetpp.TcpConnection.Sound.{
  IsSound, stream, closed, closed-IsSound, is_transient, handle_error-eq,
}
use hvnetpp.TcpConnection.Send.{IsWrite, Sends, send_in_loop_lem}
use hvnetpp.TcpConnection.Write.{handle_write_lem}

-- The order of the states.
abbrev pub rank : State → ℕ
rank connecting = 0
rank connected = 1
rank disconnecting = 2
rank disconnected = 3

pub record Advances (c c' : Connection) : Type 0 where
  pub sound : IsSound c'
  pub onward : rank c.state ≤ rank c'.state
  pub accepted : (more : List ℕ) × (stream c' ≡ stream c ++ more)
  pub silent : c.write_shut ≡ true → (c'.wire ≡ c.wire) × (c'.write_shut ≡ true)

abbrev pub Proceeds : Connection → Result Connection → Type 0
Proceeds c r = ((c' : Connection) × (r ≡ ok c') × Advances c c') ⊎ (r ≡ err length_error)

-- The bytes are untouched.
pub quiet-Advances :
    (c c' : Connection)
    → IsSound c'
    → rank c.state ≤ rank c'.state
    → c'.wire ≡ c.wire
    → contents c'.output ≡ contents c.output
    → (c.write_shut ≡ true → c'.write_shut ≡ true)
    → Advances c c'
quiet-Advances c c' v o w b t = record {
  sound = v;
  onward = o;
  accepted =
      ([], ap (λ x. x ++ contents c'.output) w ∙ ap (◌++◌ c.wire) b ∙ sym (append-nil (stream c)));
  silent = λ h. (w, t h);
}

pub same-Proceeds : (c : Connection) → IsSound c → Proceeds c (ok c)
same-Proceeds c v = inl (c, refl, quiet-Advances c c v (omega arith) refl refl (λ h. h))

pub top : (s : State) → rank s ≤ 3
top s = ground arith

pub establish-Proceeds :
    (c : Connection) → IsSound c → is_connecting c.state ≡ true → Proceeds c (connect_established c)
unfolding connect_established
establish-Proceeds c v h = inl (
  established c,
  rw h refl,
  quiet-Advances c (established c)
      (record {
        in_valid = v.in_valid;
        out_valid = v.out_valid;
        writing = λ d. ground (arith, v.writing (ground (arith, h)));
        quiet = λ d. ground arith;
        shut_state = λ t. ground (arith, v.shut_state t);
        shut_flushed = λ t d. ground arith;
        half_closed = λ d z. ground arith;
        has_socket = λ d. ground (arith, v.has_socket);
      })
      (ground arith) refl refl (λ t. t),
)

closed-Advances : (c : Connection) → IsSound c → Advances c (closed c)
closed-Advances c v =
    quiet-Advances c (closed c) (closed-IsSound c v) (top c.state) refl refl (λ t. t)

pub close-Proceeds :
    (c : Connection) → IsSound c → is_open c.state ≡ true → Proceeds c (handle_close c)
unfolding handle_close
close-Proceeds c v h = inl (closed c, rw h refl, closed-Advances c v)

pub error-Proceeds : (e : ℕ) (c : Connection) → IsSound c → Proceeds c (handle_error e c)
error-Proceeds e c v = rw (handle_error-eq e c) (go (not (is_transient e) && is_open c.state))
  where
    go : (b : Bool) → Proceeds c (ok (if b then closed c else c))
    go true = inl (closed c, refl, closed-Advances c v)
    go false = same-Proceeds c v

pub socket_error-Proceeds :
    (e : ℕ) (c : Connection) → IsSound c → Proceeds c (handle_socket_error e c)
unfolding handle_socket_error
socket_error-Proceeds e c v = go (e == 0)
  where
    go : (b : Bool) → Proceeds c (if b then ok c else handle_error e c)
    go true = same-Proceeds c v
    go false = error-Proceeds e c v

pub run_shutdown-Proceeds : (c : Connection) → IsSound c → Proceeds c (ok (run_shutdown c))
unfolding run_shutdown shutdown_in_loop
run_shutdown-Proceeds c v = elim (Bool-cases (is_connected c.state)) [
  | inr n ↦ rw n (same-Proceeds c v)
  | inl h ↦ rw h (
      inl (
        _,
        refl,
        quiet-Advances c _
            (record {
              in_valid = v.in_valid;
              out_valid = v.out_valid;
              writing = λ d. v.writing (ground (arith, h));
              quiet = λ d. ground arith;
              shut_state = λ t. refl;
              shut_flushed = λ t d. ground (arith, v.writing, v.shut_state);
              half_closed = λ d z. ground (arith, v.writing, v.has_socket);
              has_socket = λ d. v.has_socket (ground (arith, h));
            })
            (ground (arith, h)) refl refl (λ t. ground arith),
      ))
]

-- Once the write half is shut down there is nothing to write.
shut-idle :
    (write : List ℕ → Written) (c : Connection)
    → IsSound c
    → c.write_shut ≡ true
    → handle_write write c ≡ ok c
unfolding handle_write
shut-idle write c v s = elim (Bool-cases (is_disconnected c.state)) [
  | inl d ↦ rw d refl
  | inr d ↦
      let z = v.shut_flushed s (ground (arith, v.shut_state s, d)) in
      let w : is_writing c.channel ≡ false = ground (arith, v.writing d, z) in rw (d, w) refl
]

pub write-Proceeds :
    (write : List ℕ → Written) (c : Connection)
    → IsSound c
    → IsWrite write
    → Proceeds c (handle_write write c)
write-Proceeds write c v k = elim (Bool-cases c.write_shut) [
  | inl s ↦ rw (shut-idle write c v s) (same-Proceeds c v)
  | inr s ↦
      let (c', e, f) = handle_write_lem write c v k in
      inl (
        c',
        e,
        record {
          sound = f.sound;
          onward = elim f.state [
            | inl q ↦ omega (arith, ap rank q)
            | inr q ↦ omega (arith, ap rank q, top c.state)
          ];
          accepted = ([], f.stream ∙ sym (append-nil (stream c)));
          silent = λ h. ground arith;
        },
      )
]

not_shut : (c : Connection) → IsSound c → is_connected c.state ≡ true → c.write_shut ≡ false
not_shut c v h = elim (Bool-cases c.write_shut) [
  | inl t ↦ ground (arith, v.shut_state t)
  | inr f ↦ f
]

send-Proceeds :
    (write : List ℕ → Written) (message : List ℕ) (c : Connection)
    → IsSound c
    → is_connected c.state ≡ true
    → IsWrite write
    → length message ≤ max_size
    → Proceeds c (send_in_loop write message c)
send-Proceeds write message c v h k l =
    go (send_in_loop write message c) (send_in_loop_lem write message c v h l k)
  where
    f : c.write_shut ≡ false
    f = not_shut c v h

    go : (r : Result Connection) → Sends message c r → Proceeds c r
    go r (inl (c', e, s, q, t)) = inl (
      c',
      e,
      record {
        sound = s;
        onward = omega (arith, ap rank q);
        accepted = (message, t);
        silent = λ h. ground (arith, f);
      },
    )
    go r (inr (inl (c', e, s, q, t))) = inl (
      c',
      e,
      record {
        sound = s;
        onward = omega (arith, ap rank q, top c.state);
        accepted = ([], t ∙ sym (append-nil (stream c)));
        silent = λ h. ground (arith, f);
      },
    )
    go r (inr (inr (e, m))) = inr e

pub run_send-Proceeds :
    (write : List ℕ → Written) (message : List ℕ) (c : Connection)
    → IsSound c
    → IsWrite write
    → length message ≤ max_size
    → Proceeds c (run_send write message c)
unfolding run_send
run_send-Proceeds write message c v k l = elim (Bool-cases (is_connected c.state)) [
  | inl h ↦ rw h (send-Proceeds write message c v h k l)
  | inr h ↦ rw h (same-Proceeds c v)
]

pub noted-Proceeds :
    (b : Bool) (k : Call) (c : Connection) → IsSound c → Proceeds c (ok (note b k c))
noted-Proceeds b k c v =
    inl (note b k c, refl, quiet-Advances c (note b k c) v (omega arith) refl refl (λ h. h))

pub call_send-Proceeds :
    (b : Bool) (write : List ℕ → Written) (message : List ℕ) (c : Connection)
    → IsSound c
    → IsWrite write
    → length message ≤ max_size
    → Proceeds c (send b write message c)
unfolding send run_send
call_send-Proceeds b write message c v k l = go (length message == 0) b
  where
    go :
        (z b : Bool)
        → Proceeds c (
            if z
            then ok c
            else (if b
                then run_send write message c
                else ok (note (is_connected c.state) (queue_send message) c)))
    go true b = same-Proceeds c v
    go false true = run_send-Proceeds write message c v k l
    go false false = noted-Proceeds (is_connected c.state) (queue_send message) c v

pub shutdown-Proceeds : (b : Bool) (c : Connection) → IsSound c → Proceeds c (ok (shutdown b c))
unfolding shutdown
shutdown-Proceeds true c v = run_shutdown-Proceeds c v
shutdown-Proceeds false c v = noted-Proceeds (is_connected c.state) queue_shutdown c v
