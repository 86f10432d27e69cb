-- ===== src/TcpConnection/Life.antt =====
-- The life of a connection: every sequence of what the loop, its channel and its users do to it.
use mathlib.Core.List.{append_assoc, append-nil}
use hvnetpp.Prelude.{
  ℕ, ◌≤◌, ◌≡◌, refl, ap, ◌∙◌, sym, inl, inr, Bool, true, false, List, [], ◌∷◌, ◌++◌, Result, ok,
  arith, length, ◌>>=◌, max_size,
}
use hvnetpp.Buffer.{Buffer, Received}
use hvnetpp.Buffer.Valid.{IsValid, contents}
use hvnetpp.Channel.{Channel, is_none_event}
use hvnetpp.TcpConnection.{
  Connection, is_open, is_connecting, Written, Callbacks, new, connect_established,
  connect_destroyed, handle_close, handle_socket_error, handle_read, handle_write, run_send, send,
  run_shutdown, shutdown,
}
use hvnetpp.TcpConnection.Sound.{IsSound, stream}
use hvnetpp.TcpConnection.Send.{IsWrite}
use hvnetpp.TcpConnection.Steps.{
  Advances, Proceeds, establish-Proceeds, close-Proceeds, socket_error-Proceeds,
  run_shutdown-Proceeds, write-Proceeds, run_send-Proceeds, call_send-Proceeds, shutdown-Proceeds,
}
use hvnetpp.TcpConnection.Receive.{IsRead, read-Proceeds, destroy-Proceeds}

pub data Step : Type 0 where
  establish : Step
  destroy : Step
  readable_event : (ℕ → Received) → Step
  writable_event : (List ℕ → Written) → Step
  hang_up : Step
  error_event : ℕ → Step
  call_send : Bool → (List ℕ → Written) → List ℕ → Step
  queued_send : (List ℕ → Written) → List ℕ → Step
  call_shutdown : Bool → Step
  queued_shutdown : Step

unfoldable pub perform : Step → Connection → Result Connection
perform establish c = connect_established c
perform destroy c = connect_destroyed c
perform (readable_event readv) c = handle_read readv c
perform (writable_event write) c = handle_write write c
perform hang_up c = handle_close c
perform (error_event e) c = handle_socket_error e c
perform (call_send b write message) c = send b write message c
perform (queued_send write message) c = run_send write message c
perform (call_shutdown b) c = ok (shutdown b c)
perform queued_shutdown c = ok (run_shutdown c)

-- Who may do what, and when: the server establishes a new connection, a hang-up comes while the
-- connection is open, and system calls follow their contracts.
abbrev pub Permitted : Step → Connection → Type 0
Permitted establish c = is_connecting c.state ≡ true
Permitted destroy c = Unit {0}
Permitted (readable_event readv) c = (is_connecting c.state ≡ false) × IsRead readv
Permitted (writable_event write) c = IsWrite write
Permitted hang_up c = is_open c.state ≡ true
Permitted (error_event e) c = Unit {0}
Permitted (call_send b write message) c = IsWrite write × (length message ≤ max_size)
Permitted (queued_send write message) c = IsWrite write × (length message ≤ max_size)
Permitted (call_shutdown b) c = Unit {0}
Permitted queued_shutdown c = Unit {0}

-- Whatever step a sound connection takes, with system calls that follow their contracts, no
-- assertion fails, and only a buffer's limit may throw. The connection stays sound; its state only
-- moves on from connecting to connected, disconnecting and disconnected; what was accepted for
-- sending is kept in order, and more may be accepted behind it; and once the write half is shut
-- down nothing more goes on the wire.
pub perform-Proceeds :
    (s : Step) (c : Connection) → IsSound c → Permitted s c → Proceeds c (perform s c)
unfolding perform
perform-Proceeds establish c v p = establish-Proceeds c v p
perform-Proceeds destroy c v p = destroy-Proceeds c v
perform-Proceeds (readable_event readv) c v (n, k) = read-Proceeds readv c v n k
perform-Proceeds (writable_event write) c v p = write-Proceeds write c v p
perform-Proceeds hang_up c v p = close-Proceeds c v p
perform-Proceeds (error_event e) c v p = socket_error-Proceeds e c v
perform-Proceeds (call_send b write message) c v (k, l) = call_send-Proceeds b write message c v k l
perform-Proceeds (queued_send write message) c v (k, l) = run_send-Proceeds write message c v k l
perform-Proceeds (call_shutdown b) c v p = shutdown-Proceeds b c v
perform-Proceeds queued_shutdown c v p = run_shutdown-Proceeds c v

-- The steps, in order, each permitted where it is taken.
unfoldable pub run : List Step → Connection → Result Connection
unfolding perform
run [] c = ok c
run (s ∷ ss) c = perform s c >>= run ss

abbrev pub Allowed : List Step → Connection → Type 0
Allowed [] c = Unit {0}
Allowed (s ∷ ss) c = Permitted s c × ((c' : Connection) → perform s c ≡ ok c' → Allowed ss c')

trans-Advances : (a b c : Connection) → Advances a b → Advances b c → Advances a c
trans-Advances a b c f g =
    let (m, p) = f.accepted in
    let (n, q) = g.accepted in
    record {
      sound = g.sound;
      onward = omega (arith, f.onward, g.onward);
      accepted = (m ++ n, q ∙ ap (λ t. t ++ n) p ∙ append_assoc (stream a) m n);
      silent = λ h. let (w, t) = f.silent h in let (x, y) = g.silent t in (x ∙ w, y);
    }

pub run-Proceeds :
    (ss : List Step) (c : Connection) → IsSound c → Allowed ss c → Proceeds c (run ss c)
unfolding run
run-Proceeds [] c v p = inl (
  c,
  refl,
  record {
    sound = v;
    onward = omega arith;
    accepted = ([], sym (append-nil (stream c)));
    silent = λ h. (refl, h);
  },
)
run-Proceeds (s ∷ ss) c v (p, q) =
    go (λ d w a. run-Proceeds ss d w a) (perform s c) refl (perform-Proceeds s c v p)
  where
    go :
        ((d : Connection) → IsSound d → Allowed ss d → Proceeds d (run ss d))
        → (r : Result Connection) → perform s c ≡ r
        → Proceeds c r
        → Proceeds c (run (s ∷ ss) c)
    go later r e (inr f) = inr (rw (e, f) refl)
    go later r e (inl (c', f, a)) = elim (later c' a.sound (q c' (e ∙ f))) [
      | inl (d, g, b) ↦ inl (d, rw (e, f) g, trans-Advances c c' d a b)
      | inr g ↦ inr (rw (e, f) g)
    ]

-- A new connection is sound.
pub new-IsSound :
    (sockfd : ℕ) (callbacks : Callbacks) (ch : Channel) (input output : Buffer)
    → IsValid input
    → IsValid output
    → contents output ≡ []
    → is_none_event ch ≡ true
    → IsSound (new sockfd callbacks ch input output)
unfolding new
new-IsSound sockfd callbacks ch input output i o z q = record {
  in_valid = i;
  out_valid = o;
  writing = λ d. ground (arith, ap length z);
  quiet = λ d. q;
  shut_state = λ t. ground arith;
  shut_flushed = λ t d. ap length z;
  half_closed = λ d y. ground arith;
  has_socket = λ d. refl;
}
