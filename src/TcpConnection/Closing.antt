-- ===== src/TcpConnection/Closing.antt =====
-- When the close callback is called.
use hvnetpp.Prelude.{
  ℕ, ◌+◌, ◌≡◌, refl, ap, ◌∙◌, sym, ◌⊎◌, inl, inr, Bool, true, false, List, [], ◌∷◌, ◌++◌, Result,
  ok, err, ◌>>=◌, arith, ◌==◌, ◌&&◌, ◌||◌, not, ltb, sub_size, add_size, if◌then◌else◌, length,
  Bool-cases, drop, take,
}
use hvnetpp.Buffer.{Buffer, Received, failed, bytes, read_fd, append, retrieve, readable_bytes}
use hvnetpp.TcpConnection.{
  Connection, Call, close_callback, connection_callback, message_callback, queue_write_complete,
  queue_high_water_mark, queue_send, queue_shutdown, is_disconnected, is_open, is_connected,
  is_disconnecting, Written, wrote, write_failed, note, disconnect, set_channel, disconnected,
  handle_close, handle_error, handle_socket_error, after_read, handle_read, after_flush,
  after_write, handle_write, keep_rest, after_direct, send_in_loop, run_send, send, run_shutdown,
  shutdown, shutdown_in_loop, readable, passes_mark, eagain, eintr, epipe,
}
use hvnetpp.Channel.{is_writing, drop_all, drop_writing}
use hvnetpp.TcpConnection.Sound.{closed, is_transient, handle_error-eq}
use hvnetpp.TcpConnection.Life.{
  Step, perform, establish, destroy, readable_event, writable_event, hang_up, error_event,
  call_send, queued_send, call_shutdown, queued_shutdown,
}

abbrev pub one : Call → ℕ
one close_callback = 1
one _ = 0

-- How often the close callback was called.
abbrev pub closes : List Call → ℕ
closes [] = 0
closes (k ∷ ks) = one k + closes ks

closes-snoc : (ks : List Call) (k : Call) → closes (ks ++ (k ∷ [])) ≡ closes ks + one k
closes-snoc [] k = omega arith
closes-snoc (j ∷ ks) k = omega (arith, closes-snoc ks k)

abbrev pub if_set : Bool → ℕ
if_set true = 1
if_set false = 0

-- Nothing is closed.
abbrev pub Quiet : Connection → Connection → Type 0
Quiet c c' =
    (is_disconnected c'.state ≡ is_disconnected c.state)
    × (closes c'.calls ≡ closes c.calls)
    × (c'.callbacks ≡ c.callbacks)

-- The connection is disconnected, and the close callback called if it is set.
abbrev pub Closes : Connection → Connection → Type 0
Closes c c' =
    (is_disconnected c.state ≡ false)
    × (is_disconnected c'.state ≡ true)
    × (closes c'.calls ≡ closes c.calls + if_set c.callbacks.close)
    × (c'.callbacks ≡ c.callbacks)

abbrev pub IsMove : Connection → Result Connection → Type 0
IsMove c (err f) = Unit {0}
IsMove c (ok c') = Quiet c c' ⊎ Closes c c'

closes-note :
    (b : Bool) (k : Call) (c : Connection) → one k ≡ 0 → closes (note b k c).calls ≡ closes c.calls
closes-note true k c z = omega (arith, closes-snoc c.calls k)
closes-note false k c z = refl

same-IsMove : (c : Connection) → IsMove c (ok c)
same-IsMove c = inl (refl, refl, refl)

note-IsMove : (b : Bool) (k : Call) (c : Connection) → one k ≡ 0 → IsMove c (ok (note b k c))
note-IsMove b k c z = inl (refl, closes-note b k c z, refl)

-- What follows something quiet.
after-Quiet : (a b : Connection) (r : Result Connection) → Quiet a b → IsMove b r → IsMove a r
after-Quiet a b (err f) q m = tt
after-Quiet a b (ok c) (s, n, k) (inl (t, p, l)) = inl (t ∙ s, p ∙ n, l ∙ k)
after-Quiet a b (ok c) (s, n, k) (inr (t, u, p, l)) = inr (
  sym s ∙ t,
  u,
  p ∙ ap (λ x. x + if_set b.callbacks.close) n ∙ ap (λ x. closes a.calls + if_set x.close) k,
  l ∙ k,
)

bind-IsMove {ℓ} :
    {A : Type ℓ} (c : Connection) (m : Result A) (next : A → Result Connection)
    → ((x : A) → IsMove c (next x))
    → IsMove c (m >>= next)
bind-IsMove c (err f) next h = tt
bind-IsMove c (ok x) next h = h x

closes-note_close :
    (b : Bool) (c : Connection) → closes (note b close_callback c).calls ≡ closes c.calls + if_set b
closes-note_close true c = omega (arith, closes-snoc c.calls close_callback)
closes-note_close false c = omega arith

closed-Closes : (c : Connection) → is_open c.state ≡ true → Closes c (closed c)
closed-Closes c h = (
  ground arith,
  refl,
  closes-note_close c.callbacks.close (disconnect c)
      ∙ ap (λ n. n + if_set c.callbacks.close)
          (closes-note c.callbacks.connection (connection_callback disconnected)
            (set_channel (drop_all c.channel) (record c { state = disconnected })) refl),
  refl,
)

close-IsMove : (c : Connection) → IsMove c (handle_close c)
unfolding handle_close
close-IsMove c = elim (Bool-cases (is_open c.state)) [
  | inl h ↦ rw h (inr (closed-Closes c h))
  | inr h ↦ rw h tt
]

error-IsMove : (e : ℕ) (c : Connection) → IsMove c (handle_error e c)
error-IsMove e c = rw (handle_error-eq e c) (go (not (is_transient e)) (is_open c.state) refl)
  where
    go : (t b : Bool) → is_open c.state ≡ b → IsMove c (ok (if t && b then closed c else c))
    go true true h = inr (closed-Closes c h)
    go true false h = same-IsMove c
    go false b h = same-IsMove c

-- A branch.
if-IsMove :
    (c : Connection) (b : Bool) (x y : Result Connection)
    → IsMove c x
    → IsMove c y
    → IsMove c (if b then x else y)
if-IsMove c true x y p q = p
if-IsMove c false x y p q = q

socket_error-IsMove : (e : ℕ) (c : Connection) → IsMove c (handle_socket_error e c)
unfolding handle_socket_error
socket_error-IsMove e c = if-IsMove c (e == 0) _ _ (same-IsMove c) (error-IsMove e c)

after_read-IsMove : (r : Received × Buffer) (c : Connection) → IsMove c (after_read r c)
unfolding after_read
after_read-IsMove (failed e, b) c = error-IsMove e (record c { input = b })
after_read-IsMove (bytes [], b) c = close-IsMove (record c { input = b })
after_read-IsMove (bytes (x ∷ xs), b) c =
    note-IsMove c.callbacks.message message_callback (record c { input = b }) refl

read-IsMove : (readv : ℕ → Received) (c : Connection) → IsMove c (handle_read readv c)
unfolding handle_read
read-IsMove readv c =
    if-IsMove c (is_disconnected c.state) _ _ (same-IsMove c)
      (bind-IsMove c (read_fd readv c.input) _ (λ r. after_read-IsMove r c))

shutdown_in_loop-IsMove : (c : Connection) → IsMove c (ok (shutdown_in_loop c))
unfolding shutdown_in_loop
shutdown_in_loop-IsMove c = inl (refl, refl, refl)

after_flush-IsMove : (c : Connection) → IsMove c (ok (after_flush c))
unfolding after_flush shutdown_in_loop
after_flush-IsMove c = go (is_disconnecting c.state)
  where
    noted : Connection
    noted =
        note c.callbacks.write_complete queue_write_complete
          (set_channel (drop_writing c.channel) c)

    go : (b : Bool) → IsMove c (ok (if b then shutdown_in_loop noted else noted))
    go true =
        note-IsMove c.callbacks.write_complete queue_write_complete
          (set_channel (drop_writing c.channel) c) refl
    go false =
        note-IsMove c.callbacks.write_complete queue_write_complete
          (set_channel (drop_writing c.channel) c) refl

after_write-IsMove : (w : Written) (c : Connection) → IsMove c (after_write w c)
unfolding after_write
after_write-IsMove (write_failed e) c = error-IsMove e c
after_write-IsMove (wrote n) c =
    if-IsMove c (n == 0) _ _ (error-IsMove epipe c)
      (bind-IsMove c (retrieve n c.output) _ (λ b. flushed b (readable_bytes b == 0)))
  where
    taken : Buffer → Connection
    taken b = record c { output = b; wire = c.wire ++ take n (readable c.output) }

    flushed : (b : Buffer) (e : Bool) → IsMove c (ok (if e then after_flush (taken b) else taken b))
    flushed b true = after_flush-IsMove (taken b)
    flushed b false = inl (refl, refl, refl)

write-IsMove : (write : List ℕ → Written) (c : Connection) → IsMove c (handle_write write c)
unfolding handle_write
write-IsMove write c = if-IsMove c (is_disconnected c.state) _ _ (same-IsMove c) (
    if-IsMove c (is_writing c.channel) _ _ (after_write-IsMove (write (readable c.output)) c)
      (same-IsMove c))

keep_rest-IsMove : (n : ℕ) (message : List ℕ) (c : Connection) → IsMove c (keep_rest n message c)
unfolding keep_rest
keep_rest-IsMove n message c =
    let remaining = sub_size (length message) n in
    if-IsMove c (ltb 0 remaining) _ _
      (bind-IsMove c (append (drop n message) c.output) _ (λ b.
        note-IsMove (passes_mark (readable_bytes c.output) remaining c)
          (queue_high_water_mark (add_size (readable_bytes c.output) remaining)) c refl))
      (same-IsMove c)

after_direct-IsMove :
    (w : Written) (message : List ℕ) (c : Connection) → IsMove c (after_direct w message c)
unfolding after_direct
after_direct-IsMove (wrote n) message c =
    let b = (sub_size (length message) n == 0) && c.callbacks.write_complete in
    let d : Connection = record c { wire = c.wire ++ take n message } in
    after-Quiet c (note b queue_write_complete d) _
      (refl, closes-note b queue_write_complete d refl, refl)
      (keep_rest-IsMove n message (note b queue_write_complete d))
after_direct-IsMove (write_failed e) message c =
    if-IsMove c ((e == eagain) || (e == eintr)) _ _ (keep_rest-IsMove 0 message c)
      (error-IsMove e c)

send_in_loop-IsMove :
    (write : List ℕ → Written) (message : List ℕ) (c : Connection)
    → IsMove c (send_in_loop write message c)
unfolding send_in_loop
send_in_loop-IsMove write message c = if-IsMove c (is_disconnected c.state) _ _ (same-IsMove c) (
    if-IsMove c (not (is_writing c.channel) && (readable_bytes c.output == 0)) _ _
      (after_direct-IsMove (write message) message c) (keep_rest-IsMove 0 message c))

run_send-IsMove :
    (write : List ℕ → Written) (message : List ℕ) (c : Connection)
    → IsMove c (run_send write message c)
unfolding run_send
run_send-IsMove write message c =
    if-IsMove c (is_connected c.state) _ _ (send_in_loop-IsMove write message c) (same-IsMove c)

send-IsMove :
    (b : Bool) (write : List ℕ → Written) (message : List ℕ) (c : Connection)
    → IsMove c (send b write message c)
unfolding send
send-IsMove b write message c = if-IsMove c (length message == 0) _ _ (same-IsMove c) (
    if-IsMove c b _ _
      (if-IsMove c (is_connected c.state) _ _ (send_in_loop-IsMove write message c) (same-IsMove c))
      (note-IsMove (is_connected c.state) (queue_send message) c refl))

run_shutdown-IsMove : (c : Connection) → IsMove c (ok (run_shutdown c))
unfolding run_shutdown shutdown_in_loop
run_shutdown-IsMove c = elim (Bool-cases (is_connected c.state)) [
  | inl h ↦ rw h (inl (ground arith, refl, refl))
  | inr h ↦ rw h (same-IsMove c)
]

shutdown-IsMove : (b : Bool) (c : Connection) → IsMove c (ok (shutdown b c))
unfolding shutdown
shutdown-IsMove true c = run_shutdown-IsMove c
shutdown-IsMove false c = note-IsMove (is_connected c.state) queue_shutdown c refl

-- What the channel and the users of a connection do, and not its server.
abbrev pub is_use : Step → Bool
is_use establish = false
is_use destroy = false
is_use _ = true

-- What is done to a connection either leaves it open or closed as it was and calls no close callback,
-- or it closes an open connection and then calls the close callback once, if it is set.
pub perform-IsMove : (s : Step) (c : Connection) → is_use s ≡ true → IsMove c (perform s c)
unfolding perform
perform-IsMove establish c u = absurd (ground arith)
perform-IsMove destroy c u = absurd (ground arith)
perform-IsMove (readable_event readv) c u = read-IsMove readv c
perform-IsMove (writable_event write) c u = write-IsMove write c
perform-IsMove hang_up c u = close-IsMove c
perform-IsMove (error_event e) c u = socket_error-IsMove e c
perform-IsMove (call_send b write message) c u = send-IsMove b write message c
perform-IsMove (queued_send write message) c u = run_send-IsMove write message c
perform-IsMove (call_shutdown b) c u = shutdown-IsMove b c
perform-IsMove queued_shutdown c u = run_shutdown-IsMove c
