-- ===== src/TcpConnection/Dispatch.antt =====
-- A channel's `handleEvent` with the handlers that the constructor of src/TcpConnection.cpp sets, and
-- what the users' callbacks do between them.
use hvnetpp.Prelude.{
  ℕ, ◌≤◌, ◌≡◌, refl, ap, sym, subst, ◌⊎◌, inl, inr, Bool, true, false, List, [], ◌∷◌, ◌++◌, Result,
  ok, err, aborted, arith, ◌&&◌, ◌||◌, not, length, max_size, Bool-cases, if◌then◌else◌,
}
use hvnetpp.Buffer.{Received}
use hvnetpp.Channel.{
  Callback, on_close, on_error, on_read, on_write, handle_event, handle_event_with_guard, call_if,
}
use hvnetpp.Channel.Dispatch.{asked}
use hvnetpp.TcpConnection.{Connection, Written, is_open, is_connecting, handle_close}
use hvnetpp.TcpConnection.Sound.{IsSound}
use hvnetpp.TcpConnection.Send.{IsWrite}
use hvnetpp.TcpConnection.Receive.{IsRead}
use hvnetpp.TcpConnection.Steps.{Advances, Proceeds, rank}
use hvnetpp.TcpConnection.Life.{
  Step, hang_up, error_event, readable_event, writable_event, call_send, call_shutdown, queued_send,
  queued_shutdown, establish, destroy, perform, run, Permitted, Allowed, perform-Proceeds,
  run-Proceeds,
}

-- What the system calls return while the event is handled.
pub record Answers : Type 0 where
  pub readv : ℕ → Received
  pub write : List ℕ → Written
  pub so_error : ℕ

-- The handler that is set for a callback.
pub handler : Answers → Callback → Step
handler a on_close = hang_up
handler a on_error = error_event a.so_error
handler a on_read = readable_event a.readv
handler a on_write = writable_event a.write

-- Each handler ends with the user's callback, which may use the connection.
pub steps_of : Answers → (Callback → List Step) → List Callback → List Step
unfolding handler
steps_of a user [] = []
steps_of a user (k ∷ ks) = handler a k ∷ (user k ++ steps_of a user ks)

-- `handleEvent` of the connection's channel; `alive` says whether the connection can be locked.
unfoldable pub handle_connection_event :
    Answers → (Callback → List Step) → Bool → Connection → Result Connection
unfolding steps_of handle_event run
handle_connection_event a user alive c = run (steps_of a user (handle_event alive c.channel)) c

-- What a user may do to a connection in a callback.
abbrev pub IsUse : Step → Type 0
IsUse (call_send b write message) = IsWrite write × (length message ≤ max_size)
IsUse (call_shutdown b) = Unit {0}
IsUse _ = ⊥

abbrev pub AreUses : List Step → Type 0
AreUses [] = Unit {0}
AreUses (s ∷ ss) = IsUse s × AreUses ss

-- A step that is permitted in every state but the first.
abbrev IsSafe : Step → Type 0
IsSafe s = (c : Connection) → is_connecting c.state ≡ false → Permitted s c

abbrev AreSafe : List Step → Type 0
AreSafe [] = Unit {0}
AreSafe (s ∷ ss) = IsSafe s × AreSafe ss

AreSafe-append : (ss ts : List Step) → AreSafe ss → AreSafe ts → AreSafe (ss ++ ts)
AreSafe-append [] ts h k = k
AreSafe-append (s ∷ ss) ts (p, h) k = (p, AreSafe-append ss ts h k)

IsUse-IsSafe : (s : Step) → IsUse s → IsSafe s
IsUse-IsSafe (call_send b write message) h c n = h
IsUse-IsSafe (call_shutdown b) h c n = tt
IsUse-IsSafe establish h c n = absurd h
IsUse-IsSafe destroy h c n = absurd h
IsUse-IsSafe (readable_event r) h c n = absurd h
IsUse-IsSafe (writable_event w) h c n = absurd h
IsUse-IsSafe hang_up h c n = absurd h
IsUse-IsSafe (error_event e) h c n = absurd h
IsUse-IsSafe (queued_send w m) h c n = absurd h
IsUse-IsSafe queued_shutdown h c n = absurd h

AreUses-AreSafe : (ss : List Step) → AreUses ss → AreSafe ss
AreUses-AreSafe [] h = tt
AreUses-AreSafe (s ∷ ss) (p, h) = (IsUse-IsSafe s p, AreUses-AreSafe ss h)

past_connecting :
    (c c' : Connection)
    → rank c.state ≤ rank c'.state
    → is_connecting c.state ≡ false
    → is_connecting c'.state ≡ false
past_connecting c c' h n = ground (arith, h, n)

abbrev Reaches : Connection → Result Connection → Type 0
Reaches c (ok d) = Advances c d
Reaches c (err f) = Unit {0}

Proceeds-Reaches : (c : Connection) (r : Result Connection) → Proceeds c r → Reaches c r
Proceeds-Reaches c r (inl (d, e, a)) = subst (Reaches c) (sym e) a
Proceeds-Reaches c r (inr e) = subst (Reaches c) (sym e) tt

performed :
    (s : Step) (c d : Connection) → IsSound c → Permitted s c → perform s c ≡ ok d → Advances c d
performed s c d v p e =
    subst (Reaches c) e (Proceeds-Reaches c (perform s c) (perform-Proceeds s c v p))

AreSafe-Allowed :
    (ss : List Step) (c : Connection)
    → IsSound c
    → is_connecting c.state ≡ false
    → AreSafe ss
    → Allowed ss c
AreSafe-Allowed [] c v n h = tt
AreSafe-Allowed (s ∷ ss) c v n (p, h) = (
  p c n,
  λ d e.
      let a = performed s c d v (p c n) e in
      AreSafe-Allowed ss d a.sound (past_connecting c d a.onward n) h,
)

-- One step that is permitted, and then safe ones.
first-Allowed :
    (s : Step) (ss : List Step) (c : Connection)
    → IsSound c
    → is_connecting c.state ≡ false
    → Permitted s c
    → AreSafe ss
    → Allowed (s ∷ ss) c
first-Allowed s ss c v n p h = (
  p,
  λ d e.
      let a = performed s c d v p e in
      AreSafe-Allowed ss d a.sound (past_connecting c d a.onward n) h,
)

-- The callbacks after the first.
abbrev later_callbacks : Bool → Bool → Bool → List Callback
later_callbacks e r w = call_if e on_error ++ (call_if r on_read ++ call_if w on_write)

later-AreSafe :
    (a : Answers) (user : Callback → List Step) (e r w : Bool)
    → IsRead a.readv
    → IsWrite a.write
    → ((k : Callback) → AreUses (user k))
    → AreSafe (steps_of a user (later_callbacks e r w))
unfolding steps_of handler
later-AreSafe a user e r w reads writes uses = errors e
  where
    after : (k : Callback) (ss : List Step) → AreSafe ss → AreSafe (user k ++ ss)
    after k ss h = AreSafe-append (user k) ss (AreUses-AreSafe (user k) (uses k)) h

    writing : (b : Bool) → AreSafe (steps_of a user (call_if b on_write))
    writing true = (λ c n. writes, after on_write [] tt)
    writing false = tt

    reading : (b : Bool) → AreSafe (steps_of a user (call_if b on_read ++ call_if w on_write))
    reading true =
        (λ c n. (n, reads), after on_read (steps_of a user (call_if w on_write)) (writing w))
    reading false = writing w

    errors : (b : Bool) → AreSafe (steps_of a user (later_callbacks b r w))
    errors true = (
      λ c n. tt,
      after on_error (steps_of a user (call_if r on_read ++ call_if w on_write)) (reading r),
    )
    errors false = reading r

-- The event asks to close a connection that is not open.
abbrev pub closes_closed : Bool → Connection → Bool
closes_closed alive c =
    not (c.channel.tied && not alive) && (asked c.channel on_close && not (is_open c.state))

hang_up_closed :
    (ss : List Step) (c : Connection) → is_open c.state ≡ false → run (hang_up ∷ ss) c ≡ err aborted
unfolding perform handle_close run
hang_up_closed ss c o = rw o refl

-- The handlers that an event calls, in their order, and what the users' callbacks do after each of
-- them, go through without a failed assertion, unless a buffer passes its limit, whatever set of
-- events occurred: no accepted byte is lost, and the state only moves on. The one exception is a
-- hang-up without input on a connection that is closed already, which aborts. The connection is sound
-- and established, the system calls follow their contracts, and the callbacks send or shut down.
pub handle_connection_event_lem :
    (a : Answers) (user : Callback → List Step) (alive : Bool) (c : Connection)
    → IsSound c
    → is_connecting c.state ≡ false
    → IsRead a.readv
    → IsWrite a.write
    → ((k : Callback) → AreUses (user k))
    → ((closes_closed alive c ≡ true) × (handle_connection_event a user alive c ≡ err aborted))
      ⊎ ((closes_closed alive c ≡ false) × Proceeds c (handle_connection_event a user alive c))
unfolding handle_connection_event handle_event handle_event_with_guard
handle_connection_event_lem a user alive c v n reads writes uses =
    go (c.channel.tied && not alive) (asked c.channel on_close)
  where
    rest : List Callback
    rest =
        later_callbacks (c.channel.revents.epollerr && c.channel.callbacks.error)
          ((c.channel.revents.epollin || c.channel.revents.epollpri || c.channel.revents.epollrdhup)
            && c.channel.callbacks.read)
          (c.channel.revents.epollout && c.channel.callbacks.write)

    safe : AreSafe (steps_of a user rest)
    safe = later-AreSafe a user _ _ _ reads writes uses

    go :
        (gone asks : Bool)
        → (((not gone && (asks && not (is_open c.state))) ≡ true)
            × (run (steps_of a user (if gone then [] else call_if asks on_close ++ rest)) c
                ≡ err aborted))
          ⊎ (((not gone && (asks && not (is_open c.state))) ≡ false)
              × Proceeds c
                  (run (steps_of a user (if gone then [] else call_if asks on_close ++ rest)) c))
    go true asks = inr (refl, run-Proceeds [] c v tt)
    go false false =
        inr (refl, run-Proceeds (steps_of a user rest) c v (AreSafe-Allowed _ c v n safe))
    go false true = elim (Bool-cases (is_open c.state)) [
      | inl o ↦ inr (
        ap not o,
        run-Proceeds (hang_up ∷ (user on_close ++ steps_of a user rest)) c v (
            first-Allowed hang_up (user on_close ++ steps_of a user rest) c v n o
              (AreSafe-append (user on_close) _ (AreUses-AreSafe _ (uses on_close)) safe)),
      )
      | inr o ↦ inl (ap not o, hang_up_closed (user on_close ++ steps_of a user rest) c o)
    ]
