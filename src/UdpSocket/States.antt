-- ===== src/UdpSocket/States.antt =====
-- The states of a datagram socket, and its descriptor.
use mathlib.Core.List.{append-nil}
use hvnetpp.Prelude.{
  ℕ, ◌≡◌, refl, ap, ◌∙◌, sym, subst, inl, inr, Bool, true, false, List, [], ◌∷◌, ◌++◌, Option, none,
  some, ◌||◌, not, if◌then◌else◌, Bool-cases, arith,
}
use hvnetpp.UdpSocket.{
  Socket, enables, disables, run_task, hand_to_loop, State, closed, bound, receiving, cleanup,
  ensure_socket, open_socket, is_receiving, is_bound, is_none, af_unspec, bind_ensured, bind,
  start_receive, bind_and_start, stop_receive, send_to, fds,
}

abbrev pub is_closed : State → Bool
is_closed closed = true
is_closed _ = false

-- There is a channel, and the state is not closed, exactly if there is a descriptor; and the channel
-- waits for input exactly in the state of receiving.
pub record IsSound (s : Socket) : Type 0 where
  pub open_iff : is_closed s.state ≡ is_none s.sockfd
  pub channel_iff : s.channel ≡ not (is_none s.sockfd)
  pub reading_iff : s.reading ≡ is_receiving s.state

-- What a program does with the socket.
pub data Call : Type 0 where
  call_open : Option ℕ → ℕ → Call
  call_bind : Option ℕ → Bool → ℕ → Call
  call_bind_and_start : Option ℕ → Bool → ℕ → Call
  call_start call_stop : Call
  call_send : Option ℕ → Option ℕ → ℕ → Call

unfoldable pub perform : Bool → Call → Socket → Socket
unfolding open_socket bind bind_and_start start_receive stop_receive send_to
perform in_loop (call_open created family) s = (open_socket created family s).1
perform in_loop (call_bind created binds family) s = (bind in_loop created binds family s).1
perform in_loop (call_bind_and_start created binds family) s =
    (bind_and_start in_loop created binds family s).1
perform in_loop call_start s = (start_receive in_loop s).1
perform in_loop call_stop s = stop_receive in_loop s
perform in_loop (call_send created sent family) s = (send_to created sent family s).1

-- The descriptors that the socket has had: those it closed, and the one it holds.
abbrev pub ledger : Socket → List ℕ
ledger s = s.closed_fds ++ fds s.sockfd

-- Sound, with the descriptors `more` besides those of `s`.
pub record Keeps (more : List ℕ) (s s' : Socket) : Type 0 where
  pub sound : IsSound s'
  pub ledger : ledger s' ≡ ledger s ++ more

abbrev pub gained : Option ℕ → Socket → List ℕ
gained created s = if is_none s.sockfd then fds created else []

ensure-Keeps :
    (created : Option ℕ) (family : ℕ) (s : Socket)
    → IsSound s
    → Keeps (gained created s) s ((ensure_socket created family s).1)
unfolding ensure_socket
ensure-Keeps created family s v = go created s.sockfd v
  where
    go :
        (created o : Option ℕ)
        → IsSound (record s { sockfd = o })
        → Keeps
            (gained created (record s { sockfd = o }))
            (record s { sockfd = o })
            ((ensure_socket created family (record s { sockfd = o })).1)
    go created (some fd) v = record {
      sound = v;
      ledger = sym (append-nil (s.closed_fds ++ (fd ∷ [])));
    }
    go none none v = record { sound = v; ledger = sym (append-nil (s.closed_fds ++ [])) }
    go (some fd) none v = record {
      sound = record { open_iff = refl; channel_iff = refl; reading_iff = refl };
      ledger = ap (λ l. l ++ (fd ∷ [])) (sym (append-nil s.closed_fds));
    }

cleanup-Keeps : (s : Socket) → Keeps [] s (cleanup true s)
unfolding cleanup hand_to_loop run_task
cleanup-Keeps s = record {
  sound = record { open_iff = refl; channel_iff = refl; reading_iff = refl };
  ledger = refl;
}

same-Keeps : (s : Socket) → IsSound s → Keeps [] s s
same-Keeps s v = record { sound = v; ledger = sym (append-nil (ledger s)) }

-- Only the state and the interest change, in a socket with a descriptor.
moved-Keeps :
    (s : Socket) (t : State) (r : Bool)
    → IsSound s
    → is_none s.sockfd ≡ false
    → is_closed t ≡ false
    → r ≡ is_receiving t
    → Keeps [] s (record s { state = t; reading = r })
moved-Keeps s t r v o c e = record {
  sound = record { open_iff = c ∙ sym o; channel_iff = v.channel_iff; reading_iff = e };
  ledger = sym (append-nil (ledger s));
}

-- The functor of a call finds the channel that the call saw.
enabled :
    (s : Socket) (t : State)
    → s.channel ≡ true
    → run_task (enables s.number) (record s { state = t }) ≡ record s { state = t; reading = true }
unfolding run_task
enabled s t c = ground (arith, c)

disabled :
    (s : Socket) (t : State)
    → s.channel ≡ true
    → run_task (disables s.number) (record s { state = t })
      ≡ record s { state = t; reading = false }
unfolding run_task
disabled s t c = ground (arith, c)

start-Keeps : (s : Socket) → IsSound s → Keeps [] s ((start_receive true s).1)
unfolding start_receive hand_to_loop
start-Keeps s v = elim (Bool-cases (not s.channel || not (is_bound s.state))) [
  | inl h ↦ rw h (same-Keeps s v)
  | inr h ↦ elim (Bool-cases (is_receiving s.state)) [
    | inl r ↦ rw (h, r) (same-Keeps s v)
    | inr r ↦
        rw (h, r)
          (subst (Keeps [] s) (sym (enabled s receiving (ground arith)))
            (moved-Keeps s receiving true v (ground (arith, v.channel_iff)) refl refl))
  ]
]

-- Of the two branches of a test.
if-Keeps :
    (more : List ℕ) (s x y : Socket) (b : Bool)
    → (b ≡ true → Keeps more s x)
    → (b ≡ false → Keeps more s y)
    → Keeps more s (if b then x else y)
if-Keeps more s x y true f g = f refl
if-Keeps more s x y false f g = g refl

and_then : (more : List ℕ) (r s t : Socket) → Keeps more r s → Keeps [] s t → Keeps more r t
and_then more r s t f g = record {
  sound = g.sound;
  ledger = g.ledger ∙ append-nil (ledger s) ∙ f.ledger;
}

stop-Keeps : (s : Socket) → IsSound s → Keeps [] s (stop_receive true s)
unfolding stop_receive hand_to_loop
stop-Keeps s v =
    if-Keeps [] s _ s s.channel
      (λ h.
        let t = if is_receiving s.state then bound else s.state in
        subst (Keeps [] s) (sym (disabled s t h)) (
          moved-Keeps s t false v (ground (arith, v.channel_iff))
            (ground (arith, v.channel_iff, v.open_iff)) (ground arith)))
      (λ h. same-Keeps s v)

bind_ensured-Keeps :
    (created binds : Bool) (s : Socket)
    → IsSound s
    → is_none s.sockfd ≡ false
    → Keeps [] s ((bind_ensured true created binds s).1)
unfolding bind_ensured
bind_ensured-Keeps created false s v o =
    if-Keeps [] s (record (cleanup true s) { family = af_unspec }) s created
      (λ h.
        let k = cleanup-Keeps s in
        record {
          sound = record {
            open_iff = k.sound.open_iff;
            channel_iff = k.sound.channel_iff;
            reading_iff = k.sound.reading_iff;
          };
          ledger = k.ledger;
        })
      (λ h. same-Keeps s v)
bind_ensured-Keeps created true s v o =
    if-Keeps [] s s (record s { state = bound }) (is_receiving s.state) (λ h. same-Keeps s v)
      (λ h. moved-Keeps s bound s.reading v o refl (v.reading_iff ∙ h))

ensure-open :
    (created : Option ℕ) (family : ℕ) (s : Socket)
    → (ensure_socket created family s).0 ≡ true
    → is_none ((ensure_socket created family s).1.sockfd) ≡ false
unfolding ensure_socket
ensure-open created family s = go created s.sockfd
  where
    go :
        (created o : Option ℕ)
        → (ensure_socket created family (record s { sockfd = o })).0 ≡ true
        → is_none ((ensure_socket created family (record s { sockfd = o })).1.sockfd) ≡ false
    go created (some fd) h = refl
    go none none h = absurd (ground arith)
    go (some fd) none h = refl

-- The second part of a pair of branches.
second-Keeps :
    (more : List ℕ) (s : Socket) (x y : Bool × Socket) (b : Bool)
    → (b ≡ true → Keeps more s (x.1))
    → (b ≡ false → Keeps more s (y.1))
    → Keeps more s ((if b then x else y).1)
second-Keeps more s x y true f g = f refl
second-Keeps more s x y false f g = g refl

bind-Keeps :
    (created : Option ℕ) (binds : Bool) (family : ℕ) (s : Socket)
    → IsSound s
    → Keeps (gained created s) s ((bind true created binds family s).1)
unfolding bind
bind-Keeps created binds family s v =
    let k = ensure-Keeps created family s v in
    let s' = (ensure_socket created family s).1 in
    second-Keeps (gained created s) s (bind_ensured true (is_none s.sockfd) binds s') (false, s')
      ((ensure_socket created family s).0)
      (λ h.
        and_then (gained created s) s s' _ k
          (bind_ensured-Keeps (is_none s.sockfd) binds s' k.sound (ensure-open created family s h)))
      (λ h. k)

bind_and_start-Keeps :
    (created : Option ℕ) (binds : Bool) (family : ℕ) (s : Socket)
    → IsSound s
    → Keeps (gained created s) s ((bind_and_start true created binds family s).1)
unfolding bind_and_start
bind_and_start-Keeps created binds family s v =
    let k = bind-Keeps created binds family s v in
    let s' = (bind true created binds family s).1 in
    second-Keeps (gained created s) s (start_receive true s') (false, s')
      ((bind true created binds family s).0)
      (λ h. and_then (gained created s) s s' _ k (start-Keeps s' k.sound)) (λ h. k)

-- What `createNonblockingUdp` gives in a call that needs it.
abbrev pub gained_in : Call → Socket → List ℕ
gained_in (call_open created family) s = gained created s
gained_in (call_bind created binds family) s = gained created s
gained_in (call_bind_and_start created binds family) s = gained created s
gained_in call_start s = []
gained_in call_stop s = []
gained_in (call_send created sent family) s = gained created s

-- Every call on the loop's thread on a sound socket leaves it sound: it is open exactly while it
-- holds a descriptor, has a channel exactly then, and waits for input exactly in the state of
-- receiving. No descriptor is lost or closed twice: those closed and the one held are those of
-- before and the one that the call created.
pub perform-Keeps :
    (call : Call) (s : Socket) → IsSound s → Keeps (gained_in call s) s (perform true call s)
unfolding perform open_socket send_to
perform-Keeps (call_open created family) s v = ensure-Keeps created family s v
perform-Keeps (call_bind created binds family) s v = bind-Keeps created binds family s v
perform-Keeps (call_bind_and_start created binds family) s v =
    bind_and_start-Keeps created binds family s v
perform-Keeps call_start s v = start-Keeps s v
perform-Keeps call_stop s v = stop-Keeps s v
perform-Keeps (call_send created sent family) s v = ensure-Keeps created family s v

-- `startReceive` on the loop's thread of a sound socket succeeds exactly if it is bound, and it then
-- receives, else not; the descriptor stays.
pub start_receive_lem :
    (s : Socket)
    → IsSound s
    → ((start_receive true s).0 ≡ is_bound s.state)
      × (is_receiving ((start_receive true s).1.state) ≡ is_bound s.state)
      × ((start_receive true s).1.sockfd ≡ s.sockfd)
unfolding start_receive hand_to_loop run_task
start_receive_lem s v = (
  ground (arith, v.channel_iff, v.open_iff),
  ground (arith, v.channel_iff, v.open_iff),
  ground arith,
)
