-- ===== src/UdpSocket/Anywhere.antt =====
-- A call on a datagram socket from any thread, and the functors that it has queued.
use hvnetpp.Prelude.{
  ℕ, ◌≡◌, refl, ap, ◌∙◌, sym, subst, ◌⊎◌, inl, inr, Bool, true, false, [], ◌∷◌, ◌++◌, Option, none,
  some, ◌||◌, not, if◌then◌else◌, Bool-cases, arith,
}
use hvnetpp.UdpSocket.{
  Socket, Task, enables, disables, cleans, run_task, hand_to_loop, run_pending, run_tasks, closed,
  bound, receiving, cleanup, ensure_socket, open_socket, is_receiving, is_bound, is_none, af_unspec,
  bind_ensured, bind, start_receive, bind_and_start, stop_receive, send_to,
}
use hvnetpp.UdpSocket.States.{
  IsSound, Keeps, gained_in, Call, call_open, call_bind, call_bind_and_start, call_start, call_stop,
  call_send, perform, perform-Keeps,
}

idle_pending : (s : Socket) → s.pending ≡ [] → run_pending s ≡ s
unfolding run_pending run_tasks
idle_pending s h =
    ap (λ l. run_tasks l (record s { pending = [] })) h ∙ ap (λ l. record s { pending = l }) (sym h)

run_task-pending : (task : Task) (s : Socket) → (run_task task s).pending ≡ s.pending
unfolding run_task
run_task-pending (enables n) s = ground arith
run_task-pending (disables n) s = ground arith
run_task-pending (cleans fd) s = refl

-- A functor that is handed over while none waits has run once those that wait have.
handed :
    (b : Bool) (task : Task) (s : Socket)
    → s.pending ≡ []
    → run_pending (hand_to_loop b task s) ≡ run_task task s
unfolding hand_to_loop run_pending run_tasks
handed true task s h = idle_pending (run_task task s) (run_task-pending task s ∙ h)
handed false task s h =
    ap (λ l. run_tasks (l ++ (task ∷ [])) (record s { pending = [] })) h
    ∙ ap (λ l. run_task task (record s { pending = l })) (sym h)

settled_if :
    (c : Bool) (x y s : Socket)
    → run_pending x ≡ y
    → run_pending s ≡ s
    → run_pending (if c then x else s) ≡ (if c then y else s)
settled_if true x y s f g = f
settled_if false x y s f g = g

settled_start :
    (b : Bool) (s : Socket)
    → s.pending ≡ []
    → run_pending ((start_receive b s).1) ≡ (start_receive true s).1
unfolding start_receive
settled_start b s p = elim (Bool-cases (not s.channel || not (is_bound s.state))) [
  | inl h ↦ rw h (idle_pending s p)
  | inr h ↦ elim (Bool-cases (is_receiving s.state)) [
    | inl r ↦ rw (h, r) (idle_pending s p)
    | inr r ↦ rw (h, r) (handed b (enables s.number) (record s { state = receiving }) p)
  ]
]

settled_stop :
    (b : Bool) (s : Socket) → s.pending ≡ [] → run_pending (stop_receive b s) ≡ stop_receive true s
unfolding stop_receive
settled_stop b s p =
    settled_if s.channel _ _ s
      (handed b (disables s.number)
        (record s { state = if is_receiving s.state then bound else s.state }) p)
      (idle_pending s p)

settled_bind_ensured :
    (b created binds : Bool) (s : Socket)
    → s.pending ≡ []
    → run_pending ((bind_ensured b created binds s).1) ≡ (bind_ensured true created binds s).1
unfolding bind_ensured cleanup hand_to_loop run_task
settled_bind_ensured b false false s p = idle_pending s p
settled_bind_ensured true true false s p = idle_pending _ p
settled_bind_ensured false true false s p =
    handed false (cleans s.sockfd)
      (record s {
        sockfd = none;
        state = closed;
        channel = false;
        reading = false;
        family = af_unspec;
      })
      p
settled_bind_ensured b created true s p = elim (Bool-cases (is_receiving s.state)) [
  | inl r ↦ rw r (idle_pending s p)
  | inr r ↦ rw r (idle_pending _ p)
]

-- `ensureSocket` hands nothing over.
ensured_pending :
    (created : Option ℕ) (family : ℕ) (s : Socket)
    → s.pending ≡ []
    → ((ensure_socket created family s).1).pending ≡ []
unfolding ensure_socket
ensured_pending created family s p = go created s.sockfd
  where
    go :
        (created o : Option ℕ)
        → ((ensure_socket created family (record s { sockfd = o })).1).pending ≡ []
    go created (some fd) = p
    go none none = p
    go (some fd) none = p

settled_bind :
    (b : Bool) (created : Option ℕ) (binds : Bool) (family : ℕ) (s : Socket)
    → s.pending ≡ []
    → run_pending ((bind b created binds family s).1) ≡ (bind true created binds family s).1
unfolding bind
settled_bind b created binds family s p =
    let s' = (ensure_socket created family s).1 in
    let q = ensured_pending created family s p in
    elim (Bool-cases ((ensure_socket created family s).0)) [
      | inl h ↦ rw h (settled_bind_ensured b (is_none s.sockfd) binds s' q)
      | inr h ↦ rw h (idle_pending s' q)
    ]

-- Where a bind succeeds it hands nothing over.
binds_quietly :
    (b : Bool) (created : Option ℕ) (binds : Bool) (family : ℕ) (s : Socket)
    → s.pending ≡ []
    → ((bind b created binds family s ≡ bind true created binds family s)
        × ((bind true created binds family s).1.pending ≡ []))
      ⊎ (((bind b created binds family s).0 ≡ false)
          × ((bind true created binds family s).0 ≡ false))
unfolding bind
binds_quietly b created binds family s p =
    go binds ((ensure_socket created family s).1) ((ensure_socket created family s).0)
      (ensured_pending created family s p)
  where
    both : Bool → Bool → Socket → Bool → Bool × Socket
    both b binds s' done = if done then bind_ensured b (is_none s.sockfd) binds s' else (false, s')

    go :
        (binds : Bool) (s' : Socket) (done : Bool)
        → s'.pending ≡ []
        → ((both b binds s' done ≡ both true binds s' done)
            × ((both true binds s' done).1.pending ≡ []))
          ⊎ (((both b binds s' done).0 ≡ false) × ((both true binds s' done).0 ≡ false))
    go binds s' false q = inl (refl, q)
    go true s' true q = inl (refl, ground arith)
    go false s' true q = inr (refl, refl)

settled_bind_and_start :
    (b : Bool) (created : Option ℕ) (binds : Bool) (family : ℕ) (s : Socket)
    → s.pending ≡ []
    → run_pending ((bind_and_start b created binds family s).1)
      ≡ (bind_and_start true created binds family s).1
unfolding bind_and_start
settled_bind_and_start b created binds family s p =
    go (bind b created binds family s) (bind true created binds family s)
      (settled_bind b created binds family s p) (binds_quietly b created binds family s p)
  where
    then_start : Bool → Bool × Socket → Bool × Socket
    then_start b (done, s') = if done then start_receive b s' else (false, s')

    go :
        (x y : Bool × Socket)
        → run_pending x.1 ≡ y.1
        → ((x ≡ y) × (y.1.pending ≡ [])) ⊎ ((x.0 ≡ false) × (y.0 ≡ false))
        → run_pending ((then_start b x).1) ≡ (then_start true y).1
    go x y e (inr (f, g)) = rw (f, g) e
    go x y e (inl (f, q)) = rw f (second y q)
      where
        second :
            (y : Bool × Socket)
            → y.1.pending ≡ []
            → run_pending ((then_start b y).1) ≡ (then_start true y).1
        second (true, s') q = settled_start b s' q
        second (false, s') q = idle_pending s' q

-- A call on any thread, made while no functor of the socket waits, leaves the socket, once the
-- functors that it has queued have run, as the same call on the loop's thread does.
pub run_pending-perform :
    (b : Bool) (call : Call) (s : Socket)
    → s.pending ≡ []
    → run_pending (perform b call s) ≡ perform true call s
unfolding perform open_socket send_to
run_pending-perform b (call_open created family) s p =
    idle_pending _ (ensured_pending created family s p)
run_pending-perform b (call_bind created binds family) s p = settled_bind b created binds family s p
run_pending-perform b (call_bind_and_start created binds family) s p =
    settled_bind_and_start b created binds family s p
run_pending-perform b call_start s p = settled_start b s p
run_pending-perform b call_stop s p = settled_stop b s p
run_pending-perform b (call_send created sent family) s p =
    idle_pending _ (ensured_pending created family s p)

-- A call on any thread on a sound socket of which no functor waits leaves it sound, once the functors
-- that the call has queued have run: it is open exactly while it holds a descriptor, has a channel
-- exactly then, and waits for input exactly in the state of receiving. No descriptor is lost or
-- closed twice: those closed and the one held are those of before and the one that the call created.
pub run_pending-Keeps :
    (b : Bool) (call : Call) (s : Socket)
    → IsSound s
    → s.pending ≡ []
    → Keeps (gained_in call s) s (run_pending (perform b call s))
run_pending-Keeps b call s v p =
    subst (Keeps (gained_in call s) s) (sym (run_pending-perform b call s p))
      (perform-Keeps call s v)
