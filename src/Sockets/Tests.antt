-- ===== src/Sockets/Tests.antt =====
-- A kernel with the open descriptors in a list, whose calls succeed or fail as a script says, and
-- the listener and a datagram socket over it.
use hvnetpp.Prelude.{
  ℕ, suc, ◌+◌, ◌≡◌, ◌≤◌, refl, ◌∙◌, ap, inl, inr, Bool, true, false, List, [], ◌∷◌, Option, none,
  some, ◌==◌, ◌&&◌, ◌||◌, not, if◌then◌else◌, Bool-cases, arith, sym, subst, ==_iff,
}
use mathlib.Core.Option.{some-injective, none-ne-some}
use hvnetpp.Address.{InetAddress}
use hvnetpp.TcpServer.{Acceptor}
use hvnetpp.Sockets.{
  Sockets, listen_on, bind_socket, listen_socket, close_socket, create_nonblocking, listen_made,
  set_reuse_addr, set_reuse_port,
}
use hvnetpp.Sockets.Listen.{Listened, listen_on_lem}
use hvnetpp.Sockets.Lifetime.{call_open, call_bind, lifetime, lifetime_lem}

record State : Type 0 where
  fds : List ℕ
  script : List Bool

abbrev mem : List ℕ → ℕ → Bool
mem [] f = false
mem (x ∷ xs) f = (x == f) || mem xs f

abbrev top : List ℕ → ℕ
top [] = 0
top (x ∷ xs) = x + top xs

abbrev remove : ℕ → List ℕ → List ℕ
remove fd [] = []
remove fd (x ∷ xs) = let rest = remove fd xs in if fd == x then rest else x ∷ rest

-- The next result; when the script has ended, calls succeed.
abbrev next : List Bool → Bool
next [] = true
next (b ∷ bs) = b

abbrev later : List Bool → List Bool
later [] = []
later (b ∷ bs) = bs

mem-top : (l : List ℕ) (f : ℕ) → mem l f ≡ true → f ≤ top l
mem-top [] f h = ground arith
mem-top (x ∷ xs) f h = let ih = mem-top xs f in ground arith

fresh_fd : (l : List ℕ) → mem l (suc (top l)) ≡ false
fresh_fd l = let h = mem-top l (suc (top l)) in ground arith

cut_same :
    (fd x f : ℕ) (m : Bool) → fd ≡ x → (not (fd == f) && m) ≡ (not (fd == f) && ((x == f) || m))
cut_same fd x f m e = ground arith

cut_other :
    (fd x f : ℕ) (m : Bool)
    → (fd == x) ≡ false
    → ((x == f) || (not (fd == f) && m)) ≡ (not (fd == f) && ((x == f) || m))
cut_other fd x f m e = ground arith

mem-remove : (fd : ℕ) (l : List ℕ) (f : ℕ) → mem (remove fd l) f ≡ (not (fd == f) && mem l f)
mem-remove fd [] f = ground arith
mem-remove fd (x ∷ xs) f =
    let ih = mem-remove fd xs f in
    elim (Bool-cases (fd == x)) [
      | inl e ↦ rw (e) (ih ∙ cut_same fd x f (mem xs f) ((==_iff fd x).0 e))
      | inr e ↦ rw (e) (ap (λ b. (x == f) || b) ih ∙ cut_other fd x f (mem xs f) e)
    ]

abbrev answer : State → Bool × State
answer s = (next s.script, record s { script = later s.script })

abbrev make : Bool → State → Option ℕ × State
make true s =
    let fd = suc (top s.fds) in (some fd, record { fds = fd ∷ s.fds; script = later s.script })
make false s = (none, record s { script = later s.script })

make-some :
    (b : Bool) (fd : ℕ) (s : State)
    → (make b s).0 ≡ some fd
    → (mem s.fds fd ≡ false) × ((f : ℕ) → mem ((make b s).1.fds) f ≡ ((fd == f) || mem s.fds f))
make-some true fd s h =
    let e = some-injective (suc (top s.fds)) fd h in
    (subst (λ x. mem s.fds x ≡ false) e (fresh_fd s.fds), λ f. ap (λ x. (x == f) || mem s.fds f) e)
make-some false fd s h = absurd (none-ne-some fd h)

make-none :
    (b : Bool) (s : State) → (make b s).0 ≡ none → (f : ℕ) → mem ((make b s).1.fds) f ≡ mem s.fds f
make-none true s h f = absurd (none-ne-some (suc (top s.fds)) (sym h))
make-none false s h f = refl

abbrev kernel : Sockets
kernel = record {
  Kernel = State;
  is_open = λ s f. mem s.fds f;
  socket = λ family kind protocol s. make (next s.script) s;
  bind = λ fd addr len s. answer s;
  listen = λ fd backlog s. answer s;
  close = λ fd s. (true, record s { fds = remove fd s.fds });
  shutdown = λ fd how s. answer s;
  setsockopt = λ fd level name value s. (true, s);
  getsockopt = λ fd level name s. ((some 0, 0), s);
  socket_made = λ family kind protocol fd s h. make-some (next s.script) fd s h;
  socket_failed = λ family kind protocol s h f. make-none (next s.script) s h f;
  bind_keeps = λ fd addr len s f. refl;
  listen_keeps = λ fd backlog s f. refl;
  setsockopt_keeps = λ fd level name value s f. refl;
  close_closes = λ fd s f. mem-remove fd s.fds f;
}

-- Port 80 of 127.0.0.1.
abbrev local : InetAddress
local = record {
  addr = 2 ∷ 0 ∷ 0 ∷ 80 ∷ 127 ∷ 0 ∷ 0 ∷ 1 ∷ 0 ∷ 0 ∷ 0 ∷ 0 ∷ 0 ∷ 0 ∷ 0 ∷ 0 ∷ [];
  len = 16;
}

abbrev scripted : List Bool → State
scripted script = record { fds = 4 ∷ 3 ∷ []; script = script }

abbrev acceptor : Acceptor
acceptor = record {
  accept_socket = none;
  idle_fd = some 4;
  listening = false;
  has_callback = true;
  handed = [];
  closed = [];
}

-- The port is taken: `bind` succeeds, with `SO_REUSEPORT`, and `listen` fails.
listen_on_lem_example :
    Listened kernel acceptor
      (scripted (true ∷ true ∷ false ∷ []))
      (listen_on kernel local true acceptor (scripted (true ∷ true ∷ false ∷ [])))
listen_on_lem_example =
    listen_on_lem kernel local true acceptor (scripted (true ∷ true ∷ false ∷ []))

listen_on_fails :
    listen_on kernel local true acceptor (scripted (true ∷ true ∷ false ∷ []))
    ≡ ((false, record acceptor { closed = 8 ∷ [] }), scripted [])
unfolding listen_on create_nonblocking listen_made bind_socket listen_socket close_socket
    set_reuse_addr set_reuse_port
listen_on_fails = refl

listen_on_succeeds : listen_on kernel local true acceptor (scripted []) ≡ (
  (true, record acceptor { accept_socket = some 8; listening = true }),
  record { fds = 8 ∷ 4 ∷ 3 ∷ []; script = [] },
)
unfolding listen_on create_nonblocking listen_made bind_socket listen_socket close_socket
    set_reuse_addr set_reuse_port
listen_on_succeeds = refl

-- `bind` fails at first, then succeeds, and with another family the socket does not open again.
lifetime_lem_example :
    Sockets.is_open kernel
      ((lifetime kernel
        (call_bind local ∷ call_bind local ∷ call_open 10 ∷ [])
        (scripted (true ∷ false ∷ []))).1)
      8
    ≡ Sockets.is_open kernel (scripted (true ∷ false ∷ [])) 8
lifetime_lem_example =
    lifetime_lem kernel (call_bind local ∷ call_bind local ∷ call_open 10 ∷ [])
      (scripted (true ∷ false ∷ [])) 8
