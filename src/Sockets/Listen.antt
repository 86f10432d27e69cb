-- ===== src/Sockets/Listen.antt =====
-- The descriptors that `Acceptor::listen` opens and closes.
use hvnetpp.Prelude.{
  ℕ, ◌≡◌, refl, ◌∙◌, ap, inl, inr, Bool, true, false, [], ◌∷◌, Option, none, some, ◌==◌, ◌&&◌, ◌||◌,
  not, if◌then◌else◌, ==_iff, subst, Bool-cases, Option-cases,
}
use hvnetpp.Address
use hvnetpp.Address.{InetAddress}
use hvnetpp.TcpServer
use hvnetpp.TcpServer.{Acceptor, close_fds}
use hvnetpp.Sockets.{
  Sockets, create_nonblocking, bind_socket, listen_socket, close_socket, set_reuse_addr,
  set_reuse_port, listen_made, listen_on, stream_kind, ipproto_tcp, sol_socket, so_reuseaddr,
  so_reuseport, somaxconn, to_int,
}

module _ (S : Sockets) where
  open S use {Kernel, is_open}

  -- The two kernels have the same descriptors open.
  abbrev pub SameOpen : Kernel → Kernel → Type 0
  SameOpen k k' = (f : ℕ) → is_open k' f ≡ is_open k f

  -- The second has `fd` open, which the first does not, and all else the same.
  abbrev pub Opens : ℕ → Kernel → Kernel → Type 0
  Opens fd k k' = (is_open k fd ≡ false) × ((f : ℕ) → is_open k' f ≡ ((fd == f) || is_open k f))

  -- How `listen` may end: it did already listen; or it fails, and leaves open nothing that it
  -- opened, and the acceptor holds what it held; or it holds the one descriptor it opened.
  pub data Listened (a : Acceptor) (k : Kernel) : (Bool × Acceptor) × Kernel → Type 0 where
    already : a.listening ≡ true → Listened a k ((true, a), k)
    not_made : (k' : Kernel) → a.listening ≡ false → SameOpen k k' → Listened a k ((false, a), k')
    closed_it :
        (fd : ℕ) (k' : Kernel)
        → a.listening ≡ false
        → SameOpen k k'
        → Listened a k ((false, close_fds (fd ∷ []) a), k')
    opened :
        (fd : ℕ) (k' : Kernel)
        → a.listening ≡ false
        → Opens fd k k'
        → Listened a k ((true, record a { accept_socket = some fd; listening = true }), k')

  pub closed_again : (fd : ℕ) (k k₁ : Kernel) → Opens fd k k₁ → SameOpen k ((S.close fd k₁).1)
  closed_again fd k k₁ (fresh, h) f =
      S.close_closes fd k₁ f ∙ ap (λ b. not (fd == f) && b) (h f) ∙ elim (Bool-cases (fd == f)) [
        | inl e ↦
            let i = subst (λ x. is_open k x ≡ false) ((==_iff fd f).0 e) fresh in rw (e, i) refl
        | inr e ↦ rw (e) refl
      ]

  made-Listened :
      (fd : ℕ) (addr : InetAddress) (reuseport : Bool) (a : Acceptor) (k k₀ : Kernel)
      → a.listening ≡ false
      → Opens fd k k₀
      → Listened a k (listen_made S fd addr reuseport a k₀)
  unfolding listen_made bind_socket listen_socket close_socket set_reuse_addr set_reuse_port
  made-Listened fd addr reuseport a k k₀ idle o =
      let listens_keeps : SameOpen bk ((S.listen fd somaxconn bk).1) =
        S.listen_keeps fd somaxconn bk in
      elim (Bool-cases bound) [
        | inl b ↦ elim (Bool-cases ((S.listen fd somaxconn bk).0)) [
          | inl l ↦ rw (b, l) (opened fd _ idle (o.0, λ f. listens_keeps f ∙ bound_keeps f))
          | inr l ↦
              rw (b, l)
                (closed_it fd _ idle
                  (closed_again fd k _ (o.0, λ f. listens_keeps f ∙ bound_keeps f)))
        ]
        | inr b ↦ rw (b) (closed_it fd _ idle (closed_again fd k _ (o.0, bound_keeps)))
      ]
    where
      k₁ : Kernel
      k₁ = (S.setsockopt fd sol_socket so_reuseaddr (to_int true) k₀).1

      k₂ : Kernel
      k₂ = (S.setsockopt fd sol_socket so_reuseport (to_int reuseport) k₁).1

      bk : Kernel
      bk = (S.bind fd addr.addr addr.len k₂).1

      bound : Bool
      bound = (S.bind fd addr.addr addr.len k₂).0

      bound_keeps : (f : ℕ) → is_open bk f ≡ ((fd == f) || is_open k f)
      bound_keeps f =
          S.bind_keeps fd addr.addr addr.len k₂ f
          ∙ S.setsockopt_keeps fd sol_socket so_reuseport (to_int reuseport) k₁ f
          ∙ S.setsockopt_keeps fd sol_socket so_reuseaddr (to_int true) k₀ f
          ∙ o.1 f

  unless_listening :
      (a : Acceptor) (k : Kernel) (b : Bool) (r : (Bool × Acceptor) × Kernel)
      → a.listening ≡ b
      → (b ≡ false → Listened a k r)
      → Listened a k (if b then ((true, a), k) else r)
  unless_listening a k true r h l = already h
  unless_listening a k false r h l = l refl

  -- Of the descriptors, `listen` leaves open those that were open and, exactly if it returns true,
  -- without having listened before, one that was not, which the acceptor then holds.
  pub listen_on_lem :
      (addr : InetAddress) (reuseport : Bool) (a : Acceptor) (k : Kernel)
      → Listened a k (listen_on S addr reuseport a k)
  unfolding listen_on create_nonblocking
  listen_on_lem addr reuseport a k = unless_listening a k a.listening _ refl (λ h.
      elim (Option-cases made) [
        | inl e ↦ rw (e) (not_made _ h (S.socket_failed family stream_kind ipproto_tcp k e))
        | inr (fd, e) ↦ rw (e) (
            made-Listened fd addr reuseport a k _ h
              (S.socket_made family stream_kind ipproto_tcp fd k e))
      ])
    where
      family : ℕ
      family = Address.family addr

      made : Option ℕ
      made = (S.socket family stream_kind ipproto_tcp k).0

  -- What it returns and does to the acceptor is `TcpServer.listen` for some results of the calls.
  pub listen_on-Refines :
      (addr : InetAddress) (reuseport : Bool) (a : Acceptor) (k : Kernel)
      → (made : Option ℕ) × (bound : Bool) × (listens : Bool) × ((listen_on S addr reuseport a k).0
          ≡ TcpServer.listen made bound listens a)
  unfolding TcpServer.listen
  listen_on-Refines addr reuseport a k = go (listen_on_lem addr reuseport a k)
    where
      go :
          {r : (Bool × Acceptor) × Kernel}
          → Listened a k r
          → (made : Option ℕ) × (bound : Bool) × (listens : Bool) × (r.0
              ≡ TcpServer.listen made bound listens a)
      go (already h) = (none, false, false, rw (h) refl)
      go (not_made k' h s) = (none, false, false, rw (h) refl)
      go (closed_it fd k' h s) = (some fd, false, false, rw (h) refl)
      go (opened fd k' h s) = (some fd, true, true, rw (h) refl)
