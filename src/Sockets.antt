-- ===== src/Sockets.antt =====
-- src/SocketsOps.cpp over the kernel, and what src/TcpServer.cpp and src/UdpSocket.cpp do with it to
-- open their sockets. The kernel is a parameter: its state, which descriptors are open, and the
-- system calls, which succeed or fail. Errors are only logged where the source logs them.
pub mod Listen
pub mod Datagram
pub mod Lifetime
mod Tests
use hvnetpp.Prelude.{
  ℕ, ◌+◌, ◌≡◌, Bool, true, false, List, [], ◌∷◌, Option, none, some, ◌==◌, ◌&&◌, ◌||◌, not,
  if◌then◌else◌,
}
use hvnetpp.Address
use hvnetpp.Address.{InetAddress}
use hvnetpp.TcpServer.{Acceptor, close_fds}
use hvnetpp.UdpSocket
use hvnetpp.UdpSocket.{Socket, is_receiving, is_none}

-- The documented behaviour of the calls: a socket that is made has a descriptor that was not open;
-- `close` closes its own descriptor alone, even where it fails; the other calls open and close nothing.
pub record Sockets : Type 1 where
  pub Kernel : Type 0
  pub is_open : Kernel → ℕ → Bool
  pub socket : ℕ → ℕ → ℕ → Kernel → Option ℕ × Kernel
  pub bind : ℕ → List ℕ → ℕ → Kernel → Bool × Kernel
  pub listen : ℕ → ℕ → Kernel → Bool × Kernel
  pub close : ℕ → Kernel → Bool × Kernel
  pub shutdown : ℕ → ℕ → Kernel → Bool × Kernel
  pub setsockopt : ℕ → ℕ → ℕ → ℕ → Kernel → Bool × Kernel
  pub getsockopt : ℕ → ℕ → ℕ → Kernel → (Option ℕ × ℕ) × Kernel
  pub socket_made :
      (family kind protocol fd : ℕ) (k : Kernel)
      → (socket family kind protocol k).0 ≡ some fd
      → (is_open k fd ≡ false)
        × ((f : ℕ) → is_open ((socket family kind protocol k).1) f ≡ ((fd == f) || is_open k f))
  pub socket_failed :
      (family kind protocol : ℕ) (k : Kernel)
      → (socket family kind protocol k).0 ≡ none
      → (f : ℕ) → is_open ((socket family kind protocol k).1) f ≡ is_open k f
  pub bind_keeps :
      (fd : ℕ) (addr : List ℕ) (len : ℕ) (k : Kernel)
      → (f : ℕ) → is_open ((bind fd addr len k).1) f ≡ is_open k f
  pub listen_keeps :
      (fd backlog : ℕ) (k : Kernel) → (f : ℕ) → is_open ((listen fd backlog k).1) f ≡ is_open k f
  pub setsockopt_keeps :
      (fd level name value : ℕ) (k : Kernel)
      → (f : ℕ) → is_open ((setsockopt fd level name value k).1) f ≡ is_open k f
  pub close_closes :
      (fd : ℕ) (k : Kernel) → (f : ℕ) → is_open ((close fd k).1) f ≡ (not (fd == f) && is_open k f)

-- `SOCK_STREAM | SOCK_NONBLOCK | SOCK_CLOEXEC`, and with `SOCK_DGRAM`
abbrev pub stream_kind : ℕ
stream_kind = 1 + 2048 + 524288

abbrev pub datagram_kind : ℕ
datagram_kind = 2 + 2048 + 524288

abbrev pub ipproto_tcp : ℕ
ipproto_tcp = 6

abbrev pub ipproto_udp : ℕ
ipproto_udp = 17

abbrev pub sol_socket : ℕ
sol_socket = 1

abbrev pub so_reuseaddr : ℕ
so_reuseaddr = 2

abbrev pub so_error : ℕ
so_error = 4

abbrev pub so_keepalive : ℕ
so_keepalive = 9

abbrev pub so_reuseport : ℕ
so_reuseport = 15

abbrev pub tcp_nodelay : ℕ
tcp_nodelay = 1

abbrev pub shut_wr : ℕ
shut_wr = 1

abbrev pub somaxconn : ℕ
somaxconn = 4096

abbrev pub to_int : Bool → ℕ
to_int true = 1
to_int false = 0

module _ (S : Sockets) where
  open S use {Kernel, socket, bind, listen, close, shutdown, setsockopt, getsockopt}

  unfoldable pub create_nonblocking : ℕ → Kernel → Option ℕ × Kernel
  create_nonblocking family k = socket family stream_kind ipproto_tcp k

  unfoldable pub create_nonblocking_udp : ℕ → Kernel → Option ℕ × Kernel
  create_nonblocking_udp family k = socket family datagram_kind ipproto_udp k

  unfoldable pub bind_socket : ℕ → InetAddress → Kernel → Bool × Kernel
  bind_socket fd a k = bind fd a.addr a.len k

  unfoldable pub listen_socket : ℕ → Kernel → Bool × Kernel
  listen_socket fd k = listen fd somaxconn k

  unfoldable pub close_socket : ℕ → Kernel → Kernel
  close_socket fd k = (close fd k).1

  pub shutdown_write : ℕ → Kernel → Kernel
  shutdown_write fd k = (shutdown fd shut_wr k).1

  pub set_tcp_no_delay : ℕ → Bool → Kernel → Kernel
  set_tcp_no_delay fd on k = (setsockopt fd ipproto_tcp tcp_nodelay (to_int on) k).1

  unfoldable pub set_reuse_addr : ℕ → Bool → Kernel → Kernel
  set_reuse_addr fd on k = (setsockopt fd sol_socket so_reuseaddr (to_int on) k).1

  unfoldable pub set_reuse_port : ℕ → Bool → Kernel → Kernel
  set_reuse_port fd on k = (setsockopt fd sol_socket so_reuseport (to_int on) k).1

  pub set_keep_alive : ℕ → Bool → Kernel → Kernel
  set_keep_alive fd on k = (setsockopt fd sol_socket so_keepalive (to_int on) k).1

  -- `TcpConnection::setTcpNoDelay`; the socket is none once it is closed.
  pub set_connection_no_delay : Option ℕ → Bool → Kernel → Kernel
  unfolding set_tcp_no_delay
  set_connection_no_delay none on k = k
  set_connection_no_delay (some fd) on k = set_tcp_no_delay fd on k

  -- The value, or the number of the error of the call itself.
  pub get_socket_error : ℕ → Kernel → ℕ × Kernel
  get_socket_error fd k =
      let ((got, errno), k') = getsockopt fd sol_socket so_error k in
      elim got [ none ↦ (errno, k') | some value ↦ (value, k') ]

  -- `Acceptor::listen` from the new socket on.
  unfoldable pub listen_made :
      ℕ → InetAddress → Bool → Acceptor → Kernel → (Bool × Acceptor) × Kernel
  unfolding bind_socket listen_socket close_socket set_reuse_addr set_reuse_port
  listen_made fd addr reuseport a k =
      let (bound, k₁) =
        bind_socket fd addr (set_reuse_port fd reuseport (set_reuse_addr fd true k)) in
      let (listens, k₂) = listen_socket fd k₁ in
      if bound
      then (if listens
          then ((true, record a { accept_socket = some fd; listening = true }), k₂)
          else ((false, close_fds (fd ∷ []) a), close_socket fd k₂))
      else ((false, close_fds (fd ∷ []) a), close_socket fd k₁)

  unfoldable pub listen_on : InetAddress → Bool → Acceptor → Kernel → (Bool × Acceptor) × Kernel
  unfolding create_nonblocking listen_made
  listen_on addr reuseport a k =
      if a.listening
      then ((true, a), k)
      else (let (made, k') = create_nonblocking (Address.family addr) k in
          elim made [ none ↦ ((false, a), k') | some fd ↦ listen_made fd addr reuseport a k' ])

  -- `cleanupUdpSocket` on the loop's thread: the descriptor is closed.
  unfoldable pub close_held : Option ℕ → Kernel → Kernel
  unfolding close_socket
  close_held none k = k
  close_held (some fd) k = close_socket fd k

  -- `UdpSocket::ensureSocket` from the new socket on.
  unfoldable pub datagram_made : ℕ → Socket → Option ℕ × Kernel → (Bool × Socket) × Kernel
  unfolding set_reuse_addr set_reuse_port
  datagram_made family s (none, k) = (UdpSocket.ensure_socket none family s, k)
  datagram_made family s (some fd, k) = (
    UdpSocket.ensure_socket (some fd) family s,
    set_reuse_port fd true (set_reuse_addr fd true k),
  )

  unfoldable pub ensure_datagram : ℕ → Socket → Kernel → (Bool × Socket) × Kernel
  unfolding create_nonblocking_udp datagram_made
  ensure_datagram family s k = elim s.sockfd [
    | some fd ↦ (UdpSocket.ensure_socket none family s, k)
    | none ↦ datagram_made family s (create_nonblocking_udp family k)
  ]

  -- `UdpSocket::bind` after `ensureSocket`.
  unfoldable pub bind_made : Bool → InetAddress → Socket → Kernel → (Bool × Socket) × Kernel
  unfolding bind_socket close_held
  bind_made created addr s k = elim s.sockfd [
    | none ↦ ((false, s), k)
    | some fd ↦
        let (bound, k') = bind_socket fd addr k in
        (
          UdpSocket.bind_ensured true created bound s,
          if created && not bound then close_held s.sockfd k' else k',
        )
  ]

  unfoldable pub bind_datagram : InetAddress → Socket → Kernel → (Bool × Socket) × Kernel
  unfolding ensure_datagram bind_made
  bind_datagram addr s k =
      let ((done, s'), k') = ensure_datagram (Address.family addr) s k in
      if done then bind_made (is_none s.sockfd) addr s' k' else ((false, s'), k')

  -- The destructor.
  unfoldable pub destroy_datagram : Socket → Kernel → Socket × Kernel
  unfolding close_held
  destroy_datagram s k = (UdpSocket.destruct true s, close_held s.sockfd k)
