-- ===== src/Sockets/Lifetime.antt =====
-- A datagram socket from its constructor to its destructor, and the refinement of `UdpSocket.bind`.
use hvnetpp.Prelude.{
  ℕ, ◌≡◌, refl, ◌∙◌, inl, inr, Bool, true, false, List, [], ◌∷◌, Option, none, some, ◌==◌,
  if◌then◌else◌, Bool-cases, arith, sym,
}
use hvnetpp.Address
use hvnetpp.Address.{InetAddress}
use hvnetpp.UdpSocket
use hvnetpp.UdpSocket.{Socket, is_none}
use hvnetpp.Sockets.{
  Sockets, ensure_datagram, bind_made, bind_datagram, destroy_datagram, datagram_made, bind_socket,
  create_nonblocking_udp,
}
use hvnetpp.Sockets.Datagram.{
  IsHeld, Accounts, Accounts-IsHeld, Accounts-trans, ensure-Accounts, bind-Accounts,
  destroy-Accounts, same-Accounts, bool_all,
}

-- `sendTo` opens the socket as `open` does.
pub data Call : Type 0 where
  call_open : ℕ → Call
  call_bind : InetAddress → Call

module _ (S : Sockets) where
  open S use {Kernel, is_open}

  abbrev pub call : Call → Socket → Kernel → Socket × Kernel
  call (call_open family) s k = let (r, k') = ensure_datagram S family s k in (r.1, k')
  call (call_bind addr) s k = let (r, k') = bind_datagram S addr s k in (r.1, k')

  abbrev pub calls : List Call → Socket → Kernel → Socket × Kernel
  calls [] s k = (s, k)
  calls (c ∷ cs) s k = let (s', k') = call c s k in calls cs s' k'

  call-Accounts :
      (c : Call) (s : Socket) (k : Kernel)
      → IsHeld S k s.sockfd
      → Accounts S k s.sockfd ((call c s k).1) ((call c s k).0.sockfd)
  call-Accounts (call_open family) s k v = ensure-Accounts S family s k v
  call-Accounts (call_bind addr) s k v = bind-Accounts S addr s k v

  calls-Accounts :
      (cs : List Call) (s : Socket) (k : Kernel)
      → IsHeld S k s.sockfd
      → Accounts S k s.sockfd ((calls cs s k).1) ((calls cs s k).0.sockfd)
  calls-Accounts [] s k v = same-Accounts S k k s.sockfd v (λ f. refl)
  calls-Accounts (c ∷ cs) s k v =
      let a = call-Accounts c s k v in
      let (s', k') = call c s k in
      Accounts-trans S k _ _ s.sockfd _ _ a
        (calls-Accounts cs _ _ (Accounts-IsHeld S k _ s.sockfd _ a))

  -- The socket after its constructor, the calls and its destructor.
  abbrev pub lifetime : List Call → Kernel → Socket × Kernel
  lifetime cs k = let (s, k') = calls cs UdpSocket.new k in destroy_datagram S s k'

  -- Whatever is opened and bound between constructor and destructor, and whichever system calls
  -- fail, the descriptors that are open then are those that were open before.
  pub lifetime_lem :
      (cs : List Call) (k : Kernel) (f : ℕ) → is_open ((lifetime cs k).1) f ≡ is_open k f
  unfolding UdpSocket.new UdpSocket.destruct UdpSocket.cleanup destroy_datagram
  lifetime_lem cs k f =
      let (s, k') = calls cs UdpSocket.new k in
      let a : Accounts S k none k' s.sockfd =
        calls-Accounts cs UdpSocket.new k (λ g p. ground arith) in
      let b = destroy-Accounts S s k' (Accounts-IsHeld S k k' none s.sockfd a) in
      (Accounts-trans S k k' ((destroy_datagram S s k').1) none s.sockfd none a b).opens f
      ∙ sym (bool_all (is_open k f))

  abbrev after_ensure : InetAddress → Bool → (Bool × Socket) × Kernel → (Bool × Socket) × Kernel
  after_ensure addr created ((done, s'), k') =
      if done then bind_made S created addr s' k' else ((false, s'), k')

  -- What `bind` returns and does to the socket is `UdpSocket.bind` for some results of the calls.
  pub bind_datagram-Refines :
      (addr : InetAddress) (s : Socket) (k : Kernel)
      → (made : Option ℕ) × (binds : Bool) × ((bind_datagram S addr s k).0
          ≡ UdpSocket.bind true made binds (Address.family addr) s)
  unfolding bind_datagram ensure_datagram datagram_made bind_made UdpSocket.bind
      UdpSocket.ensure_socket bind_socket create_nonblocking_udp
  bind_datagram-Refines addr s k = go s.sockfd
    where
      family : ℕ
      family = Address.family addr

      with_fd : Option ℕ → Socket
      with_fd o = record s { sockfd = o }

      created :
          (p : Option ℕ × Kernel)
          → (made : Option ℕ) × (binds : Bool) × ((after_ensure addr true
                (datagram_made S family (with_fd none) p)).0
              ≡ UdpSocket.bind true made binds family (with_fd none))
      created (none, k') = (none, false, refl)
      created (some fd, k') = (some fd, _, refl)

      go :
          (o : Option ℕ)
          → (made : Option ℕ) × (binds : Bool) × ((bind_datagram S addr (with_fd o) k).0
              ≡ UdpSocket.bind true made binds family (with_fd o))
      go none = created (create_nonblocking_udp S family k)
      go (some fd) = (
        none,
        (bind_socket S fd addr k).0,
        elim (Bool-cases (s.family == family)) [ inl e ↦ rw (e) refl | inr e ↦ rw (e) refl ],
      )
