-- ===== src/Sockets/Datagram.antt =====
-- The descriptors that a datagram socket opens and closes.
use hvnetpp.Prelude.{
  ℕ, ◌≡◌, refl, ◌∙◌, ap, inl, inr, Bool, true, false, Option, none, some, ◌==◌, ◌&&◌, ◌||◌, not,
  if◌then◌else◌, Bool-cases, arith, sym, subst, ==_iff,
}
use hvnetpp.Address
use hvnetpp.Address.{InetAddress}
use hvnetpp.UdpSocket
use hvnetpp.UdpSocket.{Socket, is_none, is_receiving}
use hvnetpp.Sockets.{
  Sockets, create_nonblocking_udp, bind_socket, close_socket, set_reuse_addr, set_reuse_port,
  close_held, ensure_datagram, bind_made, bind_datagram, destroy_datagram, datagram_made,
  datagram_kind, ipproto_udp, sol_socket, so_reuseaddr, so_reuseport, to_int,
}
use hvnetpp.Sockets.Listen.{SameOpen, Opens}

abbrev pub holds : Option ℕ → ℕ → Bool
holds none f = false
holds (some fd) f = fd == f

bool_same : (o h : Bool) → (h ≡ true → o ≡ true) → o ≡ (h || (o && not h))
bool_same o h v = ground arith

bool_trans :
    (o o' o'' h h' h'' : Bool)
    → (h' ≡ true → o ≡ true → h ≡ true)
    → o' ≡ (h' || (o && not h))
    → o'' ≡ (h'' || (o' && not h'))
    → o'' ≡ (h'' || (o && not h))
bool_trans o o' o'' h h' h'' f p q = ground arith

bool_fresh :
    (o o' h h' : Bool)
    → (h' ≡ true → o ≡ true → h ≡ true)
    → o' ≡ (h' || (o && not h))
    → (o' ≡ true → h' ≡ true)
    → o ≡ true
    → h ≡ true
bool_fresh o o' h h' f e g q = ground arith

pub bool_all : (o : Bool) → o ≡ (o && true)
bool_all o = ground arith

bool_swap : (a b : Bool) → (not a && b) ≡ (b && not a)
bool_swap a b = ground arith

module _ (S : Sockets) where
  open S use {Kernel, is_open}

  -- What the socket holds is open.
  abbrev pub IsHeld : Kernel → Option ℕ → Type 0
  IsHeld k h = (f : ℕ) → holds h f ≡ true → is_open k f ≡ true

  -- Where a socket holds `h` and then `h'`: what it holds then is open, and it was not open before
  -- unless it was held; what it held before and holds no more is closed; nothing else has changed.
  pub record Accounts (k : Kernel) (h : Option ℕ) (k' : Kernel) (h' : Option ℕ) : Type 0 where
    pub opens : (f : ℕ) → is_open k' f ≡ (holds h' f || (is_open k f && not (holds h f)))
    pub fresh : (f : ℕ) → holds h' f ≡ true → is_open k f ≡ true → holds h f ≡ true

  pub same-Accounts :
      (k k' : Kernel) (h : Option ℕ) → IsHeld k h → SameOpen S k k' → Accounts k h k' h
  same-Accounts k k' h v e = record {
    opens = λ f. e f ∙ bool_same (is_open k f) (holds h f) (v f);
    fresh = λ f p q. p;
  }

  opened-Accounts : (fd : ℕ) (k k' : Kernel) → Opens S fd k k' → Accounts k none k' (some fd)
  opened-Accounts fd k k' (fresh, e) = record {
    opens = λ f. e f ∙ ap (λ b. (fd == f) || b) (bool_all (is_open k f));
    fresh =
        λ f p q. let c = subst (λ x. is_open k x ≡ false) ((==_iff fd f).0 p) fresh in ground arith;
  }

  closed-Accounts : (k : Kernel) (h : Option ℕ) → Accounts k h (close_held S h k) none
  unfolding close_held close_socket
  closed-Accounts k none = record { opens = λ f. bool_all (is_open k f); fresh = λ f p q. p }
  closed-Accounts k (some fd) = record {
    opens = λ f. S.close_closes fd k f ∙ bool_swap (fd == f) (is_open k f);
    fresh = λ f p q. ground arith;
  }

  pub Accounts-trans :
      (k k' k'' : Kernel) (h h' h'' : Option ℕ)
      → Accounts k h k' h'
      → Accounts k' h' k'' h''
      → Accounts k h k'' h''
  Accounts-trans k k' k'' h h' h'' a b = record {
    opens = λ f.
        bool_trans (is_open k f) (is_open k' f) (is_open k'' f) (holds h f) (holds h' f)
          (holds h'' f) (a.fresh f) (a.opens f) (b.opens f);
    fresh = λ f p q.
        bool_fresh (is_open k f) (is_open k' f) (holds h f) (holds h' f) (a.fresh f) (a.opens f)
          (b.fresh f p) q;
  }

  pub Accounts-IsHeld : (k k' : Kernel) (h h' : Option ℕ) → Accounts k h k' h' → IsHeld k' h'
  Accounts-IsHeld k k' h h' a f p = a.opens f ∙ rw (p) refl

  -- `s` without its descriptor.
  abbrev empty : Socket → Socket
  empty s = record s { sockfd = none }

  created-Accounts :
      (family : ℕ) (s : Socket) (k : Kernel) (made : Option ℕ × Kernel)
      → (made.0 ≡ none → SameOpen S k made.1)
      → ((fd : ℕ) → made.0 ≡ some fd → Opens S fd k made.1)
      → Accounts k none
          ((datagram_made S family (empty s) made).1)
          ((datagram_made S family (empty s) made).0.1.sockfd)
  unfolding datagram_made UdpSocket.ensure_socket set_reuse_addr set_reuse_port
  created-Accounts family s k (none, k') e o =
      same-Accounts k k' none (λ f p. ground arith) (e refl)
  created-Accounts family s k (some fd, k') e o =
      let k₁ = (S.setsockopt fd sol_socket so_reuseaddr (to_int true) k').1 in
      opened-Accounts fd k _ (
        (o fd refl).0,
        λ f.
            S.setsockopt_keeps fd sol_socket so_reuseport (to_int true) k₁ f
            ∙ S.setsockopt_keeps fd sol_socket so_reuseaddr (to_int true) k' f
            ∙ (o fd refl).1 f,
      )

  pub ensure-Accounts :
      (family : ℕ) (s : Socket) (k : Kernel)
      → IsHeld k s.sockfd
      → Accounts k s.sockfd
          ((ensure_datagram S family s k).1)
          ((ensure_datagram S family s k).0.1.sockfd)
  unfolding ensure_datagram create_nonblocking_udp UdpSocket.ensure_socket
  ensure-Accounts family s k v = go s.sockfd v
    where
      made : Option ℕ × Kernel
      made = S.socket family datagram_kind ipproto_udp k

      go :
          (o : Option ℕ)
          → IsHeld k o
          → Accounts k o
              ((ensure_datagram S family (record s { sockfd = o }) k).1)
              ((ensure_datagram S family (record s { sockfd = o }) k).0.1.sockfd)
      go (some fd) v = same-Accounts k k (some fd) v (λ f. refl)
      go none v =
          created-Accounts family s k made (S.socket_failed family datagram_kind ipproto_udp k)
            (λ fd. S.socket_made family datagram_kind ipproto_udp fd k)

  bound-sockfd :
      (c : Bool) (s : Socket) → (UdpSocket.bind_ensured true c true s).1.sockfd ≡ s.sockfd
  unfolding UdpSocket.bind_ensured
  bound-sockfd c s = elim (Bool-cases (is_receiving s.state)) [
    | inl e ↦ simp (e) refl
    | inr e ↦ simp (e) refl
  ]

  close-Accounts :
      (s : Socket) (k k' : Kernel)
      → IsHeld k s.sockfd
      → SameOpen S k k'
      → Accounts k s.sockfd (close_held S s.sockfd k') none
  close-Accounts s k k' v e =
      Accounts-trans k k' _ s.sockfd s.sockfd none (same-Accounts k k' s.sockfd v e)
        (closed-Accounts k' s.sockfd)

  made-Accounts :
      (created : Bool) (addr : InetAddress) (s : Socket) (k : Kernel)
      → IsHeld k s.sockfd
      → Accounts k s.sockfd
          ((bind_made S created addr s k).1)
          ((bind_made S created addr s k).0.1.sockfd)
  unfolding bind_made bind_socket close_held close_socket UdpSocket.bind_ensured UdpSocket.cleanup
  made-Accounts created addr s k v = go s.sockfd v
    where
      with_fd : Option ℕ → Socket
      with_fd o = record s { sockfd = o }

      go :
          (o : Option ℕ)
          → IsHeld k o
          → Accounts k o
              ((bind_made S created addr (with_fd o) k).1)
              ((bind_made S created addr (with_fd o) k).0.1.sockfd)
      go none v = same-Accounts k k none v (λ f. refl)
      go (some fd) v = ended created ((S.bind fd addr.addr addr.len k).0)
        where
          k' : Kernel
          k' = (S.bind fd addr.addr addr.len k).1

          keeps : SameOpen S k k'
          keeps = S.bind_keeps fd addr.addr addr.len k

          ended :
              (c b : Bool)
              → Accounts k
                  (some fd)
                  (if c && not b then close_held S (some fd) k' else k')
                  ((UdpSocket.bind_ensured true c b (with_fd (some fd))).1.sockfd)
          ended true true =
              subst (Accounts k (some fd) k') (sym (bound-sockfd true (with_fd (some fd))))
                (same-Accounts k k' (some fd) v keeps)
          ended true false = close-Accounts (with_fd (some fd)) k k' v keeps
          ended false true =
              subst (Accounts k (some fd) k') (sym (bound-sockfd false (with_fd (some fd))))
                (same-Accounts k k' (some fd) v keeps)
          ended false false = same-Accounts k k' (some fd) v keeps

  pub bind-Accounts :
      (addr : InetAddress) (s : Socket) (k : Kernel)
      → IsHeld k s.sockfd
      → Accounts k s.sockfd ((bind_datagram S addr s k).1) ((bind_datagram S addr s k).0.1.sockfd)
  unfolding bind_datagram
  bind-Accounts addr s k v =
      let e = ensure-Accounts (Address.family addr) s k v in
      elim (Bool-cases (ensure_datagram S (Address.family addr) s k).0.0) [
        | inl d ↦ rw (d) (
            Accounts-trans k _ _ s.sockfd _ _ e
              (made-Accounts (is_none s.sockfd) addr _ _ (Accounts-IsHeld k _ s.sockfd _ e)))
        | inr d ↦ rw (d) e
      ]

  pub destroy-Accounts :
      (s : Socket) (k : Kernel)
      → IsHeld k s.sockfd
      → Accounts k s.sockfd ((destroy_datagram S s k).1) ((destroy_datagram S s k).0.sockfd)
  unfolding destroy_datagram UdpSocket.destruct UdpSocket.cleanup
  destroy-Accounts s k v = closed-Accounts k s.sockfd
