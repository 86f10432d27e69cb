-- ===== src/TcpServer/Accept.antt =====
-- What the acceptor does with descriptors.
use mathlib.Core.List.{append_assoc, append-nil}
use hvnetpp.Prelude.{ℕ, ◌≡◌, refl, ◌∙◌, sym, Bool, true, false, List, [], ◌∷◌, ◌++◌, Option}
use hvnetpp.TcpServer.{
  Acceptor, Accepted, accepted, would_block, too_many_files, other_error, fds, accept_all, shed,
}

-- The descriptors that `accept` gives before its first error.
abbrev pub taken : List Accepted → List ℕ
taken [] = []
taken (accepted fd ∷ rest) = fd ∷ taken rest
taken (_ ∷ rest) = []

-- What its first error closes, of the acceptor with the spare descriptor `idle`.
abbrev pub shed_at : Option ℕ → List Accepted → List ℕ
shed_at idle [] = []
shed_at idle (accepted fd ∷ rest) = shed_at idle rest
shed_at idle (too_many_files extra new ∷ rest) = fds idle ++ fds extra
shed_at idle (would_block ∷ rest) = []
shed_at idle (other_error ∷ rest) = []

-- The spare descriptor after its first error.
abbrev pub spare_at : Option ℕ → List Accepted → Option ℕ
spare_at idle [] = idle
spare_at idle (accepted fd ∷ rest) = spare_at idle rest
spare_at idle (too_many_files extra new ∷ rest) = new
spare_at idle (would_block ∷ rest) = idle
spare_at idle (other_error ∷ rest) = idle

abbrev pub handed_part : Bool → List ℕ → List ℕ
handed_part true l = l
handed_part false l = []

abbrev pub closed_part : Bool → List ℕ → List ℕ
closed_part true l = []
closed_part false l = l

-- `handleRead` gives each connection that is accepted before the first error of `accept`, in order,
-- to the callback, or closes it where no callback is set. If that error is EMFILE it closes the
-- spare descriptor and the one connection accepted in its place, and keeps the new spare one. It
-- closes nothing else and listens on.
pub accept_all_lem :
    (l : List Accepted) (a : Acceptor)
    → ((accept_all l a).handed ≡ a.handed ++ handed_part a.has_callback (taken l))
      × ((accept_all l a).closed
          ≡ a.closed ++ (closed_part a.has_callback (taken l) ++ shed_at a.idle_fd l))
      × ((accept_all l a).idle_fd ≡ spare_at a.idle_fd l)
      × ((accept_all l a).accept_socket ≡ a.accept_socket)
      × ((accept_all l a).listening ≡ a.listening)
unfolding accept_all shed
accept_all_lem l a = go l a.has_callback a.handed a.closed
  where
    at : Bool → List ℕ → List ℕ → Acceptor
    at b h c = record {
      accept_socket = a.accept_socket;
      idle_fd = a.idle_fd;
      listening = a.listening;
      has_callback = b;
      handed = h;
      closed = c;
    }

    go :
        (l : List Accepted) (b : Bool) (h c : List ℕ)
        → ((accept_all l (at b h c)).handed ≡ h ++ handed_part b (taken l))
          × ((accept_all l (at b h c)).closed
              ≡ c ++ (closed_part b (taken l) ++ shed_at a.idle_fd l))
          × ((accept_all l (at b h c)).idle_fd ≡ spare_at a.idle_fd l)
          × ((accept_all l (at b h c)).accept_socket ≡ a.accept_socket)
          × ((accept_all l (at b h c)).listening ≡ a.listening)
    go [] true h c = (sym (append-nil h), sym (append-nil c), refl, refl, refl)
    go [] false h c = (sym (append-nil h), sym (append-nil c), refl, refl, refl)
    go (accepted fd ∷ rest) true h c =
        let (p, q, r, t, u) = go rest true (h ++ (fd ∷ [])) c in
        (p ∙ append_assoc h (fd ∷ []) (taken rest), q, r, t, u)
    go (accepted fd ∷ rest) false h c =
        let (p, q, r, t, u) = go rest false h (c ++ (fd ∷ [])) in
        (p, q ∙ append_assoc c (fd ∷ []) (taken rest ++ shed_at a.idle_fd rest), r, t, u)
    go (would_block ∷ rest) true h c = (sym (append-nil h), sym (append-nil c), refl, refl, refl)
    go (would_block ∷ rest) false h c = (sym (append-nil h), sym (append-nil c), refl, refl, refl)
    go (other_error ∷ rest) true h c = (sym (append-nil h), sym (append-nil c), refl, refl, refl)
    go (other_error ∷ rest) false h c = (sym (append-nil h), sym (append-nil c), refl, refl, refl)
    go (too_many_files extra new ∷ rest) true h c = (sym (append-nil h), refl, refl, refl, refl)
    go (too_many_files extra new ∷ rest) false h c = (sym (append-nil h), refl, refl, refl, refl)
