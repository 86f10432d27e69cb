-- ===== src/TcpServer/Errno.antt =====
-- `accept` of src/SocketsOps.cpp with the error numbers of `accept4`, and `Acceptor::handleRead` of
-- src/TcpServer.cpp over them.
use hvnetpp.Prelude.{
  ℕ, ◌≡◌, refl, Bool, true, false, List, [], ◌∷◌, map, Option, ◌==◌, ◌||◌, if◌then◌else◌, Result,
  ok, err, aborted, ◌>>=◌, arith,
}
use hvnetpp.TcpConnection.{eintr, eagain}
use hvnetpp.TcpServer.{
  Acceptor, Accepted, accepted, would_block, too_many_files, other_error, hand, shed, accept_all,
}

-- What `accept4` returns: a descriptor, or -1 with the error number.
pub data Tried : Type 0 where
  got : ℕ → Tried
  failed : ℕ → Tried

abbrev pub eperm : ℕ
eperm = 1

abbrev pub emfile : ℕ
emfile = 24

abbrev pub eproto : ℕ
eproto = 71

abbrev pub econnaborted : ℕ
econnaborted = 103

-- `accept`: every other error number aborts the process.
pub accept : Tried → Result Tried
accept (got fd) = ok (got fd)
accept (failed e) =
    if (e == eagain)
      || (e == econnaborted)
      || (e == eintr)
      || (e == eproto)
      || (e == eperm)
      || (e == emfile)
    then ok (failed e)
    else err aborted

-- A call of `accept`, with what the second `accept` and `openIdleFd` return if it fails with EMFILE.
pub record Round : Type 0 where
  pub tried : Tried
  pub extra : Option ℕ
  pub idle : Option ℕ

-- What `handleRead` does with an error number.
abbrev pub after_error : ℕ → Round → Acceptor → Acceptor
after_error e r a = if e == eagain then a else (if e == emfile then shed r.extra r.idle a else a)

-- `Acceptor::handleRead`
pub handle_accepts : List Round → Acceptor → Result Acceptor
unfolding accept
handle_accepts [] a = ok a
handle_accepts (r ∷ rs) a = accept r.tried >>= λ t. elim t [
  | got fd ↦ handle_accepts rs (hand fd a)
  | failed e ↦ ok (after_error e r a)
]

abbrev pub is_in : ℕ → List ℕ → Bool
is_in e [] = false
is_in e (x ∷ xs) = (e == x) || is_in e xs

-- Whether the first error is one that `accept` does not return.
abbrev pub dies : List Round → Bool
dies [] = false
dies (r ∷ rs) = elim r.tried [
  | got fd ↦ dies rs
  | failed e ↦
      if is_in e (eperm ∷ eintr ∷ eagain ∷ emfile ∷ eproto ∷ econnaborted ∷ []) then false else true
]

-- The result without the numbers.
abbrev pub classified : Round → Accepted
classified r = elim r.tried [
  | got fd ↦ accepted fd
  | failed e ↦
      if e == eagain
      then would_block
      else (if e == emfile then too_many_files r.extra r.idle else other_error)
]

-- `handleRead` aborts the process exactly if the first error of `accept4` is none of EPERM, EINTR,
-- EAGAIN, EMFILE, EPROTO and ECONNABORTED; else it does what it does over the results without the
-- numbers.
pub handle_accepts-accept_all :
    (l : List Round) (a : Acceptor)
    → handle_accepts l a ≡ (if dies l then err aborted else ok (accept_all (map classified l) a))
unfolding handle_accepts accept accept_all
handle_accepts-accept_all [] a = refl
handle_accepts-accept_all (r ∷ rs) a =
    go r.tried r.extra r.idle (λ b. handle_accepts-accept_all rs b)
  where
    go :
        (t : Tried) (x i : Option ℕ)
        → ((b : Acceptor)
            → handle_accepts rs b
              ≡ (if dies rs then err aborted else ok (accept_all (map classified rs) b)))
        → handle_accepts (record { tried = t; extra = x; idle = i } ∷ rs) a ≡ (
            if dies (record { tried = t; extra = x; idle = i } ∷ rs)
            then err aborted
            else ok
                (accept_all (map classified (record { tried = t; extra = x; idle = i } ∷ rs)) a))
    go (got fd) x i later = later (hand fd a)
    go (failed e) x i later = ground arith
