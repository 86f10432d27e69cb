-- ===== src/Buffer/Input.antt =====
-- `Buffer::readFd`: the room offered to `readv`, and what becomes of the bytes that it stores.
use mathlib.Core.List.{append_assoc}
use native.Mathlib.Decide.{dec_le}
use hvnetpp.Prelude.{
  ℕ, ◌+◌, ◌-◌, ◌*◌, ◌≤◌, ◌<◌, ◌≡◌, refl, ap, ◌∙◌, ◌⊎◌, inl, inr, List, ◌++◌, Result, ok, err,
  length_error, arith, length, take, drop, max_size, length-take, length-drop, take_all,
  take-append-drop,
}
use hvnetpp.Buffer.{
  Buffer, writable_bytes, Received, failed, bytes, extra_size, offered, write, append, take_in,
  read_fd,
}
use hvnetpp.Buffer.Valid.{IsValid, contents}
use hvnetpp.Buffer.Contents.{Holds, Appends, append-Appends, appended, appended-Holds}

-- The room that `readFd` offers is the buffer's own plus the 64 KiB of `extrabuf` where the former
-- is less than 64 KiB, so that it is between 64 KiB and 128 KiB less one; else it is the buffer's
-- own.
pub offered_bounds :
    (b : Buffer)
    → IsValid b
    → ((length b.buffer - b.writer_index < extra_size)
        × (offered b ≡ length b.buffer - b.writer_index + extra_size)
        × (extra_size ≤ offered b)
        × (offered b < 2 * extra_size))
      ⊎ ((extra_size ≤ length b.buffer - b.writer_index)
          × (offered b ≡ length b.buffer - b.writer_index))
unfolding offered
offered_bounds b v = ground arith

-- The buffer once its own room is full.
abbrev filled : List ℕ → Buffer → Buffer
filled received b = appended (take (length b.buffer - b.writer_index) received) b

take_in-near :
    (received : List ℕ) (b : Buffer)
    → IsValid b
    → b.writer_index + length received ≤ length b.buffer
    → take_in received b ≡ ok (appended received b)
unfolding take_in write
take_in-near received b v h =
    let e : writable_bytes b ≡ length b.buffer - b.writer_index = omega arith in
    rw e (ground (arith, take_all (length b.buffer - b.writer_index) received (omega arith)))

take_in-far :
    (received : List ℕ) (b : Buffer)
    → IsValid b
    → length b.buffer < b.writer_index + length received
    → take_in received b
      ≡ append (drop (length b.buffer - b.writer_index) received) (filled received b)
unfolding take_in write
take_in-far received b v h =
    let e : writable_bytes b ≡ length b.buffer - b.writer_index = omega arith in
    rw e (ground (arith, length-take (length b.buffer - b.writer_index) received))

-- The bytes stand behind the readable ones, or the vector's limit is passed.
take_in-Appends :
    (received : List ℕ) (b : Buffer)
    → IsValid b
    → length received ≤ max_size
    → Appends received b (take_in received b)
take_in-Appends received b v h =
    elim (dec_le (b.writer_index + length received) (length b.buffer)) [
      | yes near ↦
          rw (take_in-near received b v near)
            (inl (appended received b, refl, appended-Holds received b v near))
      | no far ↦ rw (take_in-far received b v (omega arith)) (
          joined (append rest (filled received b))
            (append-Appends rest (filled received b) full.valid (omega (arith, count))))
    ]
  where
    own : ℕ
    own = length b.buffer - b.writer_index

    rest : List ℕ
    rest = drop own received

    count : length rest ≡ length received - own
    count = length-drop own received

    full : Holds b (contents b ++ take own received) (filled received b)
    full = appended-Holds (take own received) b v (omega (arith, length-take own received))

    joined : (r : Result Buffer) → Appends rest (filled received b) r → Appends received b r
    joined r (inl (b', e, a)) = inl (
      b',
      e,
      record {
        valid = a.valid;
        holds =
            a.holds
            ∙ ap (λ c. c ++ rest) full.holds
            ∙ append_assoc (contents b) (take own received) rest
            ∙ ap (λ c. contents b ++ c) (take-append-drop own received);
        grown = omega (arith, full.grown, a.grown);
      },
    )
    joined r (inr (e, f)) = inr (e, omega (arith, f, count, length-take own received))

-- The buffer holds what it held and then what was received, or the vector's limit is passed.
abbrev pub Stores : List ℕ → Buffer → Result (Received × Buffer) → Type 0
Stores received b r =
    ((b' : Buffer) × (r ≡ ok (bytes received, b')) × Holds b (contents b ++ received) b')
    ⊎ ((r ≡ err length_error) × (max_size < b.writer_index + length received))

-- What `readFd` does on a valid buffer: where `readv` fails it reports the error and leaves the
-- buffer alone; else every byte that `readv` stored stands, in order, behind the readable ones, in
-- a valid buffer, unless the vector's limit is passed. That `readv` stores no more than it is
-- offered is its documented contract.
pub read_fd_lem :
    (readv : ℕ → Received) (b : Buffer)
    → IsValid b
    → ((n : ℕ) (received : List ℕ) → readv n ≡ bytes received → length received ≤ n)
    → ((e : ℕ) × (readv (offered b) ≡ failed e) × (read_fd readv b ≡ ok (failed e, b)))
      ⊎ ((received : List ℕ) × (readv (offered b) ≡ bytes received)
          × Stores received b (read_fd readv b))
unfolding read_fd
read_fd_lem readv b v contract = go (readv (offered b)) refl
  where
    stored :
        (received : List ℕ)
        → readv (offered b) ≡ bytes received
        → (r : Result Buffer) → take_in received b ≡ r
        → Appends received b r
        → Stores received b (read_fd readv b)
    stored received e r s (inl (b', f, a)) = inl (b', rw (e, read_fd, s, f), a)
    stored received e r s (inr (f, a)) = inr (rw (e, read_fd, s, f), a)

    go :
        (r : Received)
        → readv (offered b) ≡ r
        → ((e : ℕ) × (readv (offered b) ≡ failed e) × (read_fd readv b ≡ ok (failed e, b)))
          ⊎ ((received : List ℕ) × (readv (offered b) ≡ bytes received)
              × Stores received b (read_fd readv b))
    go (failed e) s = inl (e, s, rw (s, read_fd))
    go (bytes received) s = inr (
      received,
      s,
      stored received s (take_in received b) refl (
          take_in-Appends received b v
            (omega (arith, contract (offered b) received s, offered_bounds b v))),
    )
