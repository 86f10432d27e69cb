-- ===== src/Buffer/Tests.antt =====
-- The buffer's theorems at concrete buffers, and runs of its methods.
use hvnetpp.Prelude.{
  ℕ, ◌≤◌, ◌≡◌, refl, ap, length-take, ◌⊎◌, List, [], ◌∷◌, ◌++◌, ok, arith, length, take, replicate,
}
use hvnetpp.Buffer.{
  Buffer, Received, failed, bytes, offered, append, read_fd, ensure_writable_bytes, make_space,
  compact, has_written, write,
}
use hvnetpp.Buffer.Valid.{IsValid}
use hvnetpp.Buffer.Contents.{Appends, append-Appends}
use hvnetpp.Buffer.Input.{Stores, read_fd_lem}

-- Three readable bytes that start at index 9, in a vector of 13.
abbrev three : Buffer
three = record { buffer = replicate 9 0 ++ 1 ∷ 2 ∷ 3 ∷ 0 ∷ []; reader_index = 9; writer_index = 12 }

three-IsValid : IsValid three
three-IsValid = omega arith

-- The bytes are moved to the front before two more are written.
append_moves :
    append (4 ∷ 5 ∷ []) three
    ≡ ok (record {
      buffer = replicate 8 0 ++ 1 ∷ 2 ∷ 3 ∷ 4 ∷ 5 ∷ [];
      reader_index = 8;
      writer_index = 13;
    })
unfolding append ensure_writable_bytes make_space compact has_written write
append_moves = refl

append-Appends_example : Appends (4 ∷ 5 ∷ []) three (append (4 ∷ 5 ∷ []) three)
append-Appends_example = append-Appends (4 ∷ 5 ∷ []) three three-IsValid (omega arith)

-- A descriptor that has three bytes, where there is room.
abbrev incoming : ℕ → Received
incoming n = bytes (take n (4 ∷ 5 ∷ 6 ∷ []))

read_fd_lem_example :
    ((e : ℕ) × (incoming (offered three) ≡ failed e)
      × (read_fd incoming three ≡ ok (failed e, three)))
    ⊎ ((received : List ℕ) × (incoming (offered three) ≡ bytes received)
        × Stores received three (read_fd incoming three))
read_fd_lem_example = read_fd_lem incoming three three-IsValid incoming-fits
  where
    incoming-fits : (n : ℕ) (received : List ℕ) → incoming n ≡ bytes received → length received ≤ n
    incoming-fits n received e =
        let same : take n (4 ∷ 5 ∷ 6 ∷ []) ≡ received = cc in
        omega (arith, ap length same, length-take {A = ℕ} n (4 ∷ 5 ∷ 6 ∷ []))
