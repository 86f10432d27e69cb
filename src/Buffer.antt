-- ===== src/Buffer.antt =====
-- include/hvnetpp/Buffer.h and src/Buffer.cpp: the byte buffer of a connection. Bytes are only
-- moved, so a byte is any number. A method returns the new buffer; an assertion that fails is
-- `err aborted`, and a `resize` past the vector's limit is `err length_error`.
pub mod Valid
pub mod Contents
pub mod Input
mod Tests
use hvnetpp.Prelude.{
  ℕ, ◌+◌, ◌-◌, Bool, List, [], ◌++◌, Result, ok, err, assert, ◌>>=◌, ◌>>◌, length_error, ltb, leb,
  ◌==◌, if◌then◌else◌, length, take, drop, replicate, slice, overwrite, add_size, sub_size,
  max_size,
}

pub record Buffer : Type 0 where
  pub buffer : List ℕ
  pub reader_index : ℕ
  pub writer_index : ℕ

abbrev pub cheap_prepend : ℕ
cheap_prepend = 8

abbrev pub initial_size : ℕ
initial_size = 1024

-- `buffer_.resize(n)`: new bytes are zero.
pub resize : ℕ → List ℕ → Result (List ℕ)
resize n xs =
    if ltb max_size n then err length_error else ok (take n xs ++ replicate (n - length xs) 0)

-- The constructor; `size` is its argument.
pub new : ℕ → Result Buffer
unfolding resize
new size = do
  bytes ← resize (add_size cheap_prepend size) []
  ok (record { buffer = bytes; reader_index = cheap_prepend; writer_index = cheap_prepend })

abbrev pub readable_bytes : Buffer → ℕ
readable_bytes b = sub_size b.writer_index b.reader_index

abbrev pub writable_bytes : Buffer → ℕ
writable_bytes b = sub_size (length b.buffer) b.writer_index

abbrev pub prependable_bytes : Buffer → ℕ
prependable_bytes b = b.reader_index

pub retrieve_all : Buffer → Buffer
retrieve_all b = record b { reader_index = cheap_prepend; writer_index = cheap_prepend }

pub retrieve : ℕ → Buffer → Result Buffer
unfolding retrieve_all
retrieve len b = do
  assert (leb len (readable_bytes b))
  if ltb len (readable_bytes b)
      then ok (record b { reader_index = add_size b.reader_index len })
      else ok (retrieve_all b)

-- `std::string(peek(), len)`, then `retrieve`.
pub retrieve_as_string : ℕ → Buffer → Result (List ℕ × Buffer)
retrieve_as_string len b = do
  assert (leb len (readable_bytes b))
  b' ← retrieve len b
  ok (slice b.reader_index len b.buffer, b')

pub retrieve_all_as_string : Buffer → Result (List ℕ × Buffer)
retrieve_all_as_string b = retrieve_as_string (readable_bytes b) b

-- The readable bytes are moved to the front.
pub compact : Buffer → Result Buffer
compact b = do
  assert (ltb cheap_prepend b.reader_index)
  let readable = readable_bytes b
  let moved : Buffer = record {
    buffer = overwrite cheap_prepend (slice b.reader_index readable b.buffer) b.buffer;
    reader_index = cheap_prepend;
    writer_index = add_size cheap_prepend readable;
  }
  assert (readable == readable_bytes moved)
  ok moved

pub make_space : ℕ → Buffer → Result Buffer
make_space len b =
    if ltb (add_size (writable_bytes b) (prependable_bytes b)) (add_size len cheap_prepend)
    then (resize (add_size b.writer_index len) b.buffer >>= λ bytes.
        ok (record b { buffer = bytes }))
    else compact b

pub ensure_writable_bytes : ℕ → Buffer → Result Buffer
ensure_writable_bytes len b = do
  b' ← if ltb (writable_bytes b) len then make_space len b else ok b
  assert (leb len (writable_bytes b'))
  ok b'

pub has_written : ℕ → Buffer → Result Buffer
has_written len b = do
  assert (leb len (writable_bytes b))
  ok (record b { writer_index = add_size b.writer_index len })

-- `std::copy` to `beginWrite()`.
pub write : List ℕ → Buffer → Buffer
write bytes b = record b { buffer = overwrite b.writer_index bytes b.buffer }

pub append : List ℕ → Buffer → Result Buffer
append bytes b = do
  b' ← ensure_writable_bytes (length bytes) b
  has_written (length bytes) (write bytes b')

pub prepend : List ℕ → Buffer → Result Buffer
prepend bytes b = do
  assert (leb (length bytes) (prependable_bytes b))
  let start = sub_size b.reader_index (length bytes)
  ok (record b { reader_index = start; buffer = overwrite start bytes b.buffer })

-- What `readv` returns: an error number, or the bytes it stored, in order, in the parts offered.
pub data Received : Type 0 where
  failed : ℕ → Received
  bytes : List ℕ → Received

abbrev pub extra_size : ℕ
extra_size = 65536

-- The room that `readFd` offers to `readv`: the buffer's own, with `extrabuf` where that is less
-- than 64 KiB.
pub offered : Buffer → ℕ
offered b =
    if ltb (writable_bytes b) extra_size
    then add_size (writable_bytes b) extra_size
    else writable_bytes b

-- What `readv` stored beyond the buffer's own room is in `extrabuf`, and is appended.
pub take_in : List ℕ → Buffer → Result Buffer
unfolding write
take_in received b =
    let writable = writable_bytes b in
    let stored = write (take writable received) b in
    if leb (length received) writable
    then ok (record stored { writer_index = add_size b.writer_index (length received) })
    else append (drop writable received) (record stored { writer_index = length b.buffer })

-- `readFd`: `readv` is the call on the descriptor, given the room. The pair is the error number that
-- is saved, if any, and the buffer.
pub read_fd : (ℕ → Received) → Buffer → Result (Received × Buffer)
unfolding take_in
read_fd readv b = elim (readv (offered b)) [
  | failed e ↦ ok (failed e, b)
  | bytes received ↦ (take_in received b >>= λ b'. ok (bytes received, b'))
]
