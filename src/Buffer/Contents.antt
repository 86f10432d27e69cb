-- ===== src/Buffer/Contents.antt =====
-- What the methods of Buffer.h do to the bytes that a reader sees.
use native.Mathlib.Decide.{dec_lt}
use hvnetpp.Prelude.{
  ℕ, ◌+◌, ◌-◌, ◌≤◌, ◌<◌, ◌≡◌, refl, ap, ◌∙◌, ◌⊎◌, inl, inr, List, [], ◌++◌, Result, ok, err,
  length_error, aborted, arith, length, take, drop, slice, overwrite, length-overwrite,
  length-replicate, slice-overwrite_after, slice-overwrite_before, drop-slice, drop_all, max_size,
  sub_size, add_size, ltb, if◌then◌else◌, lt→ltb, not_lt→ltb, sym, take-nil, take-take, replicate,
}
use hvnetpp.Buffer.{
  Buffer, cheap_prepend, writable_bytes, resize, new, retrieve_all, retrieve, retrieve_as_string,
  ensure_writable_bytes, has_written, write, append, prepend,
}
use hvnetpp.Buffer.Valid.{IsValid, contents, length-contents, Makes, ensure_writable_bytes-Makes}

-- The call succeeds with a valid buffer, no smaller than `b`, that holds `held`.
pub record Holds (b : Buffer) (held : List ℕ) (b' : Buffer) : Type 0 where
  pub valid : IsValid b'
  pub holds : contents b' ≡ held
  pub grown : length b.buffer ≤ length b'.buffer

abbrev pub appended : List ℕ → Buffer → Buffer
appended bytes b = record b {
  buffer = overwrite b.writer_index bytes b.buffer;
  writer_index = b.writer_index + length bytes;
}

pub appended-Holds :
    (bytes : List ℕ) (b : Buffer)
    → IsValid b
    → b.writer_index + length bytes ≤ length b.buffer
    → Holds b (contents b ++ bytes) (appended bytes b)
appended-Holds bytes b v h = record {
  valid = record {
    front = omega arith;
    ordered = omega arith;
    within = omega (arith, size);
    limit = omega (arith, size);
  };
  holds =
      ap (λ k. slice b.reader_index k (appended bytes b).buffer)
        {y = b.writer_index - b.reader_index + length bytes} (omega arith)
      ∙ slice-overwrite_after b.reader_index _ b.writer_index bytes b.buffer (omega arith) v.within;
  grown = omega (arith, size);
}
  where
    size : length (appended bytes b).buffer ≡ length b.buffer
    size = length-overwrite b.writer_index bytes b.buffer h

has_written-write :
    (bytes : List ℕ) (b : Buffer)
    → IsValid b
    → b.writer_index + length bytes ≤ length b.buffer
    → has_written (length bytes) (write bytes b) ≡ ok (appended bytes b)
unfolding has_written write
has_written-write bytes b v h = ground (arith, length-overwrite b.writer_index bytes b.buffer h)

-- What `append` may do: the bytes stand behind the readable ones, or the vector's limit is passed.
abbrev pub Appends : List ℕ → Buffer → Result Buffer → Type 0
Appends bytes b r =
    ((b' : Buffer) × (r ≡ ok b') × Holds b (contents b ++ bytes) b')
    ⊎ ((r ≡ err length_error) × (max_size < b.writer_index + length bytes))

-- On a valid buffer `append` puts the bytes behind the readable ones and keeps the buffer valid and
-- its vector no smaller. It throws `length_error` only where the bytes end past the vector's limit,
-- and no assertion fails.
pub append-Appends :
    (bytes : List ℕ) (b : Buffer)
    → IsValid b
    → length bytes ≤ max_size
    → Appends bytes b (append bytes b)
unfolding append
append-Appends bytes b v h =
    go (ensure_writable_bytes (length bytes) b) (ensure_writable_bytes-Makes (length bytes) b v h)
      refl
  where
    go :
        (r : Result Buffer)
        → Makes (length bytes) b r
        → ensure_writable_bytes (length bytes) b ≡ r
        → Appends bytes b (append bytes b)
    go r (inl (b', e, f)) s =
        let a = appended-Holds bytes b' f.valid f.room in
        inl (
          appended bytes b',
          rw (s, e) (has_written-write bytes b' f.valid f.room),
          record {
            valid = a.valid;
            holds = a.holds ∙ ap (λ c. c ++ bytes) f.same;
            grown = omega arith;
          },
        )
    go r (inr (e, f)) s = inr (rw (s, e), f)

abbrev fresh : ℕ → Buffer
fresh size = record {
  buffer = replicate (cheap_prepend + size) 0;
  reader_index = cheap_prepend;
  writer_index = cheap_prepend;
}

-- The constructor gives a valid buffer with no readable byte and `size` writable ones, if that is
-- within the vector's limit.
pub new-IsValid :
    (size : ℕ)
    → cheap_prepend + size ≤ max_size
    → (b : Buffer) × (new size ≡ ok b) × IsValid b × (contents b ≡ []) × (writable_bytes b ≡ size)
unfolding new resize
new-IsValid size h =
    let e : add_size cheap_prepend size ≡ cheap_prepend + size = omega arith in
    let n = length-replicate {A = ℕ} (cheap_prepend + size) 0 in
    (
      fresh size,
      rw e (ground (arith, take-nil {A = ℕ} (cheap_prepend + size))),
      record {
        front = omega arith;
        ordered = omega arith;
        within = omega (arith, n);
        limit = omega (arith, n);
      },
      refl,
      omega (arith, n),
    )

-- What `retrieve` leaves: the index moved on, or both indices reset.
retrieved : ℕ → Buffer → Buffer
unfolding retrieve_all
retrieved len b =
    if ltb len (b.writer_index - b.reader_index)
    then record b { reader_index = b.reader_index + len }
    else retrieve_all b

retrieve-eq-retrieved :
    (len : ℕ) (b : Buffer)
    → IsValid b
    → len ≤ b.writer_index - b.reader_index
    → retrieve len b ≡ ok (retrieved len b)
unfolding retrieve retrieved
retrieve-eq-retrieved len b v h = ground arith

retrieved-Holds :
    (len : ℕ) (b : Buffer)
    → IsValid b
    → len ≤ b.writer_index - b.reader_index
    → Holds b (drop len (contents b)) (retrieved len b)
unfolding retrieved
retrieved-Holds len b v h = elim (dec_lt len (b.writer_index - b.reader_index)) [
  | yes less ↦
      rw (lt→ltb _ _ less)
        (record { valid = omega arith; holds = sym (shorter (omega arith)); grown = omega arith })
  | no all ↦ rw (not_lt→ltb _ _ all) (record {
    valid = omega arith;
    holds = sym (drop_all len (contents b) (omega (arith, length-contents b v)));
    grown = omega arith;
  })
]
  where
    shorter :
        len ≤ b.writer_index - b.reader_index
        → drop len (contents b) ≡ contents (record b { reader_index = b.reader_index + len })
    shorter h =
        ap (λ k. drop len (slice b.reader_index k b.buffer))
          {y = len + (b.writer_index - (b.reader_index + len))} (omega arith)
        ∙ drop-slice len b.reader_index _ b.buffer

-- `retrieve(len)` drops the first `len` readable bytes and keeps the buffer valid; its assertion
-- fails exactly when there are fewer.
pub retrieve_lem :
    (len : ℕ) (b : Buffer)
    → IsValid b
    → ((len ≤ length (contents b))
        × (b' : Buffer) × (retrieve len b ≡ ok b')
        × Holds b (drop len (contents b)) b')
      ⊎ ((length (contents b) < len) × (retrieve len b ≡ err aborted))
unfolding retrieve
retrieve_lem len b v = elim (dec_lt (length (contents b)) len) [
  | yes over ↦ inr (over, ground (arith, length-contents b v))
  | no inside ↦
      let h : len ≤ b.writer_index - b.reader_index = omega (arith, length-contents b v) in
      inl (omega arith, retrieved len b, retrieve-eq-retrieved len b v h, retrieved-Holds len b v h)
]

-- `retrieveAsString(len)` returns the first `len` readable bytes and leaves the rest.
pub retrieve_as_string_lem :
    (len : ℕ) (b : Buffer)
    → IsValid b
    → len ≤ length (contents b)
    → (b' : Buffer) × (retrieve_as_string len b ≡ ok (take len (contents b), b'))
      × Holds b (drop len (contents b)) b'
unfolding retrieve_as_string
retrieve_as_string_lem len b v h =
    let k : len ≤ b.writer_index - b.reader_index = omega (arith, length-contents b v) in
    (
      retrieved len b,
      ground (
        arith,
        retrieve-eq-retrieved len b v k,
        take-take len (b.writer_index - b.reader_index) (drop b.reader_index b.buffer) k,
      ),
      retrieved-Holds len b v k,
    )

abbrev prepended : List ℕ → Buffer → Buffer
prepended bytes b = record b {
  reader_index = b.reader_index - length bytes;
  buffer = overwrite (b.reader_index - length bytes) bytes b.buffer;
}

-- `prepend` puts the bytes in front of the readable ones and keeps the buffer valid; its assertion
-- fails exactly when they do not fit before the reader's index.
pub prepend_lem :
    (bytes : List ℕ) (b : Buffer)
    → IsValid b
    → ((length bytes ≤ b.reader_index)
        × (b' : Buffer) × (prepend bytes b ≡ ok b')
        × Holds b (bytes ++ contents b) b')
      ⊎ ((b.reader_index < length bytes) × (prepend bytes b ≡ err aborted))
unfolding prepend
prepend_lem bytes b v = elim (dec_lt b.reader_index (length bytes)) [
  | yes over ↦ inr (over, ground arith)
  | no inside ↦
      let e : sub_size b.reader_index (length bytes) ≡ b.reader_index - length bytes =
        omega arith in
      inl (omega arith, prepended bytes b, rw e (ground arith), written (omega arith))
]
  where
    written : length bytes ≤ b.reader_index → Holds b (bytes ++ contents b) (prepended bytes b)
    written h =
        let n = length-overwrite (b.reader_index - length bytes) bytes b.buffer (omega arith) in
        record {
          valid = record {
            front = omega arith;
            ordered = omega arith;
            within = omega (arith, n);
            limit = omega (arith, n);
          };
          holds =
              ap (λ k. slice (b.reader_index - length bytes) k (prepended bytes b).buffer)
                {y = length bytes + (b.writer_index - b.reader_index)} (omega arith)
              ∙ slice-overwrite_before (b.reader_index - length bytes) b.reader_index _ bytes
                  b.buffer (omega arith) (omega arith);
          grown = omega (arith, n);
        }
