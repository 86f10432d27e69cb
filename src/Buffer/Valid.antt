-- ===== src/Buffer/Valid.antt =====
-- The invariant of Buffer.h's indices, the bytes that a reader sees, and the room that
-- `makeSpace` and `ensureWritableBytes` make.
use hvnetpp.Prelude.{
  ℕ, ◌+◌, ◌-◌, ◌≤◌, ◌<◌, ◌≡◌, refl, ◌⊎◌, inl, inr, List, ◌++◌, ok, err, length_error, Result, arith,
  length, slice, overwrite, replicate, length-append, length-replicate, length-slice,
  length-overwrite, slice-append, slice-overwrite_at, take_all, max_size, add_size, ◌>>=◌,
}
use native.Mathlib.Decide.{dec_le}
use hvnetpp.Buffer.{
  Buffer, cheap_prepend, readable_bytes, resize, compact, make_space, ensure_writable_bytes,
}

pub record IsValid (b : Buffer) : Type 0 where
  pub front : cheap_prepend ≤ b.writer_index
  pub ordered : b.reader_index ≤ b.writer_index
  pub within : b.writer_index ≤ length b.buffer
  pub limit : length b.buffer ≤ max_size

-- The bytes between the two indices.
abbrev pub contents : Buffer → List ℕ
contents b = slice b.reader_index (b.writer_index - b.reader_index) b.buffer

pub length-contents :
    (b : Buffer) → IsValid b → length (contents b) ≡ b.writer_index - b.reader_index
length-contents b v =
    length-slice b.reader_index (b.writer_index - b.reader_index) b.buffer (omega arith)

-- `b'` holds the bytes of `b`, and has room for `len` more.
pub record Fits (len : ℕ) (b b' : Buffer) : Type 0 where
  pub valid : IsValid b'
  pub same : contents b' ≡ contents b
  pub room : b'.writer_index + len ≤ length b'.buffer
  pub grown : length b.buffer ≤ length b'.buffer

-- Either room was made, or the vector would have passed its limit.
abbrev pub Makes : ℕ → Buffer → Result Buffer → Type 0
Makes len b r =
    ((b' : Buffer) × (r ≡ ok b') × Fits len b b')
    ⊎ ((r ≡ err length_error) × (max_size < b.writer_index + len))

abbrev compacted : Buffer → Buffer
compacted b = record {
  buffer = overwrite cheap_prepend (contents b) b.buffer;
  reader_index = cheap_prepend;
  writer_index = cheap_prepend + (b.writer_index - b.reader_index);
}

compact-eq-compacted :
    (b : Buffer) → IsValid b → cheap_prepend < b.reader_index → compact b ≡ ok (compacted b)
unfolding compact
compact-eq-compacted b v h =
    let e : readable_bytes b ≡ b.writer_index - b.reader_index = omega arith in rw e (ground arith)

compacted-Fits :
    (len : ℕ) (b : Buffer)
    → IsValid b
    → cheap_prepend < b.reader_index
    → len + cheap_prepend + (b.writer_index - b.reader_index) ≤ length b.buffer
    → Fits len b (compacted b)
compacted-Fits len b v h k = record {
  valid = record {
    front = omega arith;
    ordered = omega arith;
    within = omega (arith, size);
    limit = omega (arith, size);
  };
  same =
      slice-overwrite_at cheap_prepend _ (contents b) b.buffer (omega (arith, length-contents b v))
        (omega arith);
  room = omega (arith, size);
  grown = omega (arith, size);
}
  where
    size : length (overwrite cheap_prepend (contents b) b.buffer) ≡ length b.buffer
    size = length-overwrite cheap_prepend (contents b) b.buffer (omega (arith, length-contents b v))

-- Growing by `resize` keeps every byte.
abbrev resized : ℕ → Buffer → Buffer
resized n b = record b { buffer = b.buffer ++ replicate (n - length b.buffer) 0 }

resize_grows :
    (n : ℕ) (xs : List ℕ)
    → length xs ≤ n
    → n ≤ max_size
    → resize n xs ≡ ok (xs ++ replicate (n - length xs) 0)
unfolding resize
resize_grows n xs h k = ground (arith, take_all n xs h)

resize_fails : (n : ℕ) (xs : List ℕ) → max_size < n → resize n xs ≡ err length_error
unfolding resize
resize_fails n xs h = ground arith

resized-Fits :
    (len n : ℕ) (b : Buffer)
    → IsValid b
    → n ≡ b.writer_index + len
    → length b.buffer ≤ n
    → n ≤ max_size
    → Fits len b (resized n b)
resized-Fits len n b v e h k = record {
  valid = record {
    front = v.front;
    ordered = v.ordered;
    within = omega (arith, size);
    limit = omega (arith, size);
  };
  same = slice-append b.reader_index _ b.buffer _ (omega arith);
  room = omega (arith, size);
  grown = omega (arith, size);
}
  where
    size : length (resized n b).buffer ≡ n
    size = omega (
      arith,
      length-append b.buffer (replicate (n - length b.buffer) 0),
      length-replicate {A = ℕ} (n - length b.buffer) 0,
    )

-- There is room once the readable bytes are moved.
make_space-compact :
    (len : ℕ) (b : Buffer)
    → IsValid b
    → len ≤ max_size
    → b.writer_index + len + cheap_prepend ≤ length b.buffer + b.reader_index
    → make_space len b ≡ compact b
unfolding make_space
make_space-compact len b v h k = ground arith

make_space-resize :
    (len : ℕ) (b : Buffer)
    → IsValid b
    → len ≤ max_size
    → length b.buffer + b.reader_index < b.writer_index + len + cheap_prepend
    → make_space len b
      ≡ (resize (b.writer_index + len) b.buffer >>= λ xs. ok (record b { buffer = xs }))
unfolding make_space
make_space-resize len b v h k =
    let e : add_size b.writer_index len ≡ b.writer_index + len = omega arith in rw e (ground arith)

make_space-Makes :
    (len : ℕ) (b : Buffer)
    → IsValid b
    → len ≤ max_size
    → length b.buffer < b.writer_index + len
    → Makes len b (make_space len b)
make_space-Makes len b v h k =
    elim (dec_le (b.writer_index + len + cheap_prepend) (length b.buffer + b.reader_index)) [
      | yes near ↦
          rw (make_space-compact len b v h near, compact-eq-compacted b v (omega arith))
            (inl (compacted b, refl, compacted-Fits len b v (omega arith) (omega arith)))
      | no far ↦ rw (make_space-resize len b v h (omega arith)) (by_limit (omega arith))
    ]
  where
    by_limit :
        length b.buffer + b.reader_index < b.writer_index + len + cheap_prepend
        → Makes len b
            (resize (b.writer_index + len) b.buffer >>= λ xs. ok (record b { buffer = xs }))
    by_limit far = elim (dec_le (b.writer_index + len) max_size) [
      | yes small ↦ rw (resize_grows (b.writer_index + len) b.buffer (omega arith) small) (
          inl (
            resized (b.writer_index + len) b,
            refl,
            resized-Fits len (b.writer_index + len) b v refl (omega arith) small,
          ))
      | no large ↦
          rw (resize_fails (b.writer_index + len) b.buffer (omega arith)) (inr (refl, omega arith))
    ]

-- `ensureWritableBytes` makes the room that it is asked for and keeps the readable bytes, or the
-- vector's limit is passed; its assertion never fails.
pub ensure_writable_bytes-Makes :
    (len : ℕ) (b : Buffer) → IsValid b → len ≤ max_size → Makes len b (ensure_writable_bytes len b)
unfolding ensure_writable_bytes
ensure_writable_bytes-Makes len b v h = elim (dec_le (b.writer_index + len) (length b.buffer)) [
  | yes near ↦
      inl (b, ground arith, record { valid = v; same = refl; room = near; grown = omega arith })
  | no far ↦ made (omega arith) (make_space len b) (make_space-Makes len b v h (omega arith)) refl
]
  where
    made :
        length b.buffer < b.writer_index + len
        → (r : Result Buffer) → Makes len b r
        → make_space len b ≡ r
        → Makes len b (ensure_writable_bytes len b)
    made far r (inl (b', e, f)) s = inl (b', ground arith, f)
    made far r (inr (e, f)) s = inr (ground arith, f)
