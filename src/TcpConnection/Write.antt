-- ===== src/TcpConnection/Write.antt =====
-- `handleWrite`: the output goes to the wire in order, and the half-close follows it.
use mathlib.Core.List.{append_assoc}
use hvnetpp.Prelude.{
  ℕ, ◌≤◌, ◌<◌, ◌≡◌, refl, ap, ◌∙◌, ◌⊎◌, inl, inr, Bool, true, false, List, ◌++◌, Result, ok, err,
  arith, ◌==◌, ◌&&◌, not, if◌then◌else◌, length, take, drop, take-append-drop, ◌>>=◌, Bool-cases,
  aborted,
}
use hvnetpp.Buffer.{Buffer, retrieve, readable_bytes}
use hvnetpp.Buffer.Valid.{IsValid, contents, length-contents}
use hvnetpp.Buffer.Contents.{Holds, retrieve_lem}
use hvnetpp.Channel.{is_writing}
use hvnetpp.TcpConnection.{
  Connection, is_open, is_disconnected, is_disconnecting, disconnected, Written, wrote,
  write_failed, readable, has, after_flush, after_write, handle_write, handle_error,
  shutdown_in_loop, epipe,
}
use hvnetpp.TcpConnection.Sound.{
  IsSound, stream, closed, closed-IsSound, is_transient, handle_error-eq, readable_bytes-contents,
}
use hvnetpp.TcpConnection.Send.{IsWrite}

-- The call succeeds and accepts or loses no byte; the state is the same, or disconnected.
pub record Flows (c c' : Connection) : Type 0 where
  pub sound : IsSound c'
  pub stream : stream c' ≡ stream c
  pub state : (c'.state ≡ c.state) ⊎ (c'.state ≡ disconnected)

abbrev pub Writes : Connection → Result Connection → Type 0
Writes c r = (c' : Connection) × (r ≡ ok c') × Flows c c'

same-Flows : (c : Connection) → IsSound c → Flows c c
same-Flows c v = record { sound = v; stream = refl; state = inl refl }

pub handle_error-Writes : (e : ℕ) (c : Connection) → IsSound c → Writes c (handle_error e c)
handle_error-Writes e c v = rw (handle_error-eq e c) (go (not (is_transient e) && is_open c.state))
  where
    go : (b : Bool) → Writes c (ok (if b then closed c else c))
    go true =
        (closed c, refl, record { sound = closed-IsSound c v; stream = refl; state = inr refl })
    go false = (c, refl, same-Flows c v)

-- A connection with valid buffers whose output has just been emptied.
after_flush-Flows :
    (c : Connection)
    → IsValid c.input
    → IsValid c.output
    → length (contents c.output) ≡ 0
    → is_open c.state ≡ true
    → has c.socket_fd ≡ true
    → (c.write_shut ≡ true → is_disconnecting c.state ≡ true)
    → Flows c (after_flush c)
unfolding after_flush shutdown_in_loop
after_flush-Flows c vi vo z o f s = elim (Bool-cases (is_disconnecting c.state)) [
  | inl d ↦ rw d (record {
    sound = record {
      in_valid = vi;
      out_valid = vo;
      writing = λ h. ground (arith, z);
      quiet = λ h. ground (arith, o);
      shut_state = λ h. ground (arith, d);
      shut_flushed = λ h k. z;
      half_closed = λ h k. ground (arith, f);
      has_socket = λ h. f;
    };
    stream = refl;
    state = inl refl;
  })
  | inr d ↦ rw d (record {
    sound = record {
      in_valid = vi;
      out_valid = vo;
      writing = λ h. ground (arith, z);
      quiet = λ h. ground (arith, o);
      shut_state = λ h. ground (arith, s h);
      shut_flushed = λ h k. z;
      half_closed = λ h k. ground (arith, d);
      has_socket = λ h. f;
    };
    stream = refl;
    state = inl refl;
  })
]

-- A sound channel that waits to write: the connection is open, with output left.
pub writing-open :
    (c : Connection) → IsSound c → is_writing c.channel ≡ true → is_open c.state ≡ true
writing-open c v w = elim (Bool-cases (is_open c.state)) [
  | inl o ↦ o
  | inr o ↦ ground (arith, v.quiet o)
]

pub writing-not_shut :
    (c : Connection) → IsSound c → is_writing c.channel ≡ true → c.write_shut ≡ false
writing-not_shut c v w = elim (Bool-cases c.write_shut) [
  | inr s ↦ s
  | inl s ↦
      let o = writing-open c v w in
      let d : is_disconnected c.state ≡ false = ground (arith, o) in
      let g : is_disconnecting c.state ≡ true = ground (arith, v.shut_state s) in
      ground (arith, v.shut_flushed s g, v.writing d)
]

-- The first `n` bytes are on the wire, and `b` holds the rest.
abbrev pub moved : ℕ → Buffer → Connection → Connection
moved n b c = record c { output = b; wire = c.wire ++ take n (readable c.output) }

moved-Flows :
    (n : ℕ) (b : Buffer) (c : Connection)
    → IsSound c
    → is_writing c.channel ≡ true
    → IsValid b
    → stream (moved n b c) ≡ stream c
    → Flows c (if readable_bytes b == 0 then after_flush (moved n b c) else moved n b c)
moved-Flows n b c v w k s =
    let o = writing-open c v w in
    let d : is_disconnected c.state ≡ false = ground (arith, o) in
    let g = writing-not_shut c v w in
    elim (Bool-cases (readable_bytes b == 0)) [
      | inl z ↦ rw z (
          let f =
            after_flush-Flows (moved n b c) v.in_valid k
              (ground (arith, readable_bytes-contents b k)) o (v.has_socket d)
              (λ t. ground (arith, g)) in
          record { sound = f.sound; stream = f.stream ∙ s; state = f.state })
      | inr z ↦ rw z (record {
        sound = record {
          in_valid = v.in_valid;
          out_valid = k;
          writing = λ h. w ∙ ground (arith, readable_bytes-contents b k);
          quiet = v.quiet;
          shut_state = v.shut_state;
          shut_flushed = λ t h. ground (arith, g);
          half_closed = λ h y. ground (arith, readable_bytes-contents b k);
          has_socket = v.has_socket;
        };
        stream = s;
        state = inl refl;
      })
    ]

-- `handleWrite` of a sound connection, for a `write` that follows its contract, succeeds: no
-- assertion fails. All that was accepted for sending stands, in order, partly on the wire and the
-- rest in the output; the connection stays sound, and its state changes only by being disconnected.
-- A sound connection on its way down has its write half shut exactly if its output is empty.
pub handle_write_lem :
    (write : List ℕ → Written) (c : Connection)
    → IsSound c
    → IsWrite write
    → Writes c (handle_write write c)
unfolding handle_write after_write
handle_write_lem write c v contract = elim (Bool-cases (is_disconnected c.state)) [
  | inl d ↦ rw d (c, refl, same-Flows c v)
  | inr d ↦ elim (Bool-cases (is_writing c.channel)) [
    | inr w ↦ rw (d, w) (c, refl, same-Flows c v)
    | inl w ↦ rw (d, w) (went d w (write (readable c.output)) refl)
  ]
]
  where
    all : readable c.output ≡ contents c.output
    all =
        ap (λ n. take n (drop c.output.reader_index c.output.buffer))
          (readable_bytes-contents c.output v.out_valid ∙ length-contents c.output v.out_valid)

    went :
        is_disconnected c.state ≡ false
        → is_writing c.channel ≡ true
        → (r : Written) → write (readable c.output) ≡ r
        → Writes c (after_write r c)
    went d w (write_failed e) h = handle_error-Writes e c v
    went d w (wrote n) h = elim (Bool-cases (n == 0)) [
      | inl z ↦ rw z (handle_error-Writes epipe c v)
      | inr z ↦ rw z (took (retrieve n c.output) refl (retrieve_lem n c.output v.out_valid))
    ]
      where
        took :
            (r : Result Buffer)
            → retrieve n c.output ≡ r
            → ((n ≤ length (contents c.output))
                × (b' : Buffer) × (r ≡ ok b')
                × Holds c.output (drop n (contents c.output)) b')
              ⊎ ((length (contents c.output) < n) × (r ≡ err aborted))
            → Writes c (
                r >>= λ b.
                let c₁ : Connection = record c {
                  output = b;
                  wire = c.wire ++ take n (readable c.output);
                } in
                ok (if readable_bytes b == 0 then after_flush c₁ else c₁))
        took r e (inr (far, f)) =
            absurd (omega (arith, contract.takes (readable c.output) n h, ap length all))
        took r e (inl (near, b, f, k)) = rw f (
          _,
          refl,
          moved-Flows n b c v w k.valid (
              ap (λ t. c.wire ++ take n t ++ contents b) all
              ∙ ap (◌++◌ (c.wire ++ take n (contents c.output))) k.holds
              ∙ append_assoc c.wire (take n (contents c.output)) (drop n (contents c.output))
              ∙ ap (◌++◌ c.wire) (take-append-drop n (contents c.output))),
        )
