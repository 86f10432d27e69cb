-- ===== src/TcpConnection/Moves.antt =====
-- What `handleWrite` does with the bytes of the output, call by call of `write`.
use hvnetpp.Prelude.{
  ℕ, zero, suc, ◌≤◌, ◌<◌, ◌≡◌, refl, ap, ◌∙◌, sym, subst, ◌⊎◌, inl, inr, Bool, true, false, List,
  ◌++◌, Result, ok, err, arith, ◌==◌, ◌&&◌, not, leb, if◌then◌else◌, length, take, drop,
  length-drop, Bool-cases, aborted,
}
use hvnetpp.Buffer.{Buffer, retrieve, readable_bytes}
use hvnetpp.Buffer.Valid.{contents, length-contents}
use hvnetpp.Buffer.Contents.{Holds, retrieve_lem}
use hvnetpp.Channel.{is_writing, drop_writing}
use hvnetpp.TcpConnection.{
  Connection, is_open, is_disconnected, is_disconnecting, Written, wrote, write_failed, readable,
  has, after_flush, after_write, handle_write, handle_error, shutdown_in_loop, epipe,
  queue_write_complete, note, set_channel,
}
use hvnetpp.TcpConnection.Sound.{
  IsSound, closed, is_transient, handle_error-eq, readable_bytes-contents,
}
use hvnetpp.TcpConnection.Send.{IsWrite}
use hvnetpp.TcpConnection.Write.{Flows, handle_write_lem, writing-open, writing-not_shut, moved}

-- Whether `n` bytes are the whole output.
abbrev is_all : ℕ → Connection → Bool
is_all n c = leb (length (contents c.output)) n

-- `n` bytes went from the output to the wire. The connection waits to write on unless these were
-- all; then the write-complete callback is queued, if it is set, and a connection on its way down
-- has its write half shut.
pub record Moved (n : ℕ) (c c' : Connection) : Type 0 where
  pub wire : c'.wire ≡ c.wire ++ take n (contents c.output)
  pub left : contents c'.output ≡ drop n (contents c.output)
  pub state : c'.state ≡ c.state
  pub waits : is_writing c'.channel ≡ not (is_all n c)
  pub shut : c'.write_shut ≡ (is_all n c && is_disconnecting c.state)
  pub calls :
      c'.calls ≡ (note (is_all n c && c.callbacks.write_complete) queue_write_complete c).calls

-- By what `write` returned for the output.
abbrev pub Did : Written → Connection → Connection → Type 0
Did (write_failed e) c c' = c' ≡ (if is_transient e then c else closed c)
Did (wrote zero) c c' = c' ≡ closed c
Did (wrote (suc n)) c c' = Moved (suc n) c c'

abbrev pub Does : (List ℕ → Written) → Connection → Connection → Type 0
Does write c c' =
    (is_writing c.channel ≡ true → Did (write (contents c.output)) c c')
    × (is_writing c.channel ≡ false → c' ≡ c)

dropped-waits :
    (c : Connection) → is_writing (set_channel (drop_writing c.channel) c).channel ≡ false
dropped-waits c = ground arith

flushed-Moved :
    (n : ℕ) (b : Buffer) (c : Connection)
    → IsSound c
    → is_writing c.channel ≡ true
    → n ≤ length (contents c.output)
    → readable c.output ≡ contents c.output
    → Holds c.output (drop n (contents c.output)) b
    → Moved n c (if readable_bytes b == 0 then after_flush (moved n b c) else moved n b c)
unfolding after_flush shutdown_in_loop
flushed-Moved n b c v w near all k =
    let len = readable_bytes-contents b k.valid in
    let rest = ap length k.holds ∙ length-drop n (contents c.output) in
    let o = writing-open c v w in
    let d : is_disconnected c.state ≡ false = ground (arith, o) in
    let f = v.has_socket d in
    let g = writing-not_shut c v w in
    let out : c.wire ++ take n (readable c.output) ≡ c.wire ++ take n (contents c.output) =
      ap (λ t. c.wire ++ take n t) all in
    elim (Bool-cases (readable_bytes b == 0)) [
      | inl z ↦ let i : is_all n c ≡ true = ground arith in rw (z) (flushed_all i f g out)
      | inr z ↦
          let i : is_all n c ≡ false = ground arith in
          rw (z) (record {
            wire = out;
            left = k.holds;
            state = refl;
            waits = rw (i) w;
            shut = rw (i) g;
            calls = rw (i) refl;
          })
    ]
  where
    flushed_all :
        is_all n c ≡ true
        → has c.socket_fd ≡ true
        → c.write_shut ≡ false
        → c.wire ++ take n (readable c.output) ≡ c.wire ++ take n (contents c.output)
        → Moved n c (after_flush (moved n b c))
    flushed_all i f g out = elim (Bool-cases (is_disconnecting c.state)) [
      | inl d ↦ rw (d) (record {
        wire = out;
        left = k.holds;
        state = refl;
        waits = rw (i) (dropped-waits c);
        shut = rw (i, d, f, g) (ap not (dropped-waits c));
        calls = rw (i) refl;
      })
      | inr d ↦ rw (d) (record {
        wire = out;
        left = k.holds;
        state = refl;
        waits = rw (i) (dropped-waits c);
        shut = rw (i, d) g;
        calls = rw (i) refl;
      })
    ]

value : Connection → Result Connection → Connection
value c (ok d) = d
value c (err fault) = c

ok-injective : {c d : Connection} → ok c ≡ ok d → c ≡ d
unfolding value
ok-injective {c} h = ap (value c) h

failed-Did :
    (e : ℕ) (c : Connection)
    → is_open c.state ≡ true
    → handle_error e c ≡ ok (if is_transient e then c else closed c)
failed-Did e c o =
    handle_error-eq e c
    ∙ elim (Bool-cases (is_transient e)) [ inl t ↦ rw (t) refl | inr t ↦ rw (t, o) refl ]

writing-Did :
    (write : List ℕ → Written) (c : Connection)
    → IsSound c
    → IsWrite write
    → is_writing c.channel ≡ true
    → (c' : Connection) × (handle_write write c ≡ ok c') × Did (write (contents c.output)) c c'
unfolding handle_write after_write
writing-Did write c v contract w =
    let o = writing-open c v w in
    let d : is_disconnected c.state ≡ false = ground (arith, o) in
    let (c', e, m) = went o (write (contents c.output)) refl in
    (c', rw (d, w) (ap (λ t. after_write (write t) c) all ∙ e), m)
  where
    all : readable c.output ≡ contents c.output
    all =
        ap (λ n. take n (drop c.output.reader_index c.output.buffer))
          (readable_bytes-contents c.output v.out_valid ∙ length-contents c.output v.out_valid)

    went :
        is_open c.state ≡ true
        → (r : Written) → write (contents c.output) ≡ r
        → (c' : Connection) × (after_write r c ≡ ok c') × Did r c c'
    went o (write_failed e) h = (_, failed-Did e c o, refl)
    went o (wrote zero) h = (closed c, failed-Did epipe c o, refl)
    went o (wrote (suc n)) h =
        took (retrieve (suc n) c.output) refl (retrieve_lem (suc n) c.output v.out_valid)
      where
        took :
            (r : Result Buffer)
            → retrieve (suc n) c.output ≡ r
            → ((suc n ≤ length (contents c.output))
                × (b' : Buffer) × (r ≡ ok b')
                × Holds c.output (drop (suc n) (contents c.output)) b')
              ⊎ ((length (contents c.output) < suc n) × (r ≡ err aborted))
            → (c' : Connection) × (after_write (wrote (suc n)) c ≡ ok c') × Moved (suc n) c c'
        took r e (inr (far, f)) =
            absurd (omega (arith, contract.takes (contents c.output) (suc n) h))
        took r e (inl (near, b, f, k)) =
            let z : (suc n == 0) ≡ false = ground arith in
            (_, rw (z, e ∙ f) refl, flushed-Moved (suc n) b c v w near all k)

idle_write :
    (write : List ℕ → Written) (c : Connection)
    → is_writing c.channel ≡ false
    → handle_write write c ≡ ok c
unfolding handle_write
idle_write write c w = elim (Bool-cases (is_disconnected c.state)) [
  | inl d ↦ rw (d) refl
  | inr d ↦ rw (d, w) refl
]

-- `handleWrite` of a sound connection, for a `write` that follows its contract. It fails no assertion,
-- and what was accepted for sending stands, in order, partly on the wire and the rest in the output.
-- Where the connection waits to write, `write` is given the whole output: the bytes that it took go to
-- the wire, and the output keeps the others; once all are out the connection waits no more, queues the
-- write-complete callback, if it is set, and shuts its write half if it is on its way down; on an error
-- that is not transient, and where `write` took nothing, it is closed. Otherwise nothing changes.
pub handle_write-Does :
    (write : List ℕ → Written) (c : Connection)
    → IsSound c
    → IsWrite write
    → (c' : Connection) × (handle_write write c ≡ ok c') × Flows c c' × Does write c c'
handle_write-Does write c v contract =
    let (c', e, f) = handle_write_lem write c v contract in (c', e, f, does c' e)
  where
    does : (c' : Connection) → handle_write write c ≡ ok c' → Does write c c'
    does c' e = (
      λ w.
          let (c₁, e₁, m) = writing-Did write c v contract w in
          subst (Did (write (contents c.output)) c) (ok-injective (sym e₁ ∙ e)) m,
      λ w. ok-injective (sym e ∙ idle_write write c w),
    )
