-- ===== src/TcpConnection/Send.antt =====
-- `sendInLoop`: what becomes of the bytes.
use mathlib.Core.List.{append_assoc, append-nil}
use hvnetpp.Prelude.{
  ℕ, ◌+◌, ◌≤◌, ◌<◌, ◌≡◌, refl, ap, ◌∙◌, sym, ◌⊎◌, inl, inr, true, false, List, [], ◌∷◌, ◌++◌,
  Result, ok, err, arith, ltb, ◌==◌, ◌&&◌, ◌||◌, not, if◌then◌else◌, length, length_error, max_size,
  take, drop, take-append-drop, length-drop, length-append, drop_all, sub_size, Bool-cases,
}
use hvnetpp.Buffer.{Buffer, append, readable_bytes}
use hvnetpp.Buffer.Valid.{contents}
use hvnetpp.Buffer.Contents.{Appends, append-Appends}
use hvnetpp.Channel.{Channel, is_writing, want_writing}
use hvnetpp.TcpConnection.{
  Connection, State, is_open, is_disconnected, is_disconnecting, is_connected, Written, wrote,
  write_failed, keep_rest, keep, updated, note, queue_write_complete, disconnected, after_direct,
  send_in_loop, eagain, eintr,
}
use hvnetpp.TcpConnection.Sound.{
  IsSound, stream, closed, closed-IsSound, handle_error-eq, readable_bytes-contents,
}

-- The call succeeds in the same state, and the bytes stand behind those that are left to write.
pub record Keeps (rest : List ℕ) (c c' : Connection) : Type 0 where
  pub sound : IsSound c'
  pub state : c'.state ≡ c.state
  pub wire : c'.wire ≡ c.wire
  pub output : contents c'.output ≡ contents c.output ++ rest
  pub shut : c'.write_shut ≡ c.write_shut

abbrev pub KeepsRest : List ℕ → Connection → Result Connection → Type 0
KeepsRest rest c r =
    ((c' : Connection) × (r ≡ ok c') × Keeps rest c c')
    ⊎ ((r ≡ err length_error) × (max_size < c.output.writer_index + length rest))

connected-open :
    (s : State)
    → is_connected s ≡ true
    → (is_open s ≡ true) × (is_disconnected s ≡ false) × (is_disconnecting s ≡ false)
connected-open s h = ground arith

not-shut : (c : Connection) → IsSound c → is_connected c.state ≡ true → c.write_shut ≡ false
not-shut c v h = elim (Bool-cases c.write_shut) [
  | inl t ↦ ground (arith, v.shut_state t)
  | inr f ↦ f
]

now_writing :
    (ch : Channel) → is_writing (if is_writing ch then ch else updated (want_writing ch)) ≡ true
now_writing ch = elim (Bool-cases (is_writing ch)) [ inl w ↦ rw w w | inr w ↦ rw w (ground arith) ]

pub keep_rest_lem :
    (n : ℕ) (message : List ℕ) (c : Connection)
    → IsSound c
    → is_connected c.state ≡ true
    → n ≤ length message
    → length message ≤ max_size
    → KeepsRest (drop n message) c (keep_rest n message c)
unfolding keep_rest
keep_rest_lem n message c v h k l = elim (Bool-cases (ltb 0 (sub_size (length message) n))) [
  | inl some ↦
      more some (append (drop n message) c.output) refl (
        append-Appends (drop n message) c.output v.out_valid (omega (arith, length-drop n message)))
  | inr none ↦ rw none (
      inl (
        c,
        refl,
        record {
          sound = v;
          state = refl;
          wire = refl;
          output = sym (
              ap (◌++◌ (contents c.output)) (drop_all n message (ground arith))
              ∙ append-nil (contents c.output));
          shut = refl;
        },
      ))
]
  where
    more :
        ltb 0 (sub_size (length message) n) ≡ true
        → (r : Result Buffer) → append (drop n message) c.output ≡ r
        → Appends (drop n message) c.output r
        → KeepsRest (drop n message) c (keep_rest n message c)
    more some r e (inr (f, far)) = inr (rw (some, e, f), far)
    more some r e (inl (b, f, a)) =
        let left : ltb 0 (length (contents b)) ≡ true = ground (
          arith,
          ap length a.holds,
          length-append (contents c.output) (drop n message),
          length-drop n message,
        ) in
        inl (
          keep (readable_bytes c.output) (sub_size (length message) n) b c,
          rw (some, e, f) refl,
          record {
            sound = record {
              in_valid = v.in_valid;
              out_valid = a.valid;
              writing = λ d. now_writing c.channel ∙ sym left;
              quiet = λ d. ground (arith, h);
              shut_state = v.shut_state;
              shut_flushed = λ t d. ground (arith, v.shut_state t);
              half_closed = λ d z. ground (arith, h);
              has_socket = v.has_socket;
            };
            state = refl;
            wire = refl;
            output = a.holds;
            shut = refl;
          },
        )

-- What `write` is documented to do: it takes no more bytes than it is given, and the number of an
-- error is not 0.
pub record IsWrite (write : List ℕ → Written) : Type 0 where
  pub takes : (bytes : List ℕ) (n : ℕ) → write bytes ≡ wrote n → n ≤ length bytes
  pub fails : (bytes : List ℕ) (e : ℕ) → write bytes ≡ write_failed e → 0 < e

-- What `sendInLoop` may do: accept the whole message, close on an error of the socket, or pass the
-- limit of the output's vector.
abbrev pub Sends : List ℕ → Connection → Result Connection → Type 0
Sends message c r =
    ((c' : Connection) × (r ≡ ok c')
      × IsSound c'
      × (c'.state ≡ c.state)
      × (stream c' ≡ stream c ++ message))
    ⊎ (((c' : Connection) × (r ≡ ok c')
          × IsSound c'
          × (c'.state ≡ disconnected)
          × (stream c' ≡ stream c))
        ⊎ ((r ≡ err length_error) × (max_size < c.output.writer_index + length message)))

length_zero : (xs : List ℕ) → length xs ≡ 0 → xs ≡ []
length_zero [] h = refl
length_zero (x ∷ xs) h = absurd (omega (arith, h))

-- The bytes from the `n`-th on are kept after the first `n` went out, past an empty output.
kept-Sends :
    (n : ℕ) (message : List ℕ) (c c₀ : Connection)
    → IsSound c₀
    → is_connected c₀.state ≡ true
    → n ≤ length message
    → length message ≤ max_size
    → c₀.state ≡ c.state
    → c₀.output ≡ c.output
    → c₀.wire ≡ c.wire ++ take n message
    → ((n ≡ 0) ⊎ (contents c.output ≡ []))
    → Sends message c (keep_rest n message c₀)
kept-Sends n message c c₀ v h k l s o w e = go _ refl (keep_rest_lem n message c₀ v h k l)
  where
    joined : c.wire ++ take n message ++ (contents c.output ++ drop n message) ≡ stream c ++ message
    joined = elim e [
      | inl z ↦ rw z (
          ap (λ t. t ++ (contents c.output ++ message)) (append-nil c.wire)
          ∙ sym (append_assoc c.wire (contents c.output) message))
      | inr z ↦ rw z (
          append_assoc c.wire (take n message) (drop n message)
          ∙ ap (◌++◌ c.wire) (take-append-drop n message)
          ∙ ap (λ t. t ++ message) (sym (append-nil c.wire)))
    ]

    go :
        (r : Result Connection)
        → keep_rest n message c₀ ≡ r
        → KeepsRest (drop n message) c₀ r
        → Sends message c (keep_rest n message c₀)
    go r f (inl (c', g, a)) = inl (
      c',
      f ∙ g,
      a.sound,
      a.state ∙ s,
      ap (λ t. t ++ contents c'.output) (a.wire ∙ w)
          ∙ ap (◌++◌ (c.wire ++ take n message))
              (a.output ∙ ap (λ b. contents b ++ drop n message) o)
          ∙ joined,
    )
    go r f (inr (g, far)) =
        inr (inr (f ∙ g, ground (arith, ap (λ b. b.writer_index) o, length-drop n message)))

pub send_in_loop_lem :
    (write : List ℕ → Written) (message : List ℕ) (c : Connection)
    → IsSound c
    → is_connected c.state ≡ true
    → length message ≤ max_size
    → IsWrite write
    → Sends message c (send_in_loop write message c)
unfolding send_in_loop after_direct
send_in_loop_lem write message c v h l contract =
    elim (Bool-cases (not (is_writing c.channel) && (readable_bytes c.output == 0))) [
      | inl idle ↦ rw ((connected-open c.state h).1, idle) (direct idle (write message) refl)
      | inr busy ↦
          rw ((connected-open c.state h).1, busy)
            (kept-Sends 0 message c c v h (omega arith) l refl refl (sym (append-nil c.wire))
              (inl refl))
    ]
  where
    direct :
        (not (is_writing c.channel) && (readable_bytes c.output == 0)) ≡ true
        → (r : Written) → write message ≡ r
        → Sends message c (after_direct r message c)
    direct idle (wrote n) e =
        kept-Sends n message c
          (note ((sub_size (length message) n == 0) && c.callbacks.write_complete)
            queue_write_complete (record c { wire = c.wire ++ take n message }))
          v h (contract.takes message n e) l refl refl refl
          (inr (
            length_zero (contents c.output)
              (ground (arith, readable_bytes-contents c.output v.out_valid))))
    direct idle (write_failed e) f = elim (Bool-cases ((e == eagain) || (e == eintr))) [
      | inl t ↦ rw t (
          kept-Sends 0 message c c v h (omega arith) l refl refl (sym (append-nil c.wire))
            (inl refl))
      | inr t ↦
          rw (t, handle_error-eq e c)
            (inr (
              inl (
                closed c,
                ap ok (ground (arith, contract.fails message e f, h)),
                closed-IsSound c v,
                refl,
                refl,
              )))
    ]
