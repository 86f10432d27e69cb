-- ===== src/Channel/Dispatch.antt =====
-- Which callbacks `handleEvent` calls.
use hvnetpp.Prelude.{
  ℕ, ◌<◌, inl, inr, Bool-cases, ◌≡◌, refl, Bool, true, false, List, [], ◌∷◌, ◌++◌, ◌&&◌, ◌||◌, not,
  arith,
}
use hvnetpp.Channel.{
  Channel, Callback, on_close, on_error, on_read, on_write, handle_event, handle_event_with_guard,
  call_if,
}

abbrev same : Callback → Callback → Bool
same on_close on_close = true
same on_error on_error = true
same on_read on_read = true
same on_write on_write = true
same _ _ = false

-- How the events that occurred ask for a callback: input, urgent input or the peer's half-close for
-- reading; room for writing; a hang-up with no input left for closing; an error for the error.
abbrev pub asked : Channel → Callback → Bool
asked c on_close = c.revents.epollhup && not c.revents.epollin && c.callbacks.close
asked c on_error = c.revents.epollerr && c.callbacks.error
asked c on_read =
    (c.revents.epollin || c.revents.epollpri || c.revents.epollrdhup) && c.callbacks.read
asked c on_write = c.revents.epollout && c.callbacks.write

abbrev pub called : Callback → List Callback → Bool
called k [] = false
called k (l ∷ ls) = same k l || called k ls

abbrev rank : Callback → ℕ
rank on_close = 0
rank on_error = 1
rank on_read = 2
rank on_write = 3

abbrev pub InOrder : List Callback → Type 0
InOrder [] = Unit {0}
InOrder (k ∷ []) = Unit {0}
InOrder (k ∷ l ∷ ls) = (rank k < rank l) × InOrder (l ∷ ls)

guarded : (c : Channel) (k : Callback) → called k (handle_event_with_guard c) ≡ asked c k
unfolding handle_event_with_guard
guarded c on_close = ground arith
guarded c on_error = ground arith
guarded c on_read = ground arith
guarded c on_write = ground arith

chosen-InOrder :
    (a b c d : Bool)
    → InOrder
        (call_if a on_close ++ (call_if b on_error ++ (call_if c on_read ++ call_if d on_write)))
chosen-InOrder true true true true = omega arith
chosen-InOrder true true true false = omega arith
chosen-InOrder true true false true = omega arith
chosen-InOrder true true false false = omega arith
chosen-InOrder true false true true = omega arith
chosen-InOrder true false true false = omega arith
chosen-InOrder true false false true = omega arith
chosen-InOrder true false false false = omega arith
chosen-InOrder false true true true = omega arith
chosen-InOrder false true true false = omega arith
chosen-InOrder false true false true = omega arith
chosen-InOrder false true false false = omega arith
chosen-InOrder false false true true = omega arith
chosen-InOrder false false true false = omega arith
chosen-InOrder false false false true = omega arith
chosen-InOrder false false false false = omega arith

-- `handleEvent` calls a callback exactly if the events that occurred ask for it and the callback is
-- set, unless the channel is tied to an object that is gone: then it calls none. Closing comes
-- before the error, that before reading, and that before writing, each once at most.
pub handle_event_lem :
    (alive : Bool) (c : Channel)
    → ((k : Callback) → called k (handle_event alive c) ≡ (not (c.tied && not alive) && asked c k))
      × InOrder (handle_event alive c)
unfolding handle_event handle_event_with_guard
handle_event_lem alive c = elim (Bool-cases (c.tied && not alive)) [
  | inl gone ↦ rw gone (λ k. refl, tt)
  | inr here ↦ rw here (λ k. guarded c k, chosen-InOrder _ _ _ _)
]
